-- ===== src/Gdb/Dispatch.antt =====
-- Queries, vCont packets and the dispatch on a packet's first character in src/gdb/Gdb.cc. The C
-- library's snprintf, which prints a CPU and its state, is a parameter. `none` is a failed KASSERT.
use kos_hspabla.Prelude.{
  ℕ, zero, suc, ◌+◌, ◌/◌, ◌%◌, ◌^◌, ◌==◌, Bool, true, false, not, ◌&&◌, ◌||◌, if◌then◌else◌, Option,
  none, some, ◌>>=◌, List, [], ◌∷◌, ◌++◌, codes, length,
}
use kos_hspabla.Gdb.Hex.{head_or_nul, behind, hex_byte, hex_digit, hex_to_int}
use kos_hspabla.Gdb.Stub.{
  Stub, CpuState, no_thread, minus_one64, error_text, ok_text, hex_pair, converted, drop,
  thread_alive, reason_halted, read_registers, write_registers, read_register, write_register,
  choose_thread,
}
use kos_hspabla.Gdb.Break.{read_memory, write_memory, set_soft_break, remove_soft_break}

-- `!strncmp(in, prefix, strlen(prefix))`
abbrev pub starts : List ℕ → List ℕ → Bool
starts [] text = true
starts (p ∷ ps) [] = false
starts (p ∷ ps) (c ∷ cs) = (p == c) && starts ps cs

-- `mem2hex` of a text, and `hex2mem` of `n` characters into a buffer
abbrev pub text_hex : List ℕ → List ℕ
text_hex [] = []
text_hex (c ∷ cs) = hex_digit (c / 16) ∷ hex_digit (c % 16) ∷ text_hex cs

abbrev pub hex_text : ℕ → List ℕ → List ℕ
hex_text zero text = []
hex_text (suc n) text =
    hex_byte (head_or_nul text) (head_or_nul (behind text)) ∷ hex_text n (behind (behind text))

abbrev pub same_text : List ℕ → List ℕ → Bool
same_text a b = starts a b && (length a == length b)

abbrev pub unwind_name : List ℕ
unwind_name = codes "_Unwind_DebugHook"

-- The identifiers of CPUs `i`, … as `n` are left.
unfoldable pub thread_list : ℕ → ℕ → List ℕ
thread_list i zero = []
thread_list i (suc n) =
    (if i == 0 then [] else codes ",") ++ hex_pair (i + 1) ++ thread_list (suc i) n

-- The reply of a query; `Symbol:` answers to a symbol lookup change the stub too. TStatus sends the
-- empty packet itself, all others leave `out` to be sent if it is not empty.
pub record Answer : Type 0 where
  pub stub : Stub
  pub sent : List (List ℕ)

abbrev pub say : Stub → List ℕ → Option Answer
say s [] = some (record { stub = s; sent = [] })
say s (c ∷ cs) = some (record { stub = s; sent = (c ∷ cs) ∷ [] })

abbrev pub answer : Stub × List ℕ → Option Answer
answer (s, out) = say s out

module _ (cpus : ℕ) (print_cpu : ℕ → CpuState → List ℕ) where
  unfoldable pub symbol_response : Stub → List ℕ → Option Answer
  symbol_response s text =
      let addr = hex_to_int (drop 7 text) in
      let name = hex_text (length unwind_name) (behind addr.rest) in
      if addr.digits == 0
      then say s (codes "qUnimplemented")
      else if same_text name unwind_name
      then say (record (converted s) { unwind_addr = addr.value }) ok_text
      else none

  unfoldable pub thread_info : Stub → List ℕ → Option Answer
  thread_info s text =
      let id = hex_to_int (drop 16 text) in
      let cpu = (id.value + minus_one64) % 2 ^ 64 in
      if id.digits == 0
      then say s (codes "qUnimplemented")
      else say (converted s) (text_hex (print_cpu cpu (s.cpu_state cpu)))

  unfoldable pub query : Stub → List ℕ → ℕ → Option Answer
  query s text ctid =
      if starts (codes "Supported") text
      then say s (codes "PacketSize=1000")
      else if starts (codes "C") text
      then say s (codes "QC" ++ hex_pair ctid)
      else if starts (codes "Attached") text
      then say s (codes "0")
      else if starts (codes "Offsets") text
      then say s (codes "Text=0;Data=0;Bss=0")
      else if starts (codes "Symbol::") text
      then say (converted s) (codes "qSymbol:" ++ text_hex unwind_name)
      else if starts (codes "Symbol:") text
      then symbol_response s text
      else if starts (codes "TStatus") text
      then some (record { stub = s; sent = [] ∷ [] })
      else if starts (codes "fThreadInfo") text
      then say s (codes "m" ++ thread_list 0 cpus)
      else if starts (codes "sThreadInfo") text
      then say s (codes "l")
      else if starts (codes "ThreadExtraInfo") text
      then thread_info s text
      else say s (codes "qUnimplemented")

  abbrev pub skip_spaces : List ℕ → List ℕ
  skip_spaces [] = []
  skip_spaces (c ∷ cs) = if c == b' ' then skip_spaces cs else c ∷ cs

  -- From the test for `:` on; `a` is the action's letter.
  unfoldable pub vcont_thread : Stub → ℕ → ℕ → List ℕ → Option Answer
  vcont_thread s a signal text =
      let id = hex_to_int (behind text) in
      let given = head_or_nul text == b':' in
      let tid = if given then id.value else minus_one64 in
      let acts = (a == b'c') || (a == b's') in
      if given && (id.digits == 0)
      then say (record s { vcont = record (s.vcont) { signal = signal; tid = 0 } }) []
      else say
          (record s {
            vcont = record {
              action = if acts then a else s.vcont.action;
              signal = signal;
              tid = tid;
            };
          })
          []

  unfoldable pub vcont_parse : Stub → List ℕ → Option Answer
  vcont_parse s text =
      let rest = drop 4 text in
      let a = head_or_nul (behind rest) in
      let args = behind (behind rest) in
      let signal = hex_to_int (skip_spaces args) in
      if not (starts (codes "Cont") text)
      then say s []
      else if head_or_nul rest == b'?'
      then say s (codes "vCont;c;C;s;S")
      else if not (s.vcont.action == 0)
      then none
      else if not (head_or_nul rest == b';')
      then say s []
      else if (a == b'C') || (a == b'S')
      then (if signal.digits == 0
          then say (record s { vcont = record (s.vcont) { signal = 0 } }) []
          else vcont_thread s (a + 32) signal.value signal.rest)
      else vcont_thread s a 0 args

  unfoldable pub detach : Stub → Stub
  detach s = record s { vcont = record { action = b'c'; signal = 0; tid = minus_one64 } }

  -- `Z` and `z`: the type, and the text behind the character that follows it
  unfoldable pub break_packet :
      (Stub → List ℕ → Option (Stub × List ℕ)) → Stub → List ℕ → Option Answer
  break_packet handle s text =
      let type = hex_to_int text in
      if type.digits == 0
      then say s []
      else if type.value == 0
      then handle s (behind type.rest) >>= answer
      else say s error_text

  unfoldable pub dispatch : Stub → ℕ → List ℕ → ℕ → ℕ → Option Answer
  dispatch s c text sigval ctid =
      if c == b'q'
      then query s text ctid
      else if c == b'v'
      then vcont_parse s text
      else if c == b'T'
      then answer (thread_alive cpus s text)
      else if c == b'?'
      then answer (reason_halted s sigval ctid)
      else if c == b'g'
      then answer (read_registers s ctid)
      else if c == b'G'
      then answer (write_registers s text ctid)
      else if c == b'p'
      then answer (read_register s text ctid)
      else if c == b'P'
      then answer (write_register s text ctid)
      else if c == b'H'
      then answer (choose_thread s text)
      else if c == b'm'
      then answer (read_memory s text)
      else if c == b'M'
      then answer (write_memory s text)
      else if c == b'k'
      then say (detach s) []
      else if c == b'Z'
      then break_packet set_soft_break s text
      else if c == b'z'
      then break_packet remove_soft_break s text
      else say s error_text

  -- `Htid = -2` after every packet but `H`.
  abbrev pub finish : ℕ → Answer → Option Answer
  finish c a =
      some (if c == b'H' then a else record a { stub = record (a.stub) { htid = no_thread } })

  unfoldable pub handle_packet : Stub → List ℕ → ℕ → ℕ → Option Answer
  handle_packet s packet sigval ctid = do
    a ← dispatch s (head_or_nul packet) (behind packet) sigval ctid
    finish (head_or_nul packet) a
