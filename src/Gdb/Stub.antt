-- ===== src/Gdb/Stub.antt =====
-- The state of the stub of src/gdb/Gdb.cc and the handlers of requests on threads and registers.
-- A long is its two's complement below 2 ^ 64, an int that below 2 ^ 32. `out` is the text of the reply.
use kos_hspabla.Prelude.{
  ℕ, zero, suc, ◌+◌, ◌-◌, ◌*◌, ◌/◌, ◌%◌, ◌^◌, ◌==◌, ltb, leb, Bool, false, not, ◌&&◌, if◌then◌else◌,
  update, List, [], ◌∷◌, ◌++◌, codes,
}
use kos_hspabla.Gdb.Hex.{Memory, hex_digit, hex_byte, head_or_nul, behind, hex_to_int}

pub data CpuState : Type 0 where
  unknown : CpuState
  stopped : CpuState
  running : CpuState

-- `VCont`; no action is 0.
pub record VCont : Type 0 where
  pub action : ℕ
  pub signal : ℕ
  pub tid : ℕ

-- The registers are by CPU and number. `bpMap` is a list of addresses with their bytes.
pub record Stub : Type 0 where
  pub memory : Memory
  pub reg64 : ℕ → ℕ → ℕ
  pub reg32 : ℕ → ℕ → ℕ
  pub cpu_state : ℕ → CpuState
  pub htid : ℕ
  pub bp_map : List (ℕ × ℕ)
  pub unwind_addr : ℕ
  pub unwind_break : Bool
  pub fault_enabled : Bool
  pub vcont : VCont

abbrev pub reg64cnt : ℕ
reg64cnt = 17

abbrev pub reg32cnt : ℕ
reg32cnt = 7

abbrev pub rip : ℕ
rip = 16

-- `Htid` when no thread was chosen: -2
abbrev pub no_thread : ℕ
no_thread = 2 ^ 32 - 2

abbrev pub minus_one64 : ℕ
minus_one64 = 2 ^ 64 - 1

abbrev pub error_text : List ℕ
error_text = codes "E01"

abbrev pub ok_text : List ℕ
ok_text = codes "OK"

-- Two hexadecimal digits of a byte
abbrev pub hex_pair : ℕ → List ℕ
hex_pair b = hex_digit (b / 16) ∷ hex_digit (b % 16) ∷ []

-- `mem2hex` of a register's `n` bytes, lowest first, and `hex2mem` into one.
unfoldable pub word_hex : ℕ → ℕ → List ℕ
word_hex zero v = []
word_hex (suc n) v = hex_digit (v % 256 / 16) ∷ hex_digit (v % 256 % 16) ∷ word_hex n (v / 256)

unfoldable pub hex_word : ℕ → List ℕ → ℕ
hex_word zero text = 0
hex_word (suc n) text =
    hex_byte (head_or_nul text) (head_or_nul (behind text))
    + 256 * hex_word n (behind (behind text))

-- The conversion of an int to an mword
abbrev pub extend : ℕ → ℕ
extend i = if ltb i (2 ^ 31) then i else i + 2 ^ 64 - 2 ^ 32

-- `idx` of the register handlers: the chosen thread's, or this one's
unfoldable pub chosen : Stub → ℕ → ℕ
chosen s ctid =
    if s.htid == no_thread
    then (ctid + minus_one64) % 2 ^ 64
    else (extend s.htid + minus_one64) % 2 ^ 64

unfoldable pub forget_thread : Stub → Stub
forget_thread s = record s { htid = no_thread }

-- `mem2hex` and `hex2mem` of the stub's own data leave the fault handler off.
abbrev pub converted : Stub → Stub
converted s = record s { fault_enabled = false }

unfoldable pub thread_alive : ℕ → Stub → List ℕ → Stub × List ℕ
thread_alive cpus s text =
    let id = hex_to_int text in
    if not (id.digits == 0) && leb 1 id.value && leb id.value cpus
    then (s, ok_text)
    else (s, error_text)

unfoldable pub reason_halted : Stub → ℕ → ℕ → Stub × List ℕ
reason_halted s sigval ctid =
    let idx = if s.htid == no_thread then ctid else s.htid in
    (
      converted (forget_thread s),
      codes "T"
          ++ hex_pair sigval
          ++ codes "thread:"
          ++ hex_pair idx
          ++ codes ";"
          ++ hex_pair rip
          ++ codes ":"
          ++ word_hex 8 (s.reg64 ((extend idx + minus_one64) % 2 ^ 64) rip)
          ++ codes ";",
    )

-- `n` registers of `width` bytes, from number `i` on
unfoldable pub regs_hex : (ℕ → ℕ) → ℕ → ℕ → ℕ → List ℕ
regs_hex regs width i zero = []
regs_hex regs width i (suc n) = word_hex width (regs i) ++ regs_hex regs width (suc i) n

unfoldable pub read_registers : Stub → ℕ → Stub × List ℕ
read_registers s ctid =
    let idx = chosen s ctid in
    (
      converted (forget_thread s),
      regs_hex (s.reg64 idx) 8 0 reg64cnt ++ regs_hex (s.reg32 idx) 4 0 reg32cnt,
    )

abbrev pub drop : ℕ → List ℕ → List ℕ
drop zero text = text
drop (suc n) text = drop n (behind text)

unfoldable pub write_registers : Stub → List ℕ → ℕ → Stub × List ℕ
write_registers s text ctid =
    let idx = chosen s ctid in
    let regs = λ (i : ℕ). hex_word 8 (drop (16 * i) text) in
    let regs' = λ (i : ℕ). hex_word 4 (drop (16 * reg64cnt + 8 * i) text) in
    (
      record s {
        htid = no_thread;
        fault_enabled = false;
        reg64 = update s.reg64 idx (λ i. if ltb i reg64cnt then regs i else s.reg64 idx i);
        reg32 = update s.reg32 idx (λ i. if ltb i reg32cnt then regs' i else s.reg32 idx i);
      },
      ok_text,
    )

-- `regno -= reg64cnt`
abbrev pub low_regno : ℕ → ℕ
low_regno regno = (regno + 2 ^ 64 - reg64cnt) % 2 ^ 64

unfoldable pub read_register : Stub → List ℕ → ℕ → Stub × List ℕ
read_register s text ctid =
    let idx = chosen s ctid in
    let regno = hex_to_int text in
    let low = low_regno regno.value in
    if not (regno.digits == 0) && (head_or_nul regno.rest == b'=')
    then (if ltb regno.value reg64cnt
        then (converted (forget_thread s), word_hex 8 (s.reg64 idx regno.value))
        else if ltb low reg32cnt
        then (converted (forget_thread s), word_hex 4 (s.reg32 idx low))
        else (forget_thread s, error_text))
    else (forget_thread s, error_text)

unfoldable pub write_register : Stub → List ℕ → ℕ → Stub × List ℕ
write_register s text ctid =
    let idx = chosen s ctid in
    let regno = hex_to_int text in
    let value = behind regno.rest in
    let low = low_regno regno.value in
    if not (regno.digits == 0) && (head_or_nul regno.rest == b'=')
    then (if ltb regno.value reg64cnt
        then (
          record (converted (forget_thread s)) {
            reg64 = update s.reg64 idx (update (s.reg64 idx) regno.value (hex_word 8 value));
          },
          ok_text,
        )
        else if ltb low reg32cnt
        then (
          record (converted (forget_thread s)) {
            reg32 = update s.reg32 idx (update (s.reg32 idx) low (hex_word 4 value));
          },
          ok_text,
        )
        else (forget_thread s, error_text))
    else (forget_thread s, error_text)

-- `threadId > 0` reads the sign; `Htid` takes the lower half.
unfoldable pub choose_thread : Stub → List ℕ → Stub × List ℕ
choose_thread s text =
    let id = hex_to_int (behind text) in
    if (head_or_nul text == b'g') && not (id.digits == 0) && ltb 0 id.value && ltb id.value (2 ^ 63)
    then (record s { htid = id.value % 2 ^ 32 }, ok_text)
    else (s, error_text)
