-- ===== src/Gdb/Break.antt =====
-- The handlers of src/gdb/Gdb.cc for memory and software breakpoints. `none` is a failed KASSERT.
use kos_hspabla.Prelude.{
  ℕ, ◌%◌, ◌^◌, ◌==◌, ltb, true, false, not, ◌&&◌, ◌||◌, if◌then◌else◌, update, Option, none, some,
  List, [], ◌∷◌,
}
use kos_hspabla.Gdb.Hex.{Memory, head_or_nul, behind, hex_to_int, mem2hex, hex2mem}
use kos_hspabla.Gdb.Stub.{Stub, error_text, ok_text}

-- A length as the int that counts the rounds; a negative one makes none.
abbrev pub rounds : ℕ → ℕ
rounds length = let count = length % 2 ^ 32 in if ltb count (2 ^ 31) then count else 0

-- After a fault the handler stays enabled.
unfoldable pub read_memory : Stub → List ℕ → Stub × List ℕ
read_memory s text =
    let addr = hex_to_int text in
    let length = hex_to_int (behind addr.rest) in
    let result = mem2hex s.memory addr.value (rounds length.value) in
    if not (addr.digits == 0) && (head_or_nul addr.rest == b',') && not (length.digits == 0)
    then (record s { fault_enabled = result.1 }, if result.1 then error_text else result.0)
    else (s, error_text)

unfoldable pub write_memory : Stub → List ℕ → Stub × List ℕ
write_memory s text =
    let addr = hex_to_int text in
    let length = hex_to_int (behind addr.rest) in
    let result = hex2mem (behind length.rest) s.memory addr.value (rounds length.value) in
    if not (addr.digits == 0)
      && (head_or_nul addr.rest == b',')
      && not (length.digits == 0)
      && (head_or_nul length.rest == b':')
    then (
      record s { memory = result.0; fault_enabled = result.1 },
      if result.1 then error_text else ok_text,
    )
    else (s, error_text)

-- `bpMap[addr] = op`, and the lookup of `bpMap`
abbrev pub remember : ℕ → ℕ → List (ℕ × ℕ) → List (ℕ × ℕ)
remember addr op [] = (addr, op) ∷ []
remember addr op ((a, o) ∷ rest) =
    if a == addr then (addr, op) ∷ rest else (a, o) ∷ remember addr op rest

abbrev pub remembered : ℕ → List (ℕ × ℕ) → Option ℕ
remembered addr [] = none
remembered addr ((a, o) ∷ rest) = if a == addr then some o else remembered addr rest

abbrev pub poke : Memory → ℕ → ℕ → Memory
poke m addr op = record m { byte_at = update m.byte_at addr op }

unfoldable pub set_break_at : Stub → ℕ → ℕ → Option (Stub × List ℕ)
set_break_at s addr length =
    let noted = record s {
      bp_map = remember addr (s.memory.byte_at addr) s.bp_map;
      fault_enabled = true;
    } in
    if not (s.memory.readable addr)
    then some (record s { fault_enabled = true }, error_text)
    else if not (length == 1)
    then none
    else if not (s.memory.writable addr)
    then some (noted, error_text)
    else some (
      record noted {
        memory = poke s.memory addr 0xCC;
        unwind_break = (addr == s.unwind_addr) || s.unwind_break;
        fault_enabled = false;
      },
      ok_text,
    )

unfoldable pub remove_break_with : Stub → ℕ → Option ℕ → Option (Stub × List ℕ)
remove_break_with s addr none = some (s, error_text)
remove_break_with s addr (some op) =
    if not (s.memory.writable addr)
    then some (record s { fault_enabled = true }, error_text)
    else some (
      record s {
        memory = poke s.memory addr op;
        unwind_break = not (addr == s.unwind_addr) && s.unwind_break;
        fault_enabled = false;
      },
      ok_text,
    )

unfoldable pub set_soft_break : Stub → List ℕ → Option (Stub × List ℕ)
set_soft_break s text =
    let addr = hex_to_int text in
    let length = hex_to_int (behind addr.rest) in
    if not (addr.digits == 0) && (head_or_nul addr.rest == b',') && not (length.digits == 0)
    then set_break_at s addr.value length.value
    else some (s, error_text)

unfoldable pub remove_soft_break : Stub → List ℕ → Option (Stub × List ℕ)
remove_soft_break s text =
    let addr = hex_to_int text in
    let length = hex_to_int (behind addr.rest) in
    if not (addr.digits == 0) && (head_or_nul addr.rest == b',') && not (length.digits == 0)
    then remove_break_with s addr.value (remembered addr.value s.bp_map)
    else some (s, error_text)
