-- ===== src/Gdb/Hex.antt =====
-- The hexadecimal conversions of src/gdb/Gdb.cc. A text is the list of its bytes before the
-- terminating NUL. An int is its two's complement below 2 ^ 32. `get_char` and `set_char` are assembly:
-- the memory says at which addresses they fault.
use Prim.Native.Nat.{bit_or}
use kos_hspabla.Prelude.{
  ℕ, zero, suc, ◌+◌, ◌-◌, ◌*◌, ◌/◌, ◌%◌, ◌^◌, ltb, leb, Bool, true, false, ◌&&◌, if◌then◌else◌,
  update, List, [], ◌∷◌,
}

-- `hexchars[i]`, for i below 16
unfoldable pub hex_digit : ℕ → ℕ
hex_digit i = if ltb i 10 then b'0' + i else b'a' + (i - 10)

abbrev pub minus_one : ℕ
minus_one = 2 ^ 32 - 1

unfoldable pub char2hex : ℕ → ℕ
char2hex ch =
    if leb b'0' ch && leb ch b'9'
    then ch - b'0'
    else if leb b'a' ch && leb ch b'f'
    then ch - b'a' + 10
    else if leb b'A' ch && leb ch b'F'
    then ch - b'A' + 10
    else minus_one

-- `char2hex(high) << 4` plus `char2hex(low)`, as a byte
unfoldable pub hex_byte : ℕ → ℕ → ℕ
hex_byte high low = (char2hex high * 16 + char2hex low) % 256

pub record Memory : Type 0 where
  pub byte_at : ℕ → ℕ
  pub readable : ℕ → Bool
  pub writable : ℕ → Bool

-- The text and whether the fault handler was called.
unfoldable pub mem2hex : Memory → ℕ → ℕ → List ℕ × Bool
mem2hex m addr zero = ([], false)
mem2hex m addr (suc count) =
    let ch = m.byte_at addr in
    let rest = mem2hex m (addr + 1) count in
    if m.readable addr
    then (hex_digit (ch / 16) ∷ hex_digit (ch % 16) ∷ rest.0, rest.1)
    else ([], true)

-- The next character and the text behind it; past the end the terminating NUL is read.
abbrev pub head_or_nul : List ℕ → ℕ
head_or_nul [] = 0
head_or_nul (c ∷ cs) = c

abbrev pub behind : List ℕ → List ℕ
behind [] = []
behind (c ∷ cs) = cs

unfoldable pub hex2mem : List ℕ → Memory → ℕ → ℕ → Memory × Bool
hex2mem buf m addr zero = (m, false)
hex2mem buf m addr (suc count) =
    let ch = hex_byte (head_or_nul buf) (head_or_nul (behind buf)) in
    let rest =
      hex2mem (behind (behind buf)) (record m { byte_at = update m.byte_at addr ch }) (addr + 1)
        count in
    if m.writable addr then rest else (m, true)

-- What `hexToInt` leaves behind: the number of digits, the value, and the text from `*ptr` on.
pub record Scanned : Type 0 where
  pub digits : ℕ
  pub value : ℕ
  pub rest : List ℕ

unfoldable pub hex_loop : List ℕ → ℕ → ℕ → Scanned
hex_loop [] digits value = record { digits = digits; value = value; rest = [] }
hex_loop (ch ∷ text) digits value =
    let more = hex_loop text (digits + 1) (bit_or (value * 16 % 2 ^ 64) (char2hex ch)) in
    if ltb (char2hex ch) (2 ^ 31)
    then more
    else record { digits = digits; value = value; rest = ch ∷ text }

unfoldable pub hex_to_int : List ℕ → Scanned
hex_to_int text = hex_loop text 0 0
