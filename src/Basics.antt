-- ===== src/Basics.antt =====
-- The arithmetic helpers of src/generic/basics.h at `mword` and `size_t`, both uint64_t: a number
-- below 2 ^ 64, with every wrap-around written out. An alignment is used at powers of two only.
pub mod Align
mod Tests
use Prim.Native.Nat.{bit_and}
use kos_hspabla.Prelude.{ℕ, ◌+◌, ◌-◌, ◌*◌, ◌/◌, ◌%◌, ◌^◌, ◌<◌, ◌≤◌, Bool, ◌==◌, if◌then◌else◌}

-- One more than the largest mword.
abbrev pub mword_mod : ℕ
mword_mod = 2 ^ 64

-- `a + b`, `a - b` and `~a`
abbrev pub add_mword : ℕ → ℕ → ℕ
add_mword a b = (a + b) % mword_mod

abbrev pub sub_mword : ℕ → ℕ → ℕ
sub_mword a b = (a + mword_mod - b) % mword_mod

abbrev pub not_mword : ℕ → ℕ
not_mword a = mword_mod - 1 - a

-- `limit<mword>()`, that is `~mword(0)`; searches return it for "not found"
abbrev pub limit : ℕ
limit = mword_mod - 1

-- `T(1) << x`; C++ defines it for x below 64.
unfoldable pub pow2 : ℕ → ℕ
pow2 x = 2 ^ x % mword_mod

unfoldable pub ispow2 : ℕ → Bool
ispow2 x = bit_and x (sub_mword x 1) == 0

unfoldable pub align_up : ℕ → ℕ → ℕ
align_up x a = bit_and (sub_mword (add_mword x a) 1) (not_mword (sub_mword a 1))

unfoldable pub align_down : ℕ → ℕ → ℕ
align_down x a = bit_and x (not_mword (sub_mword a 1))

unfoldable pub aligned : ℕ → ℕ → Bool
aligned x a = bit_and x (sub_mword a 1) == 0

-- At `n = 0` the subtraction wraps.
unfoldable pub divup : ℕ → ℕ → ℕ
divup n d = add_mword (sub_mword n 1 / d) 1
