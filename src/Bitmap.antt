-- ===== src/Bitmap.antt =====
-- `class Bitmap<B>` of src/generic/Bitmap.h: B bits in N = divup(B, 64) words. `bits[N]` is a
-- function from indices; `valid` says which indices the array has.
pub mod Laws
pub mod Whole
pub mod Count
mod Tests
use Prim.Native.Nat.{bit_and, bit_or}
use kos_hspabla.Prelude.{ℕ, zero, suc, ◌-◌, ◌*◌, ◌/◌, ◌%◌, ◌<◌, Bool, not, ◌==◌, ltb, update}
use kos_hspabla.Basics.{limit, not_mword, add_mword, divup}
use kos_hspabla.Bitmanip.{
  word_bits, shl, bit_set, bit_clr, bit_flp, popcount, multiscan, multiscan_rev,
}

-- `static const int N`
unfoldable pub word_count : ℕ → ℕ
word_count b = divup b word_bits

abbrev pub Bitmap : Type 0
Bitmap = ℕ → ℕ

-- `BitmapEmptyHelper<X>`, `BitmapFullHelper<X>` and `BitmapCountHelper<X>`
unfoldable pub empty_helper : ℕ → Bitmap → ℕ
empty_helper zero bits = bits 0
empty_helper (suc x) bits = bit_or (bits (suc x)) (empty_helper x bits)

unfoldable pub full_helper : ℕ → Bitmap → ℕ
full_helper zero bits = bits 0
full_helper (suc x) bits = bit_and (bits (suc x)) (full_helper x bits)

unfoldable pub count_helper : ℕ → Bitmap → ℕ
count_helper zero bits = popcount (bits 0)
count_helper (suc x) bits = add_mword (popcount (bits (suc x))) (count_helper x bits)

-- The loops of setB, clrB and flpB, after `n` rounds.
unfoldable pub fill : ℕ → ℕ → Bitmap → Bitmap
fill zero v bits = bits
fill (suc n) v bits = update (fill n v bits) n v

unfoldable pub flip : ℕ → Bitmap → Bitmap
flip zero bits = bits
flip (suc n) bits = update (flip n bits) n (not_mword (flip n bits n))

unfoldable pub set : Bitmap → ℕ → Bitmap
set bits idx = update bits (idx / word_bits) (bit_set (bits (idx / word_bits)) (idx % word_bits))

unfoldable pub clr : Bitmap → ℕ → Bitmap
clr bits idx = update bits (idx / word_bits) (bit_clr (bits (idx / word_bits)) (idx % word_bits))

unfoldable pub flp : Bitmap → ℕ → Bitmap
flp bits idx = update bits (idx / word_bits) (bit_flp (bits (idx / word_bits)) (idx % word_bits))

unfoldable pub test : Bitmap → ℕ → Bool
test bits idx = not (bit_and (bits (idx / word_bits)) (shl 1 (idx % word_bits)) == 0)

-- The members that depend on the number of words.
module _ (n : ℕ) where
  unfoldable pub valid : ℕ → Bool
  valid idx = ltb idx (n * word_bits)

  unfoldable pub set_b : Bitmap → Bitmap
  set_b bits = fill n limit bits

  unfoldable pub clr_b : Bitmap → Bitmap
  clr_b bits = fill n 0 bits

  unfoldable pub flp_b : Bitmap → Bitmap
  flp_b bits = flip n bits

  unfoldable pub empty : Bitmap → Bool
  empty bits = empty_helper (n - 1) bits == 0

  unfoldable pub full : Bitmap → Bool
  full bits = full_helper (n - 1) bits == limit

  unfoldable pub count : Bitmap → ℕ
  count bits = count_helper (n - 1) bits

  unfoldable pub find : Bitmap → Bool → ℕ → ℕ
  find bits findset idx = multiscan n findset bits idx

  unfoldable pub find_rev : Bitmap → Bool → ℕ
  find_rev bits findset = multiscan_rev n findset bits
