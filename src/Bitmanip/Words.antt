-- ===== src/Bitmanip/Words.antt =====
-- bit_set, bit_clr and bit_flp of src/generic/bitmanip.h on the bits of a word.
use Prim.Native.Nat.{bit_and}
use kos_hspabla.Prelude.{
  ℕ, ◌-◌, ◌^◌, ◌<◌, ◌≤◌, true, false, not, ◌≡◌, refl, ◌∙◌, ap, arith, ◌==◌, if◌then◌else◌, ltb,
  Bool-cases, inl, inr, ==_iff, dec_lt,
}
use kos_hspabla.Prelude.Bits.{pow_pos}
use kos_hspabla.Prelude.Testbit.{
  testbit, testbit-bit_and, testbit-bit_or, testbit-bit_xor, testbit-pow, testbit-not, bit_and-le,
  bit_or-lt, bit_xor-lt, zero-testbit, eq-zero_of_testbit,
}
use kos_hspabla.Prelude.Shift.{testbit-mask}
use kos_hspabla.Basics.{mword_mod, not_mword, pow2}
use kos_hspabla.Basics.Align.{pow-lt-mword}
use kos_hspabla.Bitmanip.{shl, bit_set, bit_clr, bit_flp, bitmask}

-- `mword(1) << idx`
pub shl_one : (idx : ℕ) → idx < 64 → shl 1 idx ≡ 2 ^ idx
shl_one idx h = omega (arith, pow-lt-mword idx h, pow_pos idx)

pub testbit-shl_one : (idx j : ℕ) → idx < 64 → testbit (shl 1 idx) j ≡ (idx == j)
testbit-shl_one idx j h = ap (λ (m : ℕ). testbit m j) (shl_one idx h) ∙ testbit-pow idx j

pub testbit-bit_set :
    (a idx j : ℕ) → idx < 64 → testbit (bit_set a idx) j ≡ (if idx == j then true else testbit a j)
unfolding bit_set
testbit-bit_set a idx j h = ground (arith, testbit-bit_or a (shl 1 idx) j, testbit-shl_one idx j h)

pub testbit-not_mword :
    (x j : ℕ) → x < mword_mod → j < 64 → testbit (not_mword x) j ≡ not (testbit x j)
testbit-not_mword x j hx hj = testbit-not 64 x j hx hj

pub testbit-bit_clr :
    (a idx j : ℕ)
    → idx < 64
    → j < 64
    → testbit (bit_clr a idx) j ≡ (if idx == j then false else testbit a j)
unfolding bit_clr
testbit-bit_clr a idx j h hj = ground (
  arith,
  testbit-bit_and a (not_mword (shl 1 idx)) j,
  testbit-not_mword (shl 1 idx) j (omega arith) hj,
  testbit-shl_one idx j h,
)

pub testbit-bit_flp :
    (a idx j : ℕ)
    → idx < 64
    → testbit (bit_flp a idx) j ≡ (if idx == j then not (testbit a j) else testbit a j)
unfolding bit_flp
testbit-bit_flp a idx j h = ground (arith, testbit-bit_xor a (shl 1 idx) j, testbit-shl_one idx j h)

pub bit_set-lt : (a idx : ℕ) → a < mword_mod → bit_set a idx < mword_mod
unfolding bit_set
bit_set-lt a idx h = bit_or-lt 64 a (shl 1 idx) h (omega arith)

pub bit_clr-lt : (a idx : ℕ) → a < mword_mod → bit_clr a idx < mword_mod
unfolding bit_clr
bit_clr-lt a idx h = omega (arith, bit_and-le a (not_mword (shl 1 idx)))

pub bit_flp-lt : (a idx : ℕ) → a < mword_mod → bit_flp a idx < mword_mod
unfolding bit_flp
bit_flp-lt a idx h = bit_xor-lt 64 a (shl 1 idx) h (omega arith)

-- The test `a & (mword(1) << idx)`, as a condition.
pub bit_and-shl_one :
    (a idx : ℕ) → a < mword_mod → idx < 64 → (bit_and a (shl 1 idx) == 0) ≡ not (testbit a idx)
bit_and-shl_one a idx ha h = elim (Bool-cases (testbit a idx)) [
  | inl on ↦ elim (Bool-cases (bit_and a (shl 1 idx) == 0)) [
    | inl empty ↦
        let zeroed : bit_and a (shl 1 idx) ≡ 0 = (==_iff _ 0).0 empty in
        let bits : testbit (bit_and a (shl 1 idx)) idx ≡ testbit 0 idx =
          ap (λ (n : ℕ). testbit n idx) zeroed in
        ground (
          arith,
          bits,
          zero-testbit idx,
          testbit-bit_and a (shl 1 idx) idx,
          testbit-shl_one idx idx h,
        )
    | inr some_left ↦ rw (on, some_left)
  ]
  | inr off ↦ rw off ((==_iff _ 0).1 (none_left off))
]
  where
    none_left : testbit a idx ≡ false → bit_and a (shl 1 idx) ≡ 0
    none_left off =
        eq-zero_of_testbit 64 _ (omega (arith, bit_and-le a (shl 1 idx)))
          λ i hi. ground (arith, testbit-bit_and a (shl 1 idx) i, testbit-shl_one idx i h)

pub bitmask-eq : (w : ℕ) → w ≤ 64 → bitmask w ≡ 2 ^ w - 1
unfolding bitmask pow2
bitmask-eq w h = elim (dec_lt w 64) [
  | yes p ↦ ground (arith, pow-lt-mword w p, pow_pos w)
  | no p ↦ let e : w ≡ 64 = omega arith in rw e refl
]

-- `bitmask` sets the lowest bits.
pub testbit-bitmask : (w j : ℕ) → w ≤ 64 → testbit (bitmask w) j ≡ ltb j w
testbit-bitmask w j h = ap (λ (n : ℕ). testbit n j) (bitmask-eq w h) ∙ testbit-mask w j

pub bitmask-lt : (w : ℕ) → bitmask w < mword_mod
unfolding bitmask
bitmask-lt w = ground arith
