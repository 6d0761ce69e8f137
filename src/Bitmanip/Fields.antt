-- ===== src/Bitmanip/Fields.antt =====
-- BitString of src/generic/bitmanip.h: a field of a word is read back as it was written, and the
-- other fields stay.
use Prim.Native.Nat.{bit_and, bit_or}
use native.Mathlib.Nat.{mod-lt}
use kos_hspabla.Prelude.{
  ℕ, ◌+◌, ◌-◌, ◌*◌, ◌/◌, ◌%◌, ◌^◌, ◌<◌, ◌≤◌, true, false, not, ◌&&◌, ◌≡◌, ◌⊎◌, sym, ◌∙◌, ap, ap₂,
  arith, if◌then◌else◌, ltb, dec_lt,
}
use kos_hspabla.Prelude.Bits.{pow_pos, bit_and_low}
use kos_hspabla.Prelude.Testbit.{testbit, testbit-bit_and, testbit-bit_or}
use kos_hspabla.Prelude.Shift.{testbit-div, testbit-mul, testbit-mod, eq_of_testbit}
use kos_hspabla.Basics.{mword_mod, not_mword}
use kos_hspabla.Bitmanip.{shl, shr, bitmask, bitmask_at, put, get, excl}
use kos_hspabla.Basics.Align.{pow-le-mword}
use kos_hspabla.Bitmanip.Words.{bitmask-eq, testbit-not_mword, testbit-bitmask}

testbit-shl :
    (x n j : ℕ) → j < 64 → testbit (shl x n) j ≡ (if ltb j n then false else testbit x (j - n))
testbit-shl x n j h =
    testbit-mod 64 (x * 2 ^ n) j
    ∙ ap (λ b. b && testbit (x * 2 ^ n) j) {y = true} (ground arith)
    ∙ testbit-mul n x j

-- `excl` of the old word, with the new value put into the field
abbrev pub assign : ℕ → ℕ → ℕ → ℕ → ℕ
assign p w f v = bit_or (excl p w f) (put p w v)

module _ (p w : ℕ) (fits : p + w ≤ 64) where
  testbit-get : (f j : ℕ) → testbit (get p w f) j ≡ (testbit f (p + j) && ltb j w)
  unfolding get
  testbit-get f j =
      testbit-bit_and (shr f p) (bitmask w) j
      ∙ ap₂ ◌&&◌ (testbit-div p f j) (testbit-bitmask w j (omega arith))

  testbit-put :
      (v j : ℕ)
      → j < 64
      → testbit (put p w v) j ≡ (if ltb j p then false else testbit v (j - p) && ltb (j - p) w)
  unfolding put
  testbit-put v j h =
      testbit-shl (bit_and v (bitmask w)) p j h
      ∙ ap (λ b. if ltb j p then false else b)
          (testbit-bit_and v (bitmask w) (j - p)
            ∙ ap (λ b. testbit v (j - p) && b) (testbit-bitmask w (j - p) (omega arith)))

  testbit-excl :
      (f j : ℕ)
      → j < 64
      → testbit (excl p w f) j ≡ (testbit f j && not (if ltb j p then false else ltb (j - p) w))
  unfolding excl bitmask_at
  testbit-excl f j h =
      testbit-bit_and f (not_mword (bitmask_at p w)) j
      ∙ ap (λ b. testbit f j && b)
          (testbit-not_mword (bitmask_at p w) j (omega arith) h
            ∙ ap not (
                testbit-shl (bitmask w) p j h
                ∙ ap (λ b. if ltb j p then false else b) (testbit-bitmask w (j - p) (omega arith))))

  testbit-assign :
      (f v j : ℕ)
      → j < 64
      → testbit (assign p w f v) j ≡ (
          if ltb j p then testbit f j else if ltb (j - p) w then testbit v (j - p) else testbit f j)
  testbit-assign f v j h =
      ground
        (arith, testbit-bit_or (excl p w f) (put p w v) j, testbit-excl f j h, testbit-put v j h)

  -- Reading a field is a division and a remainder.
  get-eq : (f : ℕ) → get p w f ≡ f / 2 ^ p % 2 ^ w
  unfolding get
  get-eq f = ap (bit_and (shr f p)) (bitmask-eq w (omega arith)) ∙ bit_and_low w (shr f p)

  mod-lt-mword : (x : ℕ) → x % 2 ^ w < mword_mod
  mod-lt-mword x = omega (arith, mod-lt x (pow_pos w), pow-le-mword w (omega arith))

  get-lt : (f : ℕ) → get p w f < mword_mod
  get-lt f = omega (arith, get-eq f, mod-lt-mword (f / 2 ^ p))

  -- For a field at p of width w with p + w ≤ 64, `get` of the word made of `excl` of an old word
  -- and `put` of a value is the value modulo 2 ^ w.
  pub get-assign : (f v : ℕ) → get p w (assign p w f v) ≡ v % 2 ^ w
  get-assign f v =
      eq_of_testbit 64 (get p w (assign p w f v)) (v % 2 ^ w) (get-lt (assign p w f v))
        (mod-lt-mword v)
        λ i hi. testbit-get (assign p w f v) i ∙ inside i (dec_lt i w) ∙ sym (testbit-mod w v i)
    where
      inside :
          (i : ℕ)
          → Dec (i < w)
          → (testbit (assign p w f v) (p + i) && ltb i w) ≡ (ltb i w && testbit v i)
      inside i (yes lt) =
          let place : p + i - p ≡ i = omega arith in
          ground (arith, testbit-assign f v (p + i) (omega arith), ap (testbit v) place)
      inside i (no ge) = ground arith

-- For two fields that lie within 64 bits and do not overlap, replacing the one by `excl` and
-- `put` does not change what `get` reads of the other.
pub get-assign_ne :
    (p w q u f v : ℕ)
    → p + w ≤ 64
    → q + u ≤ 64
    → (q + u ≤ p) ⊎ (p + w ≤ q)
    → get q u (assign p w f v) ≡ get q u f
get-assign_ne p w q u f v fp fq apart =
    eq_of_testbit 64 (get q u (assign p w f v)) (get q u f) (get-lt q u fq (assign p w f v))
      (get-lt q u fq f)
      λ i hi.
        testbit-get q u fq (assign p w f v) i
        ∙ outside i (dec_lt i u)
        ∙ sym (testbit-get q u fq f i)
  where
    outside :
        (i : ℕ)
        → Dec (i < u)
        → (testbit (assign p w f v) (q + i) && ltb i u) ≡ (testbit f (q + i) && ltb i u)
    outside i (yes lt) = ground (arith, testbit-assign p w fp f v (q + i) (omega arith))
    outside i (no ge) = ground arith
