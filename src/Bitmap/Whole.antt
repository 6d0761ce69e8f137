-- ===== src/Bitmap/Whole.antt =====
-- The members of `class Bitmap` of src/generic/Bitmap.h that look at, or write, the whole map.
use Prim.Native.Nat.{bit_and, bit_or}
use kos_hspabla.Prelude.{
  ℕ, zero, suc, ◌+◌, ◌-◌, ◌*◌, ◌/◌, ◌%◌, ◌<◌, Bool, true, false, not, ◌≡◌, ◌↔◌, refl, sym, ◌∙◌, ap,
  ap₂, arith, if◌then◌else◌, ltb, ℕ_discrete, ==_iff,
}
use kos_hspabla.Prelude.Testbit.{
  testbit, zero-testbit, eq-zero_of_testbit, le-bit_or, bit_and-le, bit_and-le_right, bit_or-lt,
}
use kos_hspabla.Basics.{mword_mod, limit, not_mword}
use kos_hspabla.Bitmanip.Words.{testbit-not_mword}
use kos_hspabla.Bitmanip.Round.{IsWords, bit_at}
use kos_hspabla.Bitmap.{
  Bitmap, empty_helper, full_helper, fill, flip, set_b, clr_b, flp_b, empty, full,
}

-- A word is zero when it has no bit, and all ones when it has every bit.
word-zero : (w : ℕ) → w < mword_mod → (w ≡ 0) ↔ ((i : ℕ) → i < 64 → testbit w i ≡ false)
word-zero w h = (λ e i hi. ap (λ v. testbit v i) e ∙ zero-testbit i, eq-zero_of_testbit 64 w h)

word-limit : (w : ℕ) → w < mword_mod → (w ≡ limit) ↔ ((i : ℕ) → i < 64 → testbit w i ≡ true)
word-limit w h = (ones, all_ones)
  where
    flip_of : (b c : Bool) → b ≡ not c → b ≡ false → c ≡ true
    flip_of b true e q = refl
    flip_of b false e q = sym q ∙ e

    not_of : (b c : Bool) → b ≡ not c → c ≡ true → b ≡ false
    not_of b c e q = e ∙ ap not q

    ones : w ≡ limit → (i : ℕ) → i < 64 → testbit w i ≡ true
    ones e i hi =
        flip_of (testbit (not_mword w) i) (testbit w i) (testbit-not_mword w i h hi)
          ((word-zero (not_mword w) (omega arith)).0 (omega arith) i hi)

    all_ones : ((i : ℕ) → i < 64 → testbit w i ≡ true) → w ≡ limit
    all_ones on =
        let none_left : not_mword w ≡ 0 = (word-zero (not_mword w) (omega arith)).1 (λ i hi.
          not_of (testbit (not_mword w) i) (testbit w i) (testbit-not_mword w i h hi) (on i hi)) in
        omega arith

-- A property of every bit is a property of every word.
bits_of_words :
    (n : ℕ) (bits : Bitmap) (v : Bool)
    → ((i : ℕ) → i < n → (k : ℕ) → k < 64 → testbit (bits i) k ≡ v)
    → (j : ℕ) → j < n * 64
    → bit_at bits j ≡ v
bits_of_words n bits v h j hj = h (j / 64) (omega arith) (j % 64) (omega arith)

words_of_bits :
    (n : ℕ) (bits : Bitmap) (v : Bool)
    → ((j : ℕ) → j < n * 64 → bit_at bits j ≡ v)
    → (i : ℕ) → i < n
    → (k : ℕ) → k < 64
    → testbit (bits i) k ≡ v
words_of_bits n bits v h i hi k hk =
    let word : (i * 64 + k) / 64 ≡ i = omega arith in
    let place : (i * 64 + k) % 64 ≡ k = omega arith in
    ap₂ (λ (a b : ℕ). testbit (bits a) b) (sym word) (sym place) ∙ h (i * 64 + k) (omega arith)

empty_helper-lt : (x : ℕ) (bits : Bitmap) → IsWords bits → empty_helper x bits < mword_mod
unfolding empty_helper
empty_helper-lt zero bits h = h 0
empty_helper-lt (suc x) bits h =
    bit_or-lt 64 (bits (suc x)) (empty_helper x bits) (h (suc x)) (empty_helper-lt x bits h)

empty_helper-zero :
    (x : ℕ) (bits : Bitmap)
    → IsWords bits
    → (empty_helper x bits ≡ 0) ↔ ((i : ℕ) → i < suc x → bits i ≡ 0)
unfolding empty_helper
empty_helper-zero zero bits h =
    (λ e i hi. ap bits {y = 0} (omega arith) ∙ e, λ all. all 0 (omega arith))
empty_helper-zero (suc x) bits h = (
  λ e i hi.
      let parts =
        le-bit_or 64 (bits (suc x)) (empty_helper x bits) (h (suc x)) (empty_helper-lt x bits h) in
      elim (ℕ_discrete i (suc x)) [
        | yes top ↦ ap bits top ∙ omega (arith, parts.0)
        | no low ↦ (empty_helper-zero x bits h).0 (omega (arith, parts.1)) i (omega arith)
      ],
  λ all.
      ap₂ bit_or (all (suc x) (omega arith))
        ((empty_helper-zero x bits h).1 (λ i hi. all i (omega arith))),
)

full_helper-lt : (x : ℕ) (bits : Bitmap) → IsWords bits → full_helper x bits < mword_mod
unfolding full_helper
full_helper-lt zero bits h = h 0
full_helper-lt (suc x) bits h =
    omega (arith, bit_and-le (bits (suc x)) (full_helper x bits), h (suc x))

full_helper-limit :
    (x : ℕ) (bits : Bitmap)
    → IsWords bits
    → (full_helper x bits ≡ limit) ↔ ((i : ℕ) → i < suc x → bits i ≡ limit)
unfolding full_helper
full_helper-limit zero bits h =
    (λ e i hi. ap bits {y = 0} (omega arith) ∙ e, λ all. all 0 (omega arith))
full_helper-limit (suc x) bits h = (
  λ e i hi. elim (ℕ_discrete i (suc x)) [
    | yes top ↦
        ap bits top ∙ omega (arith, h (suc x), bit_and-le (bits (suc x)) (full_helper x bits))
    | no low ↦
        (full_helper-limit x bits h).0
          (omega (
            arith,
            full_helper-lt x bits h,
            bit_and-le_right 64 (bits (suc x)) (full_helper x bits) (h (suc x)),
          ))
          i (omega arith)
  ],
  λ all.
      ap₂ bit_and (all (suc x) (omega arith))
        ((full_helper-limit x bits h).1 (λ i hi. all i (omega arith))),
)

-- For a map of n > 0 words, `empty` is true exactly if every bit is clear, and `full` exactly if
-- every bit is set.
pub empty_iff :
    (n : ℕ) (bits : Bitmap)
    → 0 < n
    → IsWords bits
    → ((empty n bits ≡ true) ↔ ((j : ℕ) → j < n * 64 → bit_at bits j ≡ false))
      × ((full n bits ≡ true) ↔ ((j : ℕ) → j < n * 64 → bit_at bits j ≡ true))
unfolding empty full
empty_iff zero bits pos h = absurd (omega arith)
empty_iff (suc x) bits pos h = ((empty_on, empty_off), (full_on, full_off))
  where
    last : suc x - 1 ≡ x
    last = omega arith

    empty_on : empty (suc x) bits ≡ true → (j : ℕ) → j < suc x * 64 → bit_at bits j ≡ false
    empty_on e = bits_of_words (suc x) bits false λ i hi. (word-zero (bits i) (h i)).0 (
        (empty_helper-zero x bits h).0 (ap (λ n. empty_helper n bits) (sym last) ∙ (==_iff _ 0).0 e)
          i hi)

    empty_off : ((j : ℕ) → j < suc x * 64 → bit_at bits j ≡ false) → empty (suc x) bits ≡ true
    empty_off all = (==_iff _ 0).1 (
        ap (λ n. empty_helper n bits) last
        ∙ (empty_helper-zero x bits h).1
            λ i hi. (word-zero (bits i) (h i)).1 (words_of_bits (suc x) bits false all i hi))

    full_on : full (suc x) bits ≡ true → (j : ℕ) → j < suc x * 64 → bit_at bits j ≡ true
    full_on e = bits_of_words (suc x) bits true λ i hi. (word-limit (bits i) (h i)).0 (
        (full_helper-limit x bits h).0
          (ap (λ n. full_helper n bits) (sym last) ∙ (==_iff _ limit).0 e) i hi)

    full_off : ((j : ℕ) → j < suc x * 64 → bit_at bits j ≡ true) → full (suc x) bits ≡ true
    full_off all = (==_iff _ limit).1 (
        ap (λ n. full_helper n bits) last
        ∙ (full_helper-limit x bits h).1
            λ i hi. (word-limit (bits i) (h i)).1 (words_of_bits (suc x) bits true all i hi))

fill-word : (n v : ℕ) (bits : Bitmap) (i : ℕ) → fill n v bits i ≡ (if ltb i n then v else bits i)
unfolding fill
fill-word zero v bits i = ground arith
fill-word (suc n) v bits i = ground (arith, fill-word n v bits i)

flip-word :
    (n : ℕ) (bits : Bitmap) (i : ℕ)
    → flip n bits i ≡ (if ltb i n then not_mword (bits i) else bits i)
unfolding flip
flip-word zero bits i = ground arith
flip-word (suc n) bits i =
    ground (arith, flip-word n bits i, flip-word n bits n, ap bits {x = i} {y = n})

-- For a map of words, `setB`, `clrB` and `flpB` set, clear and turn over every bit below 64 n and
-- no bit from there on.
pub set_b-clr_b-flp_b :
    (n : ℕ) (bits : Bitmap) (j : ℕ)
    → IsWords bits
    → (bit_at (set_b n bits) j ≡ (if ltb j (n * 64) then true else bit_at bits j))
      × (bit_at (clr_b n bits) j ≡ (if ltb j (n * 64) then false else bit_at bits j))
      × (bit_at (flp_b n bits) j ≡ (if ltb j (n * 64) then not (bit_at bits j) else bit_at bits j))
unfolding set_b clr_b flp_b
set_b-clr_b-flp_b n bits j h = (
  ap (λ w. testbit w (j % 64)) (fill-word n limit bits (j / 64))
      ∙ by_word (ltb (j / 64) n) limit true ones
      ∙ rw same,
  ap (λ w. testbit w (j % 64)) (fill-word n 0 bits (j / 64))
      ∙ by_word (ltb (j / 64) n) 0 false (zero-testbit (j % 64))
      ∙ rw same,
  ap (λ w. testbit w (j % 64)) (flip-word n bits (j / 64))
      ∙ by_word (ltb (j / 64) n) (not_mword (bits (j / 64))) (not (bit_at bits j))
          (testbit-not_mword (bits (j / 64)) (j % 64) (h (j / 64)) (omega arith))
      ∙ rw same,
)
  where
    same : ltb (j / 64) n ≡ ltb j (n * 64)
    same = ground arith

    ones : testbit limit (j % 64) ≡ true
    ones = (word-limit limit (omega arith)).0 refl (j % 64) (omega arith)

    by_word :
        (b : Bool) (w : ℕ) (v : Bool)
        → testbit w (j % 64) ≡ v
        → testbit (if b then w else bits (j / 64)) (j % 64) ≡ (if b then v else bit_at bits j)
    by_word true w v e = e
    by_word false w v e = refl

pub set_b-IsWords : (n : ℕ) {bits : Bitmap} → IsWords bits → IsWords (set_b n bits)
unfolding set_b
set_b-IsWords n {bits} h i = ground (arith, fill-word n limit bits i, h i)

pub clr_b-IsWords : (n : ℕ) {bits : Bitmap} → IsWords bits → IsWords (clr_b n bits)
unfolding clr_b
clr_b-IsWords n {bits} h i = ground (arith, fill-word n 0 bits i, h i)
