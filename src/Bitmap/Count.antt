-- ===== src/Bitmap/Count.antt =====
-- `count` of `class Bitmap` in src/generic/Bitmap.h: the number of set bits.
use kos_hspabla.Prelude.{
  ℕ, zero, suc, ◌+◌, ◌-◌, ◌*◌, ◌/◌, ◌%◌, ◌<◌, ◌≤◌, Bool, true, false, ◌≡◌, ◌≢◌, refl, sym, ◌∙◌, ap,
  ap₂, arith, if◌then◌else◌, ℕ_discrete,
}
use kos_hspabla.Prelude.Testbit.{testbit}
use kos_hspabla.Basics.{mword_mod}
use kos_hspabla.Bitmanip.{popcount, count_up}
use kos_hspabla.Bitmanip.Round.{bit_at}
use kos_hspabla.Bitmap.{Bitmap, count_helper, count, set, clr}
use kos_hspabla.Bitmap.Laws.{bit_at-set, bit_at-clr}

count_up-le : (p : ℕ → Bool) (n : ℕ) → count_up p n ≤ n
unfolding count_up
count_up-le p zero = omega arith
count_up-le p (suc n) = ground (arith, count_up-le p n)

count_up-ext :
    (p q : ℕ → Bool) (n : ℕ) → ((i : ℕ) → i < n → p i ≡ q i) → count_up p n ≡ count_up q n
unfolding count_up
count_up-ext p q zero h = refl
count_up-ext p q (suc n) h =
    ap₂ (λ (b : Bool) (m : ℕ). (if b then 1 else 0) + m) (h n (omega arith))
      (count_up-ext p q n (λ i hi. h i (omega arith)))

count_up-add :
    (p : ℕ → Bool) (a b c : ℕ)
    → a + b ≡ c
    → count_up p c ≡ count_up p a + count_up (λ i. p (a + i)) b
unfolding count_up
count_up-add p a zero c e = ap (count_up p) {y = a} (omega arith) ∙ omega arith
count_up-add p a (suc b) zero e = absurd (omega arith)
count_up-add p a (suc b) (suc c) e =
    let place : c ≡ a + b = omega arith in ground (arith, count_up-add p a b c, ap p place)

-- One more position counts.
count_up-one :
    (p q : ℕ → Bool) (idx n : ℕ)
    → idx < n
    → p idx ≡ false
    → q idx ≡ true
    → ((j : ℕ) → idx ≢ j → q j ≡ p j)
    → count_up q n ≡ count_up p n + 1
unfolding count_up
count_up-one p q idx zero lt off on same = absurd (omega arith)
count_up-one p q idx (suc n) lt off on same = elim (ℕ_discrete idx n) [
  | yes e ↦
      let rest : count_up q n ≡ count_up p n = count_up-ext q p n (λ i hi. same i (omega arith)) in
      ground (arith, rest, ap p e, ap q e)
  | no ne ↦ ground (arith, same n ne, count_up-one p q idx n (omega arith) off on same)
]

popcount-words :
    (bits : Bitmap) (i : ℕ) → popcount (bits i) ≡ count_up (λ k. bit_at bits (i * 64 + k)) 64
unfolding popcount
popcount-words bits i = count_up-ext _ _ 64 λ k hk.
    let word : (i * 64 + k) / 64 ≡ i = omega arith in
    let place : (i * 64 + k) % 64 ≡ k = omega arith in
    ap₂ (λ (a b : ℕ). testbit (bits a) b) (sym word) (sym place)

count_helper-eq :
    (x : ℕ) (bits : Bitmap)
    → suc x * 64 < mword_mod
    → count_helper x bits ≡ count_up (bit_at bits) (suc x * 64)
unfolding count_helper
count_helper-eq zero bits small =
    popcount-words bits 0
    ∙ count_up-ext _ _ 64 (λ k hk. ap (bit_at bits) {x = 0 * 64 + k} {y = k} (omega arith))
count_helper-eq (suc x) bits small = omega (
  arith,
  popcount-words bits (suc x),
  count_helper-eq x bits,
  count_up-add (bit_at bits) (suc x * 64) 64 (suc (suc x) * 64),
  count_up-le (bit_at bits) (suc (suc x) * 64),
)

-- For n > 0 words with 64 n < 2 ^ 64, `count` is the number of positions below 64 n at which the
-- map has a bit.
pub count-eq :
    (n : ℕ) (bits : Bitmap)
    → 0 < n
    → n * 64 < mword_mod
    → count n bits ≡ count_up (bit_at bits) (n * 64)
unfolding count
count-eq zero bits pos small = absurd (omega arith)
count-eq (suc x) bits pos small =
    let last : suc x - 1 ≡ x = omega arith in
    ap (λ n. count_helper n bits) last ∙ count_helper-eq x bits small

-- For 64 n < 2 ^ 64 and an index below 64 n whose bit is clear, `set` adds one to `count`, and
-- `clr` after it takes it away again.
pub count-set-clr :
    (n : ℕ) (bits : Bitmap) (idx : ℕ)
    → n * 64 < mword_mod
    → idx < n * 64
    → bit_at bits idx ≡ false
    → (count n (set bits idx) ≡ count n bits + 1)
      × (count n (clr (set bits idx) idx) ≡ count n bits)
count-set-clr n bits idx small inside off = (
  omega (arith, total bits, total (set bits idx), one_more),
  omega (arith, total bits, total (clr (set bits idx) idx), back),
)
  where
    total : (b : Bitmap) → count n b ≡ count_up (bit_at b) (n * 64)
    total b = count-eq n b (omega arith) small

    one_more : count_up (bit_at (set bits idx)) (n * 64) ≡ count_up (bit_at bits) (n * 64) + 1
    one_more =
        count_up-one (bit_at bits) (bit_at (set bits idx)) idx (n * 64) inside off
          (ground (arith, bit_at-set bits idx idx)) (λ j ne. ground (arith, bit_at-set bits idx j))

    back : count_up (bit_at (clr (set bits idx) idx)) (n * 64) ≡ count_up (bit_at bits) (n * 64)
    back = count_up-ext _ _ (n * 64) λ j hj. ground (
      arith,
      bit_at-clr (set bits idx) idx j,
      bit_at-set bits idx j,
      ap (bit_at bits) {x = idx} {y = j},
    )
