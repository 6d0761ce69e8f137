-- ===== src/Bitmanip/Reverse.antt =====
-- multiscan_rev of src/generic/bitmanip.h: the last wanted position, and what it answers where
-- there is none.
use Prim.Native.Nat.{bit_and}
use mathlib.Core.Path.{subst}
use mathlib.Core.Bool.{false≢true}
use kos_hspabla.Prelude.{
  ℕ, zero, suc, ◌+◌, ◌-◌, ◌*◌, ◌<◌, ◌≤◌, Bool, true, false, ◌≡◌, ◌≢◌, refl, sym, ◌∙◌, ap, ap₂,
  arith, ◌==◌, if◌then◌else◌, dec_lt, ℕ_discrete,
}
use kos_hspabla.Prelude.Bits.{bit_and-zero}
use kos_hspabla.Prelude.Testbit.{testbit, zero-testbit}
use kos_hspabla.Prelude.Search.{IsLast, find_down, find_down-IsLast}
use kos_hspabla.Basics.{mword_mod, not_mword, limit, add_mword}
use kos_hspabla.Bitmanip.{
  word_bits, ctz, Scan, datafield, scan_word_rev, scan_words_rev, multiscan_rev,
}
use kos_hspabla.Bitmanip.Round.{
  IsWords, wanted, datafield-lt, testbit-datafield, keep_all, ctz-lt, ctz-IsFirst,
}

-- What is known of [base, hi) before the word that ends at `base`.
data Scanned (p : ℕ → Bool) (hi base : ℕ) (s : Scan) : Type 0 where
  waiting :
      ((j : ℕ) → base ≤ j → j < hi → p j ≡ false)
      → s.mask ≡ limit
      → s.result ≡ 0
      → Scanned p hi base s
  settled :
      (r : ℕ) → IsLast p hi r → base ≤ r → s.mask ≡ 0 → s.result + base ≡ r → Scanned p hi base s

-- A word that is not zero has a last bit.
IsLast-bit :
    (field : ℕ)
    → field < mword_mod
    → field ≢ 0
    → IsLast (testbit field) 64 (find_down (testbit field) 64)
IsLast-bit field h ne =
    let lt = ctz-lt field h ne in
    find_down-IsLast (testbit field) 64 (ctz field) lt ((ctz-IsFirst field).found lt)

module _ (p : ℕ → Bool) (hi base field : ℕ) (s : Scan) (small : hi < mword_mod)
    (word : field < mword_mod) (fits : base + 64 ≤ hi)
    (bits : (j : ℕ) → j < 64 → testbit field j ≡ p (base + j)) where
  abbrev scan : ℕ
  scan = if field == 0 then 0 else find_down (testbit field) word_bits

  old_part :
      (j : ℕ)
      → ((i : ℕ) → base + 64 ≤ i → i < hi → p i ≡ false)
      → ((i : ℕ) → i < 64 → base + i ≡ j → testbit field i ≡ false)
      → base ≤ j
      → j < hi
      → p j ≡ false
  old_part j old new a b = elim (dec_lt j (base + 64)) [
    | yes q ↦
        let place : base + (j - base) ≡ j = omega arith in
        subst (λ i. p i ≡ false) place
          (sym (bits (j - base) (omega arith)) ∙ new (j - base) (omega arith) place)
    | no q ↦ old j (omega arith) b
  ]

  -- While the mask is up, a round adds just what bsr and the first cmov leave.
  added :
      (x : ℕ)
      → x ≤ 64
      → s.mask ≡ limit
      → s.result ≡ 0
      → scan ≡ x
      → add_mword s.result (add_mword (bit_and scan s.mask) (bit_and word_bits (not_mword s.mask)))
        ≡ x
  added x small_x up e here =
      omega (
        arith,
        ap₂ bit_and here up,
        keep_all x small_x,
        ap (λ (m : ℕ). bit_and 64 (not_mword m)) up,
      )

  scan_word_rev-Scanned : Scanned p hi (base + 64) s → Scanned p hi base (scan_word_rev field s)
  unfolding scan_word_rev
  scan_word_rev-Scanned (settled r last above down e) =
      settled r last (omega arith) (ground arith) (
        omega (
          arith,
          last.below,
          ap (bit_and scan) down,
          bit_and-zero scan,
          ap (λ (m : ℕ). bit_and 64 (not_mword m)) down,
        ))
  scan_word_rev-Scanned (waiting none_yet up e) = elim (ℕ_discrete field 0) [
    | yes empty ↦
        waiting
          (λ j a b.
            old_part j none_yet (λ i hi' q. ap (λ n. testbit n i) empty ∙ zero-testbit i) a b)
          (ground arith) (added 0 (omega arith) up e (ground arith))
    | no ne ↦
        let last = IsLast-bit field word ne in
        settled (base + find_down (testbit field) 64)
          (record {
            below = omega (arith, last.below);
            found = sym (bits _ last.below) ∙ last.found;
            skipped = λ j a b.
                old_part j none_yet (λ i hi' q. last.skipped i (omega arith) hi') (omega arith) b;
          })
          (omega arith) (ground arith)
          (omega (
            arith,
            added (find_down (testbit field) 64) (omega (arith, last.below)) up e (ground arith),
          ))
  ]

scan_words_rev-Scanned :
    (f : Bool) {bits : ℕ → ℕ} (n i : ℕ) (s : Scan)
    → IsWords bits
    → n * 64 < mword_mod
    → i ≤ n
    → Scanned (wanted f bits) (n * 64) (i * 64) s
    → Scanned (wanted f bits) (n * 64) 0 (scan_words_rev f bits i s)
unfolding scan_words_rev
scan_words_rev-Scanned f {bits} n zero s h small le v = v
scan_words_rev-Scanned f {bits} n (suc i) s h small le v =
    scan_words_rev-Scanned f n i (scan_word_rev (datafield f bits i) s) h small (omega arith) (
      scan_word_rev-Scanned (wanted f bits) (n * 64) (i * 64) (datafield f bits i) s small
        (datafield-lt f i h) (omega arith) (λ j hj. testbit-datafield f i j h hj)
        (subst (λ b. Scanned (wanted f bits) (n * 64) b s) (omega arith) v))

multiscan_rev-Scanned :
    (n : ℕ) (f : Bool) (bits : ℕ → ℕ)
    → IsWords bits
    → n * 64 < mword_mod
    → (t : Scan) × (multiscan_rev n f bits ≡ t.result) × Scanned (wanted f bits) (n * 64) 0 t
unfolding multiscan_rev
multiscan_rev-Scanned n f bits h small = (
  _,
  refl,
  scan_words_rev-Scanned f n n (record { result = 0; mask = limit }) h small (omega arith)
      (waiting (λ j a b. absurd (omega arith)) refl refl),
)

-- For an array of words and N with 64 N < 2 ^ 64, if some position below 64 N has a bit equal to
-- `findset`, `multiscan_rev` returns the last such position.
pub multiscan_rev-IsLast :
    (n : ℕ) (f : Bool) (bits : ℕ → ℕ) (j : ℕ)
    → IsWords bits
    → n * 64 < mword_mod
    → j < n * 64
    → wanted f bits j ≡ true
    → IsLast (wanted f bits) (n * 64) (multiscan_rev n f bits)
multiscan_rev-IsLast n f bits j h small inside hit =
    let (t, e, v) = multiscan_rev-Scanned n f bits h small in
    subst (IsLast (wanted f bits) (n * 64)) (sym e) (last t v)
  where
    last :
        (t : Scan) → Scanned (wanted f bits) (n * 64) 0 t → IsLast (wanted f bits) (n * 64) t.result
    last t (waiting clear up e) = absurd (false≢true (sym (clear j (omega arith) inside) ∙ hit))
    last t (settled r l above down e) = subst (IsLast (wanted f bits) (n * 64)) (omega arith) l

-- For an array of words and N with 64 N < 2 ^ 64, if no position below 64 N has a bit equal to
-- `findset`, `multiscan_rev` returns 0, not 64 N.
pub multiscan_rev-none :
    (n : ℕ) (f : Bool) (bits : ℕ → ℕ)
    → IsWords bits
    → n * 64 < mword_mod
    → ((j : ℕ) → j < n * 64 → wanted f bits j ≡ false)
    → multiscan_rev n f bits ≡ 0
multiscan_rev-none n f bits h small clear =
    let (t, e, v) = multiscan_rev-Scanned n f bits h small in e ∙ none_found t v
  where
    none_found : (t : Scan) → Scanned (wanted f bits) (n * 64) 0 t → t.result ≡ 0
    none_found t (waiting _ up e) = e
    none_found t (settled r l above down e) = absurd (false≢true (sym (clear r l.below) ∙ l.found))
