-- ===== src/Hierarchy/Levels.antt =====
-- How the levels of `class HierarchicalBitmap` in src/generic/Bitmap.h relate to the bottom one.
use mathlib.Core.Bool.{false≢true}
use native.Mathlib.Nat.{div-le_self}
use kos_hspabla.Prelude.{
  ℕ, zero, suc, ◌+◌, ◌*◌, ◌/◌, ◌%◌, ◌<◌, ◌≤◌, Bool, true, false, not, ◌≡◌, refl, sym, ◌∙◌, ap, ap₂,
  arith, dec_lt,
}
use kos_hspabla.Prelude.Search.{find_up, find_up-IsFirst}
use kos_hspabla.Bitmanip.Round.{IsWords, bit_at}
use kos_hspabla.Bitmap
use kos_hspabla.Bitmap.{Bitmap}
use kos_hspabla.Bitmap.Whole.{empty_iff}
use kos_hspabla.Hierarchy.{Hierarchy, map_bits}
use kos_hspabla.Hierarchy.Invariant.{
  above, Fits, above_mono, bit, IsLinked, empty-false, position, split_position,
}

pub above-suc : (b k p : ℕ) → above b (suc k) p ≡ above b k p / b
above-suc b zero p = refl
above-suc b (suc k) p = above-suc b k (p / b)

pub above-add : (b k l p : ℕ) → above b k (above b l p) ≡ above b (l + k) p
above-add b k zero p = let rounds : k ≡ 0 + k = omega arith in ap (λ m. above b m p) rounds
above-add b k (suc l) p =
    let rounds : suc l + k ≡ suc (l + k) = omega arith in
    above-add b k l (p / b) ∙ sym (ap (λ m. above b m p) rounds)

pub above-le : (b l p : ℕ) → above b l p ≤ p
above-le b zero p = omega arith
above-le b (suc l) p = omega (arith, above-le b l (p / b), div-le_self p b)

-- What lies above a smaller position is no larger, read backwards.
pub lt_of_above-lt : (b l i j : ℕ) → above b l i < above b l j → i < j
lt_of_above-lt b l i j h = elim (dec_lt i j) [
  | yes lt ↦ lt
  | no ge ↦ absurd (omega (arith, above_mono b l j i (omega arith)))
]

-- A map that is not empty has a bit.
pub some_bit :
    (n : ℕ) (m : Bitmap)
    → 0 < n
    → IsWords m
    → Bitmap.empty n m ≡ false
    → (j : ℕ) × (j < map_bits n) × (bit_at m j ≡ true)
some_bit n m pos h e =
    let first = find_up-IsFirst (bit_at m) (map_bits n) 0 (map_bits n) (omega arith) in
    elim (dec_lt (find_up (bit_at m) (map_bits n) 0) (map_bits n)) [
      | yes lt ↦ (_, lt, first.found lt)
      | no ge ↦ absurd (
          false≢true (
            sym e
            ∙ (empty_iff n m pos h).0.1
                λ j hj. first.skipped j (omega arith) (omega (arith, first.below))))
    ]

module _ (n L : ℕ) (pos : 0 < n) {h : Hierarchy} (v : IsLinked n L h) where
  -- Above a set bit every level has a set bit.
  pub bit_above :
      (l k p : ℕ)
      → l + suc k ≡ L
      → Fits (map_bits n) L p
      → bit n h 0 p ≡ true
      → bit n h l (above (map_bits n) l p) ≡ true
  bit_above zero k p range fits on = on
  bit_above (suc l) k p range fits on =
      let s = above (map_bits n) (suc l) p in
      let below = bit_above l (suc k) p (omega arith) fits on in
      let step = above-suc (map_bits n) l p in
      v.linked l k s range
        (above-add (map_bits n) (suc k) (suc l) p ∙ ap (λ m. above (map_bits n) m p) range ∙ fits)
      ∙ ap not (
          empty-false n (h l s) (above (map_bits n) l p % map_bits n) pos (v.words l s)
            (position (map_bits n) (above (map_bits n) l p) (omega arith)).1
            (ap (λ a. bit_at (h l a) (above (map_bits n) l p % map_bits n)) step ∙ below))

  -- Below a set bit of any level there is a set bit of the bottom level.
  pub bit_below :
      (l k s : ℕ)
      → l + k ≡ L
      → 0 < k
      → Fits (map_bits n) k s
      → bit n h l s ≡ true
      → (j : ℕ) × (above (map_bits n) l j ≡ s) × (bit n h 0 j ≡ true)
  bit_below zero k s range some_level fits on = (s, refl, on)
  bit_below (suc l) zero s range some_level fits on = absurd (omega arith)
  bit_below (suc l) (suc k) s range some_level fits on =
      let (i, lt, hit) =
        some_bit n (h l s) pos (v.words l s)
          (not_false (Bitmap.empty n (h l s)) (sym (v.linked l k s range fits) ∙ on)) in
      let (q, r) = split_position (map_bits n) s i lt in
      let (j, up, found) =
        bit_below l (suc (suc k)) (s * map_bits n + i) (omega arith) (omega arith)
          (ap (above (map_bits n) (suc k)) q ∙ fits)
          (ap₂ (λ (a c : ℕ). bit_at (h l a) c) q r ∙ hit) in
      (j, above-suc (map_bits n) l j ∙ ap (λ a. a / map_bits n) up ∙ q, found)
    where
      not_false : (b : Bool) → not b ≡ true → b ≡ false
      not_false true e = absurd (false≢true e)
      not_false false e = refl
