-- ===== src/Hierarchy/Search.antt =====
-- The searches of `class HierarchicalBitmap` in src/generic/Bitmap.h return, and what they return.
use mathlib.Core.Bool.{false≢true}
use kos_hspabla.Prelude.{
  ℕ, suc, ◌+◌, ◌-◌, ◌*◌, ◌/◌, ◌%◌, ◌<◌, true, false, ◌==◌, ◌≡◌, refl, sym, ◌∙◌, ap, ap₂, arith,
  dec_lt, Bool-cases, inl, inr, some,
}
use kos_hspabla.Prelude.Search.{IsFirst-unique}
use kos_hspabla.Basics.{mword_mod, add_mword, limit}
use kos_hspabla.Bitmap
use kos_hspabla.Hierarchy
use kos_hspabla.Hierarchy.{Hierarchy, map_bits}
use kos_hspabla.Bitmanip.Round.{bit_at}
use kos_hspabla.Hierarchy.Invariant.{above, Fits, bit, IsLinked, position}
use kos_hspabla.Hierarchy.Levels.{above-suc, bit_below}
use kos_hspabla.Hierarchy.Find.{find-IsFirst}
use kos_hspabla.Hierarchy.Climb.{miss_step, find_up_to}

module _ (n L : ℕ) (pos : 0 < n) (small : map_bits n < mword_mod) where
  -- In a linked hierarchy of L > 0 levels of maps of n > 0 words with 64 n < 2 ^ 64, for indices
  -- idx < p such that p is below 2 ^ 64, in range and set and no index between them is set,
  -- `find` from idx returns p: it ends within the fuel, having climbed and descended the levels
  -- as needed.
  pub find_after-first :
      {h : Hierarchy} (idx p : ℕ)
      → IsLinked n L h
      → 0 < L
      → idx < p
      → p < mword_mod
      → Fits (map_bits n) L p
      → bit n h 0 p ≡ true
      → ((j : ℕ) → idx < j → j < p → bit n h 0 j ≡ false)
      → Hierarchy.find_after n L h idx true ≡ some p
  unfolding Hierarchy.find_after
  find_after-first {h} idx p v levels lt word fits on clear =
      let next : add_mword idx 1 ≡ suc idx = omega arith in
      let start : suc idx / map_bits n * map_bits n + suc idx % map_bits n ≡ suc idx =
        (position (map_bits n) (suc idx) (omega arith)).0 in
      rw next (
        find_up_to n L pos small v p word (L - 1) 0 (L + L + 1) (suc idx / map_bits n)
          (suc idx % map_bits n) (omega arith) (omega arith)
          (position (map_bits n) (suc idx) (omega arith)).1
          (record {
            in_range = fits;
            not_below = omega (arith, start);
            on = on;
            first = λ j a b. omega (arith, start, before j a b);
          }))
    where
      before : (j : ℕ) → j < p → bit n h 0 j ≡ true → j < suc idx
      before j a b = elim (dec_lt idx j) [
        | yes later ↦ absurd (false≢true (sym (clear j later a) ∙ b))
        | no ge ↦ omega arith
      ]

  -- In a linked hierarchy of L > 0 levels of maps of n > 0 words with 64 n < 2 ^ 64, if p is
  -- below 2 ^ 64, in range and set and no smaller index is set, `find` from the top level returns
  -- p.
  pub find-first :
      {h : Hierarchy} (p : ℕ)
      → IsLinked n L h
      → 0 < L
      → p < mword_mod
      → Fits (map_bits n) L p
      → bit n h 0 p ≡ true
      → ((j : ℕ) → j < p → bit n h 0 j ≡ false)
      → Hierarchy.find n L h true ≡ some p
  unfolding Hierarchy.find
  find-first p v levels word fits on clear =
      find_up_to n L pos small v p word 0 (L - 1) (L + L + 1) 0 0 (omega arith) (omega arith)
        (omega arith)
        (record {
          in_range = fits;
          not_below = omega arith;
          on = on;
          first = λ j a b. absurd (false≢true (sym (clear j a) ∙ b));
        })

  alone : (b j : ℕ) → j < b → (j / b ≡ 0) × (j % b ≡ j)
  alone b j lt = (grind arith, grind arith)

  at_top :
      (f : ℕ) (h : Hierarchy) (sidx ridx : ℕ)
      → Hierarchy.find_from n L (suc f) h true sidx ridx L ≡ some limit
  unfolding Hierarchy.find_from
  at_top f h sidx ridx = let level : (L == L) ≡ true = ground arith in rw level refl

  -- In a linked hierarchy of L > 0 levels of maps of n > 0 words with 64 n < 2 ^ 64, if no index
  -- in range is set, `find` from the top level returns `limit`.
  pub find-none :
      {h : Hierarchy}
      → IsLinked n L h
      → 0 < L
      → ((j : ℕ) → Fits (map_bits n) L j → bit n h 0 j ≡ false)
      → Hierarchy.find n L h true ≡ some limit
  unfolding Hierarchy.find
  find-none {h} v levels clear =
      let fuel : L + L + 1 ≡ suc (suc (L + L - 1)) = omega arith in
      let top : suc (L - 1) ≡ L = omega arith in
      ap (λ f. Hierarchy.find_from n L f h true 0 0 (L - 1)) fuel
      ∙ miss_step n L pos small (suc (L + L - 1)) h 0 0 (L - 1) (omega arith) (omega arith) miss
      ∙ ap (Hierarchy.find_from n L (suc (L + L - 1)) h true (1 / map_bits n) (1 % map_bits n)) top
      ∙ at_top (L + L - 1) h (1 / map_bits n) (1 % map_bits n)
    where
      clear_top : (j : ℕ) → j < map_bits n → bit_at (h (L - 1) 0) j ≡ false
      clear_top j lt = elim (Bool-cases (bit_at (h (L - 1) 0) j)) [
        | inr e ↦ e
        | inl e ↦
            let place = alone (map_bits n) j lt in
            let (i, up, found) =
              bit_below n L pos v (L - 1) 1 j (omega arith) (omega arith) place.0
                (ap₂ (λ (a c : ℕ). bit_at (h (L - 1) a) c) place.0 place.1 ∙ e) in
            let fits : Fits (map_bits n) L i =
              (let whole_way : L ≡ suc (L - 1) = omega arith in
                ap (λ m. above (map_bits n) m i) whole_way)
              ∙ above-suc (map_bits n) (L - 1) i
              ∙ ap (λ a. a / map_bits n) up
              ∙ place.0 in
            absurd (false≢true (sym (clear i fits) ∙ found))
      ]

      miss : Bitmap.find n (h (L - 1) 0) true 0 ≡ map_bits n
      miss =
          IsFirst-unique
            (find-IsFirst n L pos small (h (L - 1) 0) 0 (v.words (L - 1) 0) (omega arith))
            (record {
              above = omega arith;
              below = omega arith;
              skipped = λ j a b. clear_top j b;
              found = λ lt. absurd (omega arith);
            })
