-- ===== src/Hierarchy/Find.antt =====
-- `find` of `class HierarchicalBitmap` in src/generic/Bitmap.h: up until a map has a bit at or after
-- the start, then down to the bottom level.
use native.Mathlib.Nat.{le-div_iff_mul-le}
use kos_hspabla.Prelude.{
  ℕ, suc, ◌+◌, ◌*◌, ◌/◌, ◌%◌, ◌<◌, ◌≤◌, true, false, ◌≡◌, ◌≢◌, sym, ◌∙◌, ap, ap₂, arith, Bool-cases,
  inl, inr,
}
use kos_hspabla.Prelude.Search.{IsFirst, IsFirst-unique}
use kos_hspabla.Basics.{mword_mod}
use kos_hspabla.Bitmanip.Round.{IsWords, bit_at}
use kos_hspabla.Bitmanip.Multiscan.{multiscan-IsFirst}
use kos_hspabla.Bitmap
use kos_hspabla.Bitmap.{Bitmap}
use kos_hspabla.Hierarchy.{Hierarchy, map_bits}
use kos_hspabla.Hierarchy.Invariant.{
  above, Fits, above_mono, bit, IsLinked, position, split_position,
}
use kos_hspabla.Hierarchy.Levels.{above-add, lt_of_above-lt, bit_above, bit_below}

module _ (n L : ℕ) (pos : 0 < n) (small : map_bits n < mword_mod) where
  -- What `find` of one map answers.
  pub find-IsFirst :
      (m : Bitmap) (ridx : ℕ)
      → IsWords m
      → ridx < map_bits n
      → IsFirst (bit_at m) ridx (map_bits n) (Bitmap.find n m true ridx)
  unfolding Bitmap.find
  find-IsFirst m ridx h lt = multiscan-IsFirst n true m ridx h small lt

  -- `p` is the first set position of the bottom level that is not below `st` of level `l`.
  pub record Target (h : Hierarchy) (l st p : ℕ) : Type 0 where
    pub in_range : Fits (map_bits n) L p
    pub not_below : st ≤ above (map_bits n) l p
    pub on : bit n h 0 p ≡ true
    pub first : (j : ℕ) → j < p → bit n h 0 j ≡ true → above (map_bits n) l j < st

  module _ {h : Hierarchy} (v : IsLinked n L h) (p : ℕ) (word : p < mword_mod) where
    -- Every position of level `l` between the start and the target's is clear, the target's is set.
    pub Target-clear :
        (l k st j : ℕ)
        → l + suc k ≡ L
        → Target h l st p
        → st ≤ j
        → j < above (map_bits n) l p
        → bit n h l j ≡ false
    Target-clear l k st j range t lo hi = elim (Bool-cases (bit n h l j)) [
      | inr e ↦ e
      | inl e ↦
          let top : above (map_bits n) (suc k) (above (map_bits n) l p) ≡ 0 =
            above-add (map_bits n) (suc k) l p
            ∙ ap (λ m. above (map_bits n) m p) range
            ∙ t.in_range in
          let (i, up, found) =
            bit_below n L pos v l (suc k) j range (omega arith)
              (omega (
                arith,
                above_mono (map_bits n) (suc k) j (above (map_bits n) l p) (omega arith),
                top,
              ))
              e in
          absurd (
            omega
              (arith, up, t.first i (lt_of_above-lt (map_bits n) l i p (omega (arith, up))) found))
    ]

    abbrev pub q_at : ℕ → ℕ
    q_at l = above (map_bits n) l p

    here_clear :
        (l k st sidx j : ℕ)
        → l + suc k ≡ L
        → Target h l st p
        → j < map_bits n
        → st ≤ sidx * map_bits n + j
        → sidx * map_bits n + j < q_at l
        → bit_at (h l sidx) j ≡ false
    here_clear l k st sidx j range t lt lo hi =
        let (q, r) = split_position (map_bits n) sidx j lt in
        sym (ap₂ (λ (a c : ℕ). bit_at (h l a) c) q r)
        ∙ Target-clear l k st (sidx * map_bits n + j) range t lo hi

    pub whole :
        (l : ℕ)
        → (q_at l / map_bits n * map_bits n + q_at l % map_bits n ≡ q_at l)
          × (q_at l % map_bits n < map_bits n)
    whole l = position (map_bits n) (q_at l) (omega arith)

    -- The target in its map.
    pub in_map :
        (l sidx : ℕ) → q_at l / map_bits n ≡ sidx → sidx * map_bits n + q_at l % map_bits n ≡ q_at l
    in_map l sidx same = ap (λ s. s * map_bits n + q_at l % map_bits n) (sym same) ∙ (whole l).0

    -- The map that the search stands in holds the target: its `find` hits it.
    pub find_hit :
        (l k sidx ridx : ℕ)
        → l + suc k ≡ L
        → ridx < map_bits n
        → Target h l (sidx * map_bits n + ridx) p
        → q_at l / map_bits n ≡ sidx
        → Bitmap.find n (h l sidx) true ridx ≡ q_at l % map_bits n
    find_hit l k sidx ridx range rlt t same =
        IsFirst-unique (find-IsFirst (h l sidx) ridx (v.words l sidx) rlt) (record {
          above = omega (arith, t.not_below, in_map l sidx same);
          below = omega (arith, (whole l).1);
          skipped = λ j a b.
              here_clear l k (sidx * map_bits n + ridx) sidx j range t (omega (arith, (whole l).1))
                (omega arith) (omega (arith, in_map l sidx same));
          found = λ _.
              ap (λ a. bit_at (h l a) (q_at l % map_bits n)) (sym same)
              ∙ bit_above n L pos v l k p range t.in_range t.on;
        })

    pub later_map :
        (l sidx ridx : ℕ)
        → sidx * map_bits n + ridx ≤ q_at l
        → q_at l / map_bits n ≢ sidx
        → (suc sidx ≤ q_at l / map_bits n) × (suc sidx * map_bits n ≤ q_at l)
    later_map l sidx ridx le other =
        let from : sidx ≤ q_at l / map_bits n =
          (le-div_iff_mul-le {k = map_bits n} {x = sidx} {y = q_at l} (omega arith)).1
            (omega arith) in
        let next : suc sidx ≤ q_at l / map_bits n =
          omega (arith, apart (q_at l / map_bits n) sidx other) in
        (
          next,
          (le-div_iff_mul-le {k = map_bits n} {x = suc sidx} {y = q_at l} (omega arith)).0 next,
        )
      where
        apart : (a c : ℕ) → a ≢ c → c ≤ a → suc c ≤ a
        apart a c ne le' = omega arith

    -- The target is in a later map: this one has no bit from `ridx` on.
    pub find_miss :
        (l k sidx ridx : ℕ)
        → l + suc k ≡ L
        → ridx < map_bits n
        → Target h l (sidx * map_bits n + ridx) p
        → q_at l / map_bits n ≢ sidx
        → Bitmap.find n (h l sidx) true ridx ≡ map_bits n
    find_miss l k sidx ridx range rlt t other =
        IsFirst-unique (find-IsFirst (h l sidx) ridx (v.words l sidx) rlt) (record {
          above = omega arith;
          below = omega arith;
          skipped = λ j a b.
              here_clear l k (sidx * map_bits n + ridx) sidx j range t b (omega arith)
                (omega (arith, (later_map l sidx ridx t.not_below other).1));
          found = λ lt. absurd (omega arith);
        })
