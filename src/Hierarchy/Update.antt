-- ===== src/Hierarchy/Update.antt =====
-- `set` and `clr` of `class HierarchicalBitmap` in src/generic/Bitmap.h keep the levels linked.
use mathlib.Core.Path.{subst}
use mathlib.Core.Bool.{false≢true}
use kos_hspabla.Prelude.{
  ℕ, zero, suc, ◌+◌, ◌-◌, ◌/◌, ◌%◌, ◌<◌, Bool, true, false, not, ◌==◌, if◌then◌else◌, ◌≡◌, refl,
  sym, ◌∙◌, ap, arith, inl, inr, Bool-cases, some,
}
use kos_hspabla.Bitmanip.Round.{IsWords, bit_at}
use kos_hspabla.Bitmap
use kos_hspabla.Bitmap.{Bitmap}
use kos_hspabla.Bitmap.Laws.{test-eq, bit_at-set, bit_at-clr, set-IsWords, clr-IsWords}
use kos_hspabla.Bitmap.Whole.{empty_iff}
use kos_hspabla.Hierarchy
use kos_hspabla.Hierarchy.{Hierarchy, map_bits, put_map}
use kos_hspabla.Hierarchy.Link.{
  the_map, LinkedBut, Wrote, Child, others₁, extend, stay, LinkedBut-of_IsLinked,
}
use kos_hspabla.Hierarchy.Invariant.{Fits, bit, IsLinked, put_map-ne, empty-false, position}

module _ (n L : ℕ) (pos : 0 < n) where
  pub set_from_lem :
      (r : ℕ) (h : Hierarchy) (l idx : ℕ)
      → l + r ≡ L
      → Fits (map_bits n) r idx
      → LinkedBut n L pos h l idx
      → Child n L pos true h l idx
      → (h' : Hierarchy) × (Hierarchy.set_from n L r h idx l ≡ some h')
        × Wrote n L pos true h l idx h'
  unfolding Hierarchy.set_from
  set_from_lem zero h l idx range fits w child =
      (h, ground arith, stay n L pos l idx true w child (λ lt. absurd (omega arith)))
  set_from_lem (suc r) h l idx range fits w child =
      elim (Bool-cases (Bitmap.test (h l q) (idx % map_bits n))) [
        | inl on ↦ (
          h,
          rw on,
          stay n L pos l idx true w child
              (λ _. sym (test-eq (h l q) (idx % map_bits n) (w.words l q)) ∙ on),
        )
        | inr off ↦
            let (h', e, wrote) =
              set_from_lem r (put_map h l q m) (suc l) q (omega arith) fits others held in
            (h', rw off e, extend n L pos h l idx m true w child m_words hm wrote)
      ]
    where
      q : ℕ
      q = idx / map_bits n

      m : Bitmap
      m = Bitmap.set (h l q) (idx % map_bits n)

      m_words : IsWords m
      m_words = set-IsWords (idx % map_bits n) (w.words l q)

      hm : (j : ℕ) → bit_at m j ≡ (if idx % map_bits n == j then true else bit_at (h l q) j)
      hm j = bit_at-set (h l q) (idx % map_bits n) j

      hit : (idx % map_bits n == idx % map_bits n) ≡ true
      hit = ground arith

      not_empty : Bitmap.empty n m ≡ false
      not_empty =
          empty-false n m (idx % map_bits n) pos m_words (position (map_bits n) idx (omega arith)).1
            (hm (idx % map_bits n) ∙ ap (λ b. if b then true else bit n h l idx) hit)

      others : LinkedBut n L pos (put_map h l q m) (suc l) q
      others = others₁ n L pos h l idx m true w child m_words hm

      held : Child n L pos true (put_map h l q m) (suc l) q
      held l' e =
          sym (ap not (ap (Bitmap.empty n) (the_map n h l q m l' (omega arith)) ∙ not_empty))

  pub clr_from_lem :
      (r : ℕ) (h : Hierarchy) (l idx : ℕ)
      → l + r ≡ L
      → Fits (map_bits n) r idx
      → LinkedBut n L pos h l idx
      → Child n L pos false h l idx
      → (h' : Hierarchy) × (Hierarchy.clr_from n L r h idx l ≡ some h')
        × Wrote n L pos false h l idx h'
  unfolding Hierarchy.clr_from
  clr_from_lem zero h l idx range fits w child =
      (h, ground arith, stay n L pos l idx false w child (λ lt. absurd (omega arith)))
  clr_from_lem (suc r) h l idx range fits w child = elim (Bool-cases (Bitmap.empty n m)) [
    | inr some_left ↦ (
      put_map h l q m,
      rw some_left refl,
      extend n L pos h l idx m false w child m_words hm
          (stay n L pos (suc l) q true others (held false some_left) (up some_left)),
    )
    | inl none_left ↦
        let (h', e, wrote) =
          clr_from_lem r (put_map h l q m) (suc l) q (omega arith) fits others
            (held true none_left) in
        (h', rw none_left e, extend n L pos h l idx m false w child m_words hm wrote)
  ]
    where
      q : ℕ
      q = idx / map_bits n

      m : Bitmap
      m = Bitmap.clr (h l q) (idx % map_bits n)

      m_words : IsWords m
      m_words = clr-IsWords (idx % map_bits n) (w.words l q)

      hm : (j : ℕ) → bit_at m j ≡ (if idx % map_bits n == j then false else bit_at (h l q) j)
      hm j = bit_at-clr (h l q) (idx % map_bits n) j

      others : LinkedBut n L pos (put_map h l q m) (suc l) q
      others = others₁ n L pos h l idx m false w child m_words hm

      held : (b : Bool) → Bitmap.empty n m ≡ b → Child n L pos (not b) (put_map h l q m) (suc l) q
      held b empty_m l' e =
          sym (ap not (ap (Bitmap.empty n) (the_map n h l q m l' (omega arith)) ∙ empty_m))

      -- The old map had the bits that the new one still has.
      was_full : Bitmap.empty n m ≡ false → Bitmap.empty n (h l q) ≡ false
      was_full some_left = elim (Bool-cases (Bitmap.empty n (h l q))) [
        | inl e ↦
            let clear = (empty_iff n (h l q) pos (w.words l q)).0.0 e in
            absurd (
              false≢true (
                sym some_left
                ∙ (empty_iff n m pos m_words).0.1 (λ j hj. ground (arith, hm j, clear j hj))))
        | inr e ↦ e
      ]

      up : Bitmap.empty n m ≡ false → suc l < L → bit n (put_map h l q m) (suc l) q ≡ true
      up some_left lt =
          let rounds : r ≡ suc (r - 1) = omega arith in
          ap (λ (a : Bitmap). bit_at a (q % map_bits n))
            (put_map-ne h l q m (suc l) (q / map_bits n) (λ e. absurd (omega arith)))
          ∙ w.others l (r - 1) q (omega arith) (subst (λ k. Fits (map_bits n) k q) rounds fits)
              (λ e. absurd (omega arith))
          ∙ ap not (was_full some_left)

  -- In a linked hierarchy of L > 0 levels of maps of n > 0 words, for an index in range, `set` at
  -- the bottom level fails no assertion, and its result is linked again and has exactly that bit
  -- of the bottom level set besides those that were set.
  pub set_lem :
      (h : Hierarchy) (idx : ℕ)
      → IsLinked n L h
      → 0 < L
      → Fits (map_bits n) L idx
      → (h' : Hierarchy) × (Hierarchy.set n L h idx 0 ≡ some h')
        × IsLinked n L h'
        × ((p : ℕ) → bit n h' 0 p ≡ (if idx == p then true else bit n h 0 p))
  unfolding Hierarchy.set
  set_lem h idx v levels fits =
      let rounds : L ≡ L - 0 = omega arith in
      let (h', e, r) =
        set_from_lem (L - 0) h 0 idx (omega arith)
          (subst (λ k. Fits (map_bits n) k idx) rounds fits) (LinkedBut-of_IsLinked n L pos 0 idx v)
          (λ l' q. absurd (omega arith)) in
      (h', e, r.linked, r.at_level levels)

  -- In a linked hierarchy of L > 0 levels of maps of n > 0 words, for an index in range, `clr` at
  -- the bottom level fails no assertion, and its result is linked again and has the same bits of
  -- the bottom level set but that one.
  pub clr_lem :
      (h : Hierarchy) (idx : ℕ)
      → IsLinked n L h
      → 0 < L
      → Fits (map_bits n) L idx
      → (h' : Hierarchy) × (Hierarchy.clr n L h idx 0 ≡ some h')
        × IsLinked n L h'
        × ((p : ℕ) → bit n h' 0 p ≡ (if idx == p then false else bit n h 0 p))
  unfolding Hierarchy.clr
  clr_lem h idx v levels fits =
      let rounds : L ≡ L - 0 = omega arith in
      let (h', e, r) =
        clr_from_lem (L - 0) h 0 idx (omega arith)
          (subst (λ k. Fits (map_bits n) k idx) rounds fits) (LinkedBut-of_IsLinked n L pos 0 idx v)
          (λ l' q. absurd (omega arith)) in
      (h', e, r.linked, r.at_level levels)
