-- ===== src/Hierarchy/Link.antt =====
-- One round of `set` or `clr` of `class HierarchicalBitmap` in src/generic/Bitmap.h, and which links
-- may be broken between rounds.
use mathlib.Core.Path.{subst, subst₂}
use kos_hspabla.Prelude.{
  ℕ, suc, ◌+◌, ◌/◌, ◌%◌, ◌<◌, Bool, true, false, not, ◌==◌, if◌then◌else◌, ◌≡◌, ◌≢◌, refl, sym, ◌∙◌,
  ap, arith, ℕ_discrete,
}
use kos_hspabla.Bitmanip.Round.{IsWords, bit_at}
use kos_hspabla.Bitmap
use kos_hspabla.Bitmap.{Bitmap}
use kos_hspabla.Hierarchy.{Hierarchy, map_bits, put_map}
use kos_hspabla.Hierarchy.Invariant.{
  Fits, bit, LinkAt, IsLinked, bit-put_map_one, put_map-ne, put_map_self, put_map-IsWords,
}

pub the_map :
    (n : ℕ) (h : Hierarchy) (l q : ℕ) (m : Bitmap) (l' : ℕ) → l ≡ l' → put_map h l q m l' q ≡ m
the_map n h l q m l' e = ap (λ a. put_map h l q m a q) (sym e) ∙ put_map_self h l q m

module _ (n L : ℕ) (pos : 0 < n) where
  -- The links hold, but for the one below position `idx` of level `l`.
  pub record LinkedBut (h : Hierarchy) (l idx : ℕ) : Type 0 where
    pub words : (l' s : ℕ) → IsWords (h l' s)
    pub others :
        (l' k s : ℕ)
        → suc l' + suc k ≡ L
        → Fits (map_bits n) (suc k) s
        → (suc l' ≡ l → idx ≢ s)
        → LinkAt n h l' s

  -- What a call at level `l` does: one bit of that level becomes `v`, and nothing below changes.
  pub record Wrote (v : Bool) (h : Hierarchy) (l idx : ℕ) (h' : Hierarchy) : Type 0 where
    pub linked : IsLinked n L h'
    pub at_level : l < L → (p : ℕ) → bit n h' l p ≡ (if idx == p then v else bit n h l p)
    pub below : (l' s : ℕ) → l' < l → h' l' s ≡ h l' s

  -- The link below `idx` would hold if the bit at `idx` had value `v`.
  abbrev pub Child : Bool → Hierarchy → ℕ → ℕ → Type 0
  Child v h l idx = (l' : ℕ) → suc l' ≡ l → v ≡ not (Bitmap.empty n (h l' idx))

  -- Once the bit at `idx` agrees with the map below, every link holds.
  close :
      {h : Hierarchy} (l idx : ℕ) (v : Bool)
      → LinkedBut h l idx
      → Child v h l idx
      → ((k : ℕ) → l + suc k ≡ L → Fits (map_bits n) (suc k) idx → bit n h l idx ≡ v)
      → IsLinked n L h
  close {h} l idx v w child here = record {
    words = w.words;
    linked = λ l' k s range fits. elim (ℕ_discrete (suc l') l) [
      | yes e ↦ elim (ℕ_discrete idx s) [
        | yes same ↦
            subst₂ (λ a b. bit n h a b ≡ not (Bitmap.empty n (h l' b))) (sym e) same
              (here k (omega arith) (subst (Fits (map_bits n) (suc k)) (sym same) fits)
                ∙ child l' e)
        | no other ↦ w.others l' k s range fits (λ _. other)
      ]
      | no ne ↦ w.others l' k s range fits (λ e. absurd (ne e))
    ];
  }

  module _ (h : Hierarchy) (l idx : ℕ) (m : Bitmap) (v : Bool) (w : LinkedBut h l idx)
      (child : Child v h l idx) (m_words : IsWords m)
      (hm : (j : ℕ)
        → bit_at m j
          ≡ (if idx % map_bits n == j then v else bit_at (h l (idx / map_bits n)) j)) where
    abbrev h₁ : Hierarchy
    h₁ = put_map h l (idx / map_bits n) m

    at_level₁ : (p : ℕ) → bit n h₁ l p ≡ (if idx == p then v else bit n h l p)
    at_level₁ p = bit-put_map_one n h l idx m v p pos hm

    words₁ : (l' s : ℕ) → IsWords (h₁ l' s)
    words₁ l' s = put_map-IsWords h l (idx / map_bits n) m l' s m_words (w.words l' s)

    -- The link at (l', s) after the write, if the map there stays.
    link₁ :
        (l' k s : ℕ)
        → suc l' + suc k ≡ L
        → Fits (map_bits n) (suc k) s
        → h₁ l' s ≡ h l' s
        → LinkAt n h₁ l' s
    link₁ l' k s range fits kept = elim (ℕ_discrete (suc l') l) [
      | yes e ↦ ap (λ a. bit n h₁ a s) e ∙ at_level₁ s ∙ elim (ℕ_discrete idx s) [
        | yes same ↦
            let hit : (idx == s) ≡ true = ground arith in
            ap (λ b. if b then v else bit n h l s) hit
            ∙ child l' e
            ∙ ap (λ a. not (Bitmap.empty n a)) (ap (h l') same ∙ sym kept)
        | no other ↦
            let miss : (idx == s) ≡ false = ground arith in
            ap (λ b. if b then v else bit n h l s) miss
            ∙ ap (λ a. bit n h a s) (sym e)
            ∙ w.others l' k s range fits (λ _. other)
            ∙ ap (λ a. not (Bitmap.empty n a)) (sym kept)
      ]
      | no ne ↦
          ap (λ (a : Bitmap). bit_at a (s % map_bits n))
            (put_map-ne h l (idx / map_bits n) m (suc l') (s / map_bits n)
              (λ e. absurd (ne (sym e))))
          ∙ w.others l' k s range fits (λ e. absurd (ne e))
          ∙ ap (λ a. not (Bitmap.empty n a)) (sym kept)
    ]

    -- After the write, only the link below the next level's bit may fail.
    pub others₁ : LinkedBut h₁ (suc l) (idx / map_bits n)
    others₁ = record {
      words = words₁;
      others = λ l' k s range fits apart.
          link₁ l' k s range fits
            (put_map-ne h l (idx / map_bits n) m l' s (λ e. apart (ap suc (sym e))));
    }

    -- The rest of the loop leaves this level alone.
    pub extend :
        {u : Bool} {h' : Hierarchy} → Wrote u h₁ (suc l) (idx / map_bits n) h' → Wrote v h l idx h'
    extend {h' = h'} r = record {
      linked = r.linked;
      at_level = λ _ p.
          ap (λ (a : Bitmap). bit_at a (p % map_bits n)) (r.below l (p / map_bits n) (omega arith))
          ∙ at_level₁ p;
      below = λ l' s lt.
          r.below l' s (omega arith)
          ∙ put_map-ne h l (idx / map_bits n) m l' s (λ e. absurd (omega arith));
    }

  -- Nothing is left to do where the bit already agrees.
  pub stay :
      {h : Hierarchy} (l idx : ℕ) (v : Bool)
      → LinkedBut h l idx
      → Child v h l idx
      → (l < L → bit n h l idx ≡ v)
      → Wrote v h l idx h
  stay {h} l idx v w child here = record {
    linked = close l idx v w child (λ k range _. here (omega arith));
    at_level = λ lt p. elim (ℕ_discrete idx p) [
      | yes e ↦
          let hit : (idx == p) ≡ true = ground arith in
          ap (bit n h l) (sym e) ∙ here lt ∙ sym (ap (λ b. if b then v else bit n h l p) hit)
      | no ne ↦
          let miss : (idx == p) ≡ false = ground arith in
          sym (ap (λ b. if b then v else bit n h l p) miss)
    ];
    below = λ l' s lt. refl;
  }

  pub LinkedBut-of_IsLinked : {h : Hierarchy} (l idx : ℕ) → IsLinked n L h → LinkedBut h l idx
  LinkedBut-of_IsLinked l idx v = record {
    words = v.words;
    others = λ l' k s range fits _. v.linked l' k s range fits;
  }
