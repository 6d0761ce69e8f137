-- ===== src/Hierarchy/Blocks.antt =====
-- `blockset`, `blockclr`, `blockempty`, `blockfull`, `test` and `empty` of `class HierarchicalBitmap`
-- in src/generic/Bitmap.h.
use mathlib.Core.Path.{subst}
use kos_hspabla.Prelude.{
  ℕ, suc, ◌+◌, ◌-◌, ◌*◌, ◌/◌, ◌%◌, ◌<◌, Bool, true, false, not, ◌==◌, if◌then◌else◌, ◌≡◌, ◌↔◌, sym,
  ◌∙◌, ap, ap₂, arith, ℕ_discrete, some,
}
use kos_hspabla.Bitmanip.Round.{IsWords, bit_at}
use kos_hspabla.Bitmap
use kos_hspabla.Bitmap.{Bitmap}
use kos_hspabla.Bitmap.Laws.{test-eq}
use kos_hspabla.Bitmap.Whole.{empty_iff, set_b-clr_b-flp_b, set_b-IsWords, clr_b-IsWords}
use kos_hspabla.Hierarchy
use kos_hspabla.Hierarchy.{Hierarchy, map_bits, put_map}
use kos_hspabla.Hierarchy.Link.{the_map, LinkedBut, Child}
use kos_hspabla.Hierarchy.Update.{set_from_lem, clr_from_lem}
use kos_hspabla.Hierarchy.Invariant.{
  Fits, bit, IsLinked, put_map-ne, put_map_self, put_map-IsWords, empty-false, position,
  split_position,
}

module _ (n L : ℕ) (pos : 0 < n) where
  -- After a write of a whole bottom map only the link above it may fail.
  others₀ :
      {h : Hierarchy} (q : ℕ) (m : Bitmap)
      → IsLinked n L h
      → IsWords m
      → LinkedBut n L pos (put_map h 0 q m) 1 q
  others₀ {h} q m v hm = record {
    words = λ l s. put_map-IsWords h 0 q m l s hm (v.words l s);
    others = λ l k s range fits apart.
        ap (λ (a : Bitmap). bit_at a (s % map_bits n))
          (put_map-ne h 0 q m (suc l) (s / map_bits n) (λ e. absurd (omega arith)))
        ∙ v.linked l k s range fits
        ∙ ap (λ a. not (Bitmap.empty n a))
            (sym (put_map-ne h 0 q m l s (λ e. apart (ap suc (sym e)))));
  }

  whole_map :
      (h h' : Hierarchy) (q : ℕ) (m : Bitmap) (u : Bool)
      → ((s : ℕ) → h' 0 s ≡ put_map h 0 q m 0 s)
      → ((j : ℕ) → j < map_bits n → bit_at m j ≡ u)
      → (p : ℕ) → bit n h' 0 p ≡ (if q == p / map_bits n then u else bit n h 0 p)
  whole_map h h' q m u kept all p =
      ap (λ (a : Bitmap). bit_at a (p % map_bits n)) (kept (p / map_bits n))
      ∙ elim (ℕ_discrete q (p / map_bits n)) [
        | yes e ↦
            let hit : (q == p / map_bits n) ≡ true = ground arith in
            ap (λ (a : Bitmap). bit_at a (p % map_bits n))
              (ap (put_map h 0 q m 0) (sym e) ∙ put_map_self h 0 q m)
            ∙ all (p % map_bits n) (position (map_bits n) p (omega arith)).1
            ∙ sym (ap (λ b. if b then u else bit n h 0 p) hit)
        | no ne ↦
            let miss : (q == p / map_bits n) ≡ false = ground arith in
            ap (λ (a : Bitmap). bit_at a (p % map_bits n))
              (put_map-ne h 0 q m 0 (p / map_bits n) (λ _. ne))
            ∙ sym (ap (λ b. if b then u else bit n h 0 p) miss)
      ]

  above_map :
      (idx : ℕ) → 0 < L → Fits (map_bits n) L idx → Fits (map_bits n) (L - 1) (idx / map_bits n)
  above_map idx levels fits =
      let rounds : L ≡ suc (L - 1) = omega arith in subst (λ k. Fits (map_bits n) k idx) rounds fits

  agrees :
      (h : Hierarchy) (q : ℕ) (m : Bitmap) (b : Bool)
      → Bitmap.empty n m ≡ b
      → Child n L pos (not b) (put_map h 0 q m) 1 q
  agrees h q m b e l' one =
      sym (ap not (ap (Bitmap.empty n) (the_map n h 0 q m l' (omega arith)) ∙ e))

  -- In a linked hierarchy of L > 0 levels of maps of n > 0 words, for an index in range,
  -- `blockset` sets the 64 n bits of the bottom map that the index is in and no other, `blockclr`
  -- clears them and no other; both fail no assertion and keep the hierarchy linked.
  pub blockset-blockclr :
      (h : Hierarchy) (idx : ℕ) → IsLinked n L h → 0 < L → Fits (map_bits n) L idx → record {
        set :
            (h' : Hierarchy) × (Hierarchy.blockset n L h idx ≡ some h')
            × IsLinked n L h'
            × ((p : ℕ)
                → bit n h' 0 p
                  ≡ (if idx / map_bits n == p / map_bits n then true else bit n h 0 p));
        clr :
            (h' : Hierarchy) × (Hierarchy.blockclr n L h idx ≡ some h')
            × IsLinked n L h'
            × ((p : ℕ)
                → bit n h' 0 p
                  ≡ (if idx / map_bits n == p / map_bits n then false else bit n h 0 p));
      }
  unfolding Hierarchy.blockset Hierarchy.blockclr Hierarchy.set Hierarchy.clr
  blockset-blockclr h idx v levels fits = record {
    set =
        let m = Bitmap.set_b n (h 0 q) in
        let words = set_b-IsWords n (v.words 0 q) in
        let (h', e, r) =
          set_from_lem n L pos (L - 1) (put_map h 0 q m) 1 q (omega arith)
            (above_map idx levels fits) (others₀ q m v words)
            (agrees h q m false
              (empty-false n m 0 pos words (omega arith) (set_bit 0 (omega arith)))) in
        (h', e, r.linked, whole_map h h' q m true (λ s. r.below 0 s (omega arith)) set_bit);
    clr =
        let m = Bitmap.clr_b n (h 0 q) in
        let words = clr_b-IsWords n (v.words 0 q) in
        let (h', e, r) =
          clr_from_lem n L pos (L - 1) (put_map h 0 q m) 1 q (omega arith)
            (above_map idx levels fits) (others₀ q m v words)
            (agrees h q m true ((empty_iff n m pos words).0.1 clr_bit)) in
        (h', e, r.linked, whole_map h h' q m false (λ s. r.below 0 s (omega arith)) clr_bit);
  }
    where
      q : ℕ
      q = idx / map_bits n

      set_bit : (j : ℕ) → j < map_bits n → bit_at (Bitmap.set_b n (h 0 q)) j ≡ true
      set_bit j hj = ground (arith, (set_b-clr_b-flp_b n (h 0 q) j (v.words 0 q)).0)

      clr_bit : (j : ℕ) → j < map_bits n → bit_at (Bitmap.clr_b n (h 0 q)) j ≡ false
      clr_bit j hj = ground (arith, (set_b-clr_b-flp_b n (h 0 q) j (v.words 0 q)).1)

  -- In a linked hierarchy of maps of n > 0 words, `test` reads the bit of the bottom level at the
  -- index, and `blockempty` and `blockfull` are true exactly if all bits of the bottom map that
  -- the index is in are clear, or set.
  pub test_block : (h : Hierarchy) (idx : ℕ) → IsLinked n L h → record {
    bit_test : Hierarchy.test n L h idx ≡ bit n h 0 idx;
    all_clear :
        (Hierarchy.blockempty n L h idx ≡ true)
        ↔ ((p : ℕ) → p / map_bits n ≡ idx / map_bits n → bit n h 0 p ≡ false);
    all_set :
        (Hierarchy.blockfull n L h idx ≡ true)
        ↔ ((p : ℕ) → p / map_bits n ≡ idx / map_bits n → bit n h 0 p ≡ true);
  }
  unfolding Hierarchy.test Hierarchy.blockempty Hierarchy.blockfull
  test_block h idx v = record {
    bit_test = test-eq (h 0 q) (idx % map_bits n) (v.words 0 q);
    all_clear = (
      λ e. of_map false ((empty_iff n (h 0 q) pos (v.words 0 q)).0.0 e),
      λ all. (empty_iff n (h 0 q) pos (v.words 0 q)).0.1 (to_map false all),
    );
    all_set = (
      λ e. of_map true ((empty_iff n (h 0 q) pos (v.words 0 q)).1.0 e),
      λ all. (empty_iff n (h 0 q) pos (v.words 0 q)).1.1 (to_map true all),
    );
  }
    where
      q : ℕ
      q = idx / map_bits n

      of_map :
          (u : Bool)
          → ((j : ℕ) → j < n * 64 → bit_at (h 0 q) j ≡ u)
          → (p : ℕ) → p / map_bits n ≡ q
          → bit n h 0 p ≡ u
      of_map u all p e =
          ap (λ s. bit_at (h 0 s) (p % map_bits n)) e
          ∙ all (p % map_bits n) (position (map_bits n) p (omega arith)).1

      to_map :
          (u : Bool)
          → ((p : ℕ) → p / map_bits n ≡ q → bit n h 0 p ≡ u)
          → (j : ℕ) → j < n * 64
          → bit_at (h 0 q) j ≡ u
      to_map u all j hj =
          let (place, rest) = split_position (map_bits n) q j hj in
          ap₂ (λ (s i : ℕ). bit_at (h 0 s) i) (sym place) (sym rest)
          ∙ all (q * map_bits n + j) place
