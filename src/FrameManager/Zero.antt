-- ===== src/FrameManager/Zero.antt =====
-- `zeroInternal` of src/kernel/FrameManager.h: a frame that had to be zeroed becomes a free one.
use kos_hspabla.Prelude.{
  ℕ, suc, ◌+◌, ◌<◌, ◌==◌, true, false, ◌≡◌, refl, sym, ◌∙◌, ap, arith, ◌∷◌, some, inl, inr,
  Bool-cases, if◌then◌else◌, ==_iff,
}
use kos_hspabla.Basics.{limit}
use kos_hspabla.Hierarchy
use kos_hspabla.Hierarchy.{Hierarchy}
use kos_hspabla.Hierarchy.Invariant.{Fits, bit}
use kos_hspabla.Hierarchy.Update.{clr_lem}
use kos_hspabla.FrameManager.{
  FrameLevel, FrameMap, table_words, ptentries, release_internal, zero_internal,
}
use kos_hspabla.FrameManager.Counts.{
  one_if, copies, IsLevel, IsMaps, heights, Once, finds, finds_none, find-Finds,
}
use kos_hspabla.FrameManager.Release.{count_clear, release_internal_lem}

-- A frame at `idx` was the first that had to be zeroed.
pub record Zeroed (f : FrameLevel) (up : FrameMap) (idx : ℕ) (f' : FrameLevel) (up' : FrameMap)
    : Type 0 where
  pub valid : IsMaps (f' ∷ up')
  pub same_height : f'.height ≡ f.height
  pub same_heights : heights up' ≡ heights up
  pub same_copies : (p : ℕ) → copies (f' ∷ up') p ≡ copies (f ∷ up) p
  pub in_range : Fits ptentries f.height idx
  pub was_dirty : bit table_words f.tozero 0 idx ≡ true
  pub now_clean : (j : ℕ) → j < suc idx → bit table_words f'.tozero 0 j ≡ false

pub data Zeroes (f : FrameLevel) (up : FrameMap) : Type 0 where
  zeroed :
      (idx : ℕ) (f' : FrameLevel) (up' : FrameMap)
      → zero_internal (f ∷ up) ≡ some (true, f' ∷ up')
      → Zeroed f up idx f' up'
      → Zeroes f up
  all_clean :
      zero_internal (f ∷ up) ≡ some (false, f ∷ up)
      → ((j : ℕ) → Fits ptentries f.height j → bit table_words f.tozero 0 j ≡ false)
      → Zeroes f up

zero_none :
    (f : FrameLevel) (up : FrameMap)
    → Hierarchy.find table_words f.height f.tozero true ≡ some limit
    → zero_internal (f ∷ up) ≡ some (false, f ∷ up)
unfolding zero_internal
zero_none f up e = rw e refl

zero_one :
    (f : FrameLevel) (up : FrameMap) (idx : ℕ) (tozero : Hierarchy) (maps : FrameMap)
    → Hierarchy.find table_words f.height f.tozero true ≡ some idx
    → (idx == limit) ≡ false
    → Hierarchy.clr table_words f.height f.tozero idx 0 ≡ some tozero
    → release_internal (record f { tozero = tozero } ∷ up) idx ≡ some (true, maps)
    → zero_internal (f ∷ up) ≡ some (true, maps)
unfolding zero_internal
zero_one f up idx tozero maps e there clear run = rw (e, there, clear, run) refl

clean_below :
    (f : FrameLevel) (idx : ℕ) (tozero : Hierarchy)
    → ((p : ℕ)
        → bit table_words tozero 0 p ≡ (if idx == p then false else bit table_words f.tozero 0 p))
    → ((j : ℕ) → j < idx → bit table_words f.tozero 0 j ≡ false)
    → (j : ℕ) → j < suc idx
    → bit table_words tozero 0 j ≡ false
clean_below f idx tozero bits before j lt = elim (Bool-cases (idx == j)) [
  | inl same ↦ bits j ∙ (rw same refl)
  | inr other ↦ bits j ∙ (rw other (before j (ground (arith, lt, other))))
]

without_dirty :
    (f : FrameLevel) (up : FrameMap) (idx : ℕ) (tozero : Hierarchy)
    → bit table_words f.tozero 0 idx ≡ true
    → ((p : ℕ)
        → bit table_words tozero 0 p ≡ (if idx == p then false else bit table_words f.tozero 0 p))
    → (p : ℕ) → copies (record f { tozero = tozero } ∷ up) p + one_if (idx == p) ≡ copies (f ∷ up) p
without_dirty f up idx tozero dirty bits p = omega (
  arith,
  ap one_if (bits p),
  count_clear (idx == p) (bit table_words f.tozero 0 p)
      (λ e. ap (bit table_words f.tozero 0) (sym ((==_iff idx p).0 e)) ∙ dirty),
)

pub zero_internal-Zeroes :
    (f : FrameLevel) (up : FrameMap) → IsMaps (f ∷ up) → Once (f ∷ up) → Zeroes f up
zero_internal-Zeroes f up (v, under, above) once =
    elim (find-Finds f.height f.tozero v.some_levels v.few_levels v.dirty_linked) [
      | finds_none e clean ↦ all_clean (zero_none f up e) clean
      | finds idx e there fits dirty before ↦
          let (tozero, clear, linked, bits) =
            clr_lem table_words f.height (omega arith) f.tozero idx v.dirty_linked v.some_levels
              fits in
          let f₁ : FrameLevel = record f { tozero = tozero } in
          let v₁ : IsLevel f₁ = record {
            some_levels = v.some_levels;
            few_levels = v.few_levels;
            free_linked = v.free_linked;
            dirty_linked = linked;
          } in
          let less = without_dirty f up idx tozero dirty bits in
          let here : one_if (idx == idx) ≡ 1 = ap one_if ((==_iff idx idx).1 refl) in
          let (f', up', run, r) =
            release_internal_lem f₁ up idx (v₁, under, above) fits
              (omega (arith, less idx, here, once idx)) in
          zeroed idx f' up' (zero_one f up idx tozero (f' ∷ up') e there clear run) (record {
            valid = r.valid;
            same_height = r.same_height;
            same_heights = r.same_heights;
            same_copies = λ p. r.counted p ∙ less p;
            in_range = fits;
            was_dirty = dirty;
            now_clean = λ j lt.
                ap (λ h. bit table_words h 0 j) r.same_dirty
                ∙ clean_below f idx tozero bits before j lt;
          })
    ]
