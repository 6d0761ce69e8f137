-- ===== src/FrameManager/Release.antt =====
-- `releaseInternal` of src/kernel/FrameManager.h: a full block of frames becomes one larger frame.
use mathlib.Core.Path.{subst}
use kos_hspabla.Prelude.{
  ℕ, suc, ◌+◌, ◌/◌, ◌==◌, Bool, true, false, ◌≡◌, refl, sym, ◌∙◌, ap, ap₂, arith, [], ◌∷◌, some,
  inl, inr, Bool-cases, if◌then◌else◌, ==_iff,
}
use kos_hspabla.Hierarchy
use kos_hspabla.Hierarchy.{Hierarchy}
use kos_hspabla.Hierarchy.Invariant.{Fits, bit, IsLinked}
use kos_hspabla.Hierarchy.Update.{set_lem}
use kos_hspabla.Hierarchy.Blocks.{blockset-blockclr, test_block}
use kos_hspabla.FrameManager.{FrameLevel, FrameMap, table_words, ptentries, release_internal}
use kos_hspabla.FrameManager.Counts.{one_if, free_at, copies, IsLevel, IsMaps, heights}

-- What a step on a frame map keeps.
pub record Released (f : FrameLevel) (up : FrameMap) (idx : ℕ) (f' : FrameLevel) (up' : FrameMap)
    : Type 0 where
  pub valid : IsMaps (f' ∷ up')
  pub same_height : f'.height ≡ f.height
  pub same_dirty : f'.tozero ≡ f.tozero
  pub same_heights : heights up' ≡ heights up
  pub counted : (p : ℕ) → copies (f' ∷ up') p ≡ copies (f ∷ up) p + one_if (idx == p)

pub count_set :
    (e b : Bool) → (e ≡ true → b ≡ false) → one_if (if e then true else b) ≡ one_if b + one_if e
count_set false b h = omega arith
count_set true true h = cc (h refl)
count_set true false h = omega arith

pub count_clear :
    (s b : Bool) → (s ≡ true → b ≡ true) → one_if (if s then false else b) + one_if s ≡ one_if b
count_clear false b h = omega arith
count_clear true true h = omega arith
count_clear true false h = cc (h refl)

pub none_zero : (b : Bool) → one_if b ≡ 0 → b ≡ false
none_zero true h = absurd (omega arith)
none_zero false h = refl

-- Some of the frames of a level are changed, and its dirty ones are not.
pub with_frames :
    (f : FrameLevel) (frames : Hierarchy)
    → IsLevel f
    → IsLinked table_words f.height frames
    → IsLevel (record f { frames = frames })
with_frames f frames v linked = record {
  some_levels = v.some_levels;
  few_levels = v.few_levels;
  free_linked = linked;
  dirty_linked = v.dirty_linked;
}

-- The frame's bit is set.
set_counted :
    (f : FrameLevel) (up : FrameMap) (idx : ℕ) (frames : Hierarchy)
    → copies (f ∷ up) idx ≡ 0
    → ((p : ℕ)
        → bit table_words frames 0 p ≡ (if idx == p then true else bit table_words f.frames 0 p))
    → (p : ℕ) → one_if (bit table_words frames 0 p) ≡ free_at f p + one_if (idx == p)
set_counted f up idx frames none_yet bits p =
    ap one_if (bits p)
    ∙ count_set (idx == p) (bit table_words f.frames 0 p) (λ e.
      ap (bit table_words f.frames 0) (sym ((==_iff idx p).0 e))
      ∙ none_zero (bit table_words f.frames 0 idx) (omega (arith, none_yet)))

not_full :
    (f : FrameLevel) (up : FrameMap) (idx : ℕ) (frames : Hierarchy)
    → Hierarchy.set table_words f.height f.frames idx 0 ≡ some frames
    → Hierarchy.blockfull table_words f.height frames idx ≡ false
    → release_internal (f ∷ up) idx ≡ some (true, record f { frames = frames } ∷ up)
unfolding release_internal
not_full f up idx frames run partial = rw (run, partial) refl

full_alone :
    (f : FrameLevel) (idx : ℕ) (frames : Hierarchy)
    → Hierarchy.set table_words f.height f.frames idx 0 ≡ some frames
    → Hierarchy.blockfull table_words f.height frames idx ≡ true
    → release_internal (f ∷ []) idx ≡ some (true, record f { frames = frames } ∷ [])
unfolding release_internal
full_alone f idx frames run full = rw (run, full) refl

full_passed :
    (f : FrameLevel) (up up' : FrameMap) (idx : ℕ) (frames cleared : Hierarchy)
    → Hierarchy.set table_words f.height f.frames idx 0 ≡ some frames
    → Hierarchy.blockfull table_words f.height frames idx ≡ true
    → release_internal up (idx / ptentries) ≡ some (true, up')
    → Hierarchy.blockclr table_words f.height frames idx ≡ some cleared
    → release_internal (f ∷ up) idx ≡ some (true, record f { frames = cleared } ∷ up')
unfolding release_internal
full_passed f up up' idx frames cleared run full passed clear = rw (run, full, passed, clear) refl

-- The frame stays on this level.
kept :
    (f : FrameLevel) (up : FrameMap) (idx : ℕ) (frames : Hierarchy)
    → IsMaps (f ∷ up)
    → copies (f ∷ up) idx ≡ 0
    → IsLinked table_words f.height frames
    → ((p : ℕ)
        → bit table_words frames 0 p ≡ (if idx == p then true else bit table_words f.frames 0 p))
    → Released f up idx (record f { frames = frames }) up
kept f up idx frames (v, under, above) none_yet linked bits = record {
  valid = (with_frames f frames v linked, under, above);
  same_height = refl;
  same_dirty = refl;
  same_heights = refl;
  counted = λ p. omega (arith, set_counted f up idx frames none_yet bits p);
}

-- Its block moves to the level above.
moved :
    (f g g' : FrameLevel) (up up' : FrameMap) (idx : ℕ) (frames cleared : Hierarchy)
    → IsMaps (f ∷ g ∷ up)
    → copies (f ∷ g ∷ up) idx ≡ 0
    → IsLinked table_words f.height frames
    → ((p : ℕ)
        → bit table_words frames 0 p ≡ (if idx == p then true else bit table_words f.frames 0 p))
    → IsLinked table_words f.height cleared
    → ((p : ℕ)
        → bit table_words cleared 0 p
          ≡ (if idx / ptentries == p / ptentries then false else bit table_words frames 0 p))
    → ((p : ℕ) → p / ptentries ≡ idx / ptentries → bit table_words frames 0 p ≡ true)
    → Released g up (idx / ptentries) g' up'
    → Released f (g ∷ up) idx (record f { frames = cleared }) (g' ∷ up')
moved f g g' up up' idx frames cleared (v, under, above) none_yet linked bits clear_linked
      clear_bits full r =
    record {
      valid = (with_frames f cleared v clear_linked, under ∙ ap suc (sym r.same_height), r.valid);
      same_height = refl;
      same_dirty = refl;
      same_heights = ap₂ (λ h hs. h ∷ hs) r.same_height r.same_heights;
      counted = λ p. omega (
        arith,
        set_counted f (g ∷ up) idx frames none_yet bits p,
        r.counted (p / ptentries),
        ap one_if (clear_bits p),
        count_clear (idx / ptentries == p / ptentries) (bit table_words frames 0 p)
            (λ e. full p (sym ((==_iff (idx / ptentries) (p / ptentries)).0 e))),
      );
    }

-- For levels that are linked and fit each other, and a frame in range that is counted nowhere,
-- `release_internal` fails no assertion and returns true; the levels are linked, that frame is
-- counted once more and every other one as before, also when its full block became a frame of the
-- level above, and the frames to be zeroed are the same.
pub release_internal_lem :
    (f : FrameLevel) (up : FrameMap) (idx : ℕ)
    → IsMaps (f ∷ up)
    → Fits ptentries f.height idx
    → copies (f ∷ up) idx ≡ 0
    → (f' : FrameLevel) × (up' : FrameMap) × (release_internal (f ∷ up) idx ≡ some (true, f' ∷ up'))
      × Released f up idx f' up'
release_internal_lem f [] idx (v, under, above) fits none_yet =
    let (frames, run, linked, bits) =
      set_lem table_words f.height (omega arith) f.frames idx v.free_linked v.some_levels fits in
    let r = kept f [] idx frames (v, under, above) none_yet linked bits in
    elim (Bool-cases (Hierarchy.blockfull table_words f.height frames idx)) [
      | inl full ↦ (record f { frames = frames }, [], full_alone f idx frames run full, r)
      | inr partial ↦ (record f { frames = frames }, [], not_full f [] idx frames run partial, r)
    ]
release_internal_lem f (g ∷ up) idx (v, under, above) fits none_yet =
    let (frames, run, linked, bits) =
      set_lem table_words f.height (omega arith) f.frames idx v.free_linked v.some_levels fits in
    elim (Bool-cases (Hierarchy.blockfull table_words f.height frames idx)) [
      | inl full ↦
          let (cleared, clear, clear_linked, clear_bits) =
            (blockset-blockclr table_words f.height (omega arith) frames idx linked v.some_levels
              fits).clr in
          let (g', up', passed, r) =
            release_internal_lem g up (idx / ptentries) above
              (subst (λ k. Fits ptentries k idx) under fits) (omega (arith, none_yet)) in
          (
            record f { frames = cleared },
            g' ∷ up',
            full_passed f (g ∷ up) (g' ∷ up') idx frames cleared run full passed clear,
            moved f g g' up up' idx frames cleared (v, under, above) none_yet linked bits
                clear_linked clear_bits
                ((test_block table_words f.height (omega arith) frames idx linked).all_set.0 full)
                r,
          )
      | inr partial ↦ (
        record f { frames = frames },
        g ∷ up,
        not_full f (g ∷ up) idx frames run partial,
        kept f (g ∷ up) idx frames (v, under, above) none_yet linked bits,
      )
    ]
