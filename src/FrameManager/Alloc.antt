-- ===== src/FrameManager/Alloc.antt =====
-- `alloc` of src/kernel/FrameManager.h: a free frame, one that is zeroed first, or one of a larger frame.
use mathlib.Core.Path.{subst}
use mathlib.Core.Bool.{true≢false}
use kos_hspabla.Prelude.{
  ℕ, zero, suc, ◌+◌, ◌*◌, ◌/◌, ◌%◌, ◌^◌, ◌<◌, ◌≤◌, ◌==◌, Bool, true, false, ◌≡◌, refl, sym, ◌∙◌, ap,
  ap₂, arith, [], ◌∷◌, Option, some, none, ◌>>=◌, ◌⊎◌, inl, inr, if◌then◌else◌, ==_iff, length,
  dec_lt,
}
use kos_hspabla.Basics.{mword_mod, limit}
use kos_hspabla.Hierarchy
use kos_hspabla.Hierarchy.{Hierarchy}
use kos_hspabla.Hierarchy.Invariant.{Fits, bit, split_position}
use kos_hspabla.Hierarchy.Update.{clr_lem}
use kos_hspabla.Hierarchy.Blocks.{blockset-blockclr}
use kos_hspabla.FrameManager.{
  FrameLevel, FrameMap, table_words, ptentries, zero_internal, alloc_here, split_frame, alloc_loop,
  alloc,
}
use kos_hspabla.FrameManager.Counts.{
  one_if, copies, IsMaps, Under, heights, heights-Under, Once, Managed, Fits-lt, Fits-lt-mword,
  finds, finds_none, find-Finds,
}
use kos_hspabla.FrameManager.Release.{count_set, count_clear, with_frames}
use kos_hspabla.FrameManager.Zero.{Zeroed, zeroed, all_clean, zero_internal-Zeroes}

-- Frame `idx` is handed out, and every other frame is there as often as before.
pub record Allocated (maps : FrameMap) (idx : ℕ) (maps' : FrameMap) : Type 0 where
  pub valid : IsMaps maps'
  pub same_heights : heights maps' ≡ heights maps
  pub in_range : Managed maps idx
  pub counted : (p : ℕ) → copies maps p ≡ copies maps' p + one_if (idx == p)

-- A run of `alloc`: it fails only if no frame is left.
abbrev pub Serves : FrameMap → Option (ℕ × FrameMap) → Type 0
Serves maps run =
    ((idx : ℕ) × (maps' : FrameMap) × (run ≡ some (idx, maps')) × Allocated maps idx maps')
    ⊎ ((run ≡ none) × ((p : ℕ) → Managed maps p → copies maps p ≡ 0))

pub above-Once : (f : FrameLevel) (up : FrameMap) → Once (f ∷ up) → Once up
above-Once f up once q =
    let (place, rest) = split_position ptentries q 0 (omega arith) in
    let same : copies up ((q * ptentries + 0) / ptentries) ≡ copies up q = ap (copies up) place in
    omega (arith, once (q * ptentries + 0), same)

-- A frame of this level.
take_free :
    (f : FrameLevel) (up : FrameMap) (idx : ℕ)
    → IsMaps (f ∷ up)
    → Fits ptentries f.height idx
    → bit table_words f.frames 0 idx ≡ true
    → (maps' : FrameMap) × (alloc_here f up idx ≡ some (idx, maps')) × Allocated (f ∷ up) idx maps'
unfolding alloc_here
take_free f up idx (v, under, above) fits free =
    let (frames, clear, linked, bits) =
      clr_lem table_words f.height (omega arith) f.frames idx v.free_linked v.some_levels fits in
    (
      record f { frames = frames } ∷ up,
      rw clear refl,
      record {
        valid = (with_frames f frames v linked, under, above);
        same_heights = refl;
        in_range = fits;
        counted = λ p. omega (
          arith,
          ap one_if (bits p),
          count_clear (idx == p) (bit table_words f.frames 0 p)
              (λ e. ap (bit table_words f.frames 0) (sym ((==_iff idx p).0 e)) ∙ free),
        );
      },
    )

first_of :
    (k : ℕ) (up : FrameMap) (q : ℕ) → Under k up → Managed up q → Fits ptentries k (q * ptentries)
first_of k [] q u m = absurd m
first_of k (g ∷ up) q u m =
    let (place, rest) = split_position ptentries q 0 (omega arith) in
    let same : (q * ptentries + 0) / ptentries ≡ q = place in
    subst (λ k'. Fits ptentries k' (q * ptentries)) (sym u)
      (subst (λ x. Fits ptentries g.height x)
        (sym same ∙ ap (λ x. x / ptentries) {x = q * ptentries + 0} (omega arith)) m)

in_block :
    (k : ℕ) (up : FrameMap) (q p : ℕ)
    → Under k up
    → Managed up q
    → p / ptentries ≡ q
    → Fits ptentries k p
in_block k [] q p u m e = absurd m
in_block k (g ∷ up) q p u m e =
    subst (λ k'. Fits ptentries k' p) (sym u) (subst (Fits ptentries g.height) (sym e) m)

-- The frames of a larger one.
split_counted :
    (f : FrameLevel) (up maps : FrameMap) (q : ℕ) (frames : Hierarchy)
    → Under f.height up
    → Allocated up q maps
    → ((j : ℕ) → Fits ptentries f.height j → bit table_words f.frames 0 j ≡ false)
    → ((p : ℕ)
        → bit table_words frames 0 p
          ≡ (if q == p / ptentries then true else bit table_words f.frames 0 p))
    → (p : ℕ) → copies (record f { frames = frames } ∷ maps) p ≡ copies (f ∷ up) p
split_counted f up maps q frames under a clear bits p = omega (
  arith,
  a.counted (p / ptentries),
  ap one_if (bits p),
  count_set (q == p / ptentries) (bit table_words f.frames 0 p) (λ e.
      clear p (in_block f.height up q p under a.in_range (sym ((==_iff q (p / ptentries)).0 e)))),
)

split_run :
    (f : FrameLevel) (maps : FrameMap) (q : ℕ) (frames : Hierarchy) (r : ℕ × FrameMap)
    → q * ptentries % mword_mod ≡ q * ptentries
    → Hierarchy.blockset table_words f.height f.frames (q * ptentries) ≡ some frames
    → alloc_here (record f { frames = frames }) maps (q * ptentries) ≡ some r
    → split_frame f (q, maps) ≡ some r
unfolding split_frame
split_run f maps q frames r small run here = rw (small, run) here

take_split :
    (f : FrameLevel) (up maps : FrameMap) (q : ℕ)
    → IsMaps (f ∷ up)
    → Allocated up q maps
    → ((j : ℕ) → Fits ptentries f.height j → bit table_words f.frames 0 j ≡ false)
    → (maps' : FrameMap) × (split_frame f (q, maps) ≡ some (q * ptentries, maps'))
      × Allocated (f ∷ up) (q * ptentries) maps'
take_split f up maps q (v, under, above) a clear =
    let idx = q * ptentries in
    let fits = first_of f.height up q under a.in_range in
    let small : idx % mword_mod ≡ idx = omega (arith, Fits-lt-mword f idx v fits) in
    let here : (q * ptentries) / ptentries ≡ q =
      ap (λ x. x / ptentries) {y = q * ptentries + 0} (omega arith)
      ∙ (split_position ptentries q 0 (omega arith)).0 in
    let (frames, run, linked, bits) =
      (blockset-blockclr table_words f.height (omega arith) f.frames idx v.free_linked v.some_levels
        fits).set in
    let block : (p : ℕ)
        → bit table_words frames 0 p
          ≡ (if q == p / ptentries then true else bit table_words f.frames 0 p) =
      λ p.
        bits p ∙ ap (λ x. if x == p / ptentries then true else bit table_words f.frames 0 p) here in
    let f₁ : FrameLevel = record f { frames = frames } in
    let set_here : bit table_words frames 0 idx ≡ true =
      block idx
      ∙ ap (λ b. if b then true else bit table_words f.frames 0 idx)
          ((==_iff q (idx / ptentries)).1 (sym here)) in
    let under' = heights-Under f.height up maps a.same_heights under in
    let (maps', run', a') =
      take_free f₁ maps idx (with_frames f frames v linked, under', a.valid) fits set_here in
    (
      maps',
      split_run f maps q frames (idx, maps') small run run',
      record {
        valid = a'.valid;
        same_heights = a'.same_heights ∙ ap (λ hs. f.height ∷ hs) a.same_heights;
        in_range = fits;
        counted = λ p. sym (split_counted f up maps q frames under a clear block p) ∙ a'.counted p;
      },
    )

loop_free :
    (above : FrameMap → Option (ℕ × FrameMap)) (fuel : ℕ) (f : FrameLevel) (up : FrameMap) (idx : ℕ)
    (r : Option (ℕ × FrameMap))
    → Hierarchy.find table_words f.height f.frames true ≡ some idx
    → (idx == limit) ≡ false
    → alloc_here f up idx ≡ r
    → alloc_loop above (suc fuel) (f ∷ up) ≡ r
unfolding alloc_loop
loop_free above fuel f up idx r e there run = rw (e, there) run

loop_zeroed :
    (above : FrameMap → Option (ℕ × FrameMap)) (fuel : ℕ) (f : FrameLevel) (up maps : FrameMap)
    → Hierarchy.find table_words f.height f.frames true ≡ some limit
    → zero_internal (f ∷ up) ≡ some (true, maps)
    → alloc_loop above (suc fuel) (f ∷ up) ≡ alloc_loop above fuel maps
unfolding alloc_loop
loop_zeroed above fuel f up maps e run = rw (e, run) refl

loop_split :
    (above : FrameMap → Option (ℕ × FrameMap)) (fuel : ℕ) (f : FrameLevel) (up : FrameMap)
    (r : Option (ℕ × FrameMap))
    → Hierarchy.find table_words f.height f.frames true ≡ some limit
    → zero_internal (f ∷ up) ≡ some (false, f ∷ up)
    → (above up >>= split_frame f) ≡ r
    → alloc_loop above (suc fuel) (f ∷ up) ≡ r
unfolding alloc_loop
loop_split above fuel f up r e run split = rw (e, run) split

-- Zeroing changes no count.
after_zero :
    (f f' : FrameLevel) (up up' : FrameMap) (idx : ℕ) (run : Option (ℕ × FrameMap))
    → Zeroed f up idx f' up'
    → Serves (f' ∷ up') run
    → Serves (f ∷ up) run
after_zero f f' up up' idx run z (inl (i, maps, e, a)) = inl (
  i,
  maps,
  e,
  record {
    valid = a.valid;
    same_heights = a.same_heights ∙ ap₂ (λ h hs. h ∷ hs) z.same_height z.same_heights;
    in_range = subst (λ k. Fits ptentries k i) z.same_height a.in_range;
    counted = λ p. sym (z.same_copies p) ∙ a.counted p;
  },
)
after_zero f f' up up' idx run z (inr (e, gone)) = inr (
  e,
  λ p m. sym (z.same_copies p) ∙ gone p (subst (λ k. Fits ptentries k p) (sym z.same_height) m),
)

nothing_above :
    (k : ℕ) (up : FrameMap) (p : ℕ)
    → Under k up
    → ((q : ℕ) → Managed up q → copies up q ≡ 0)
    → Fits ptentries k p
    → copies up (p / ptentries) ≡ 0
nothing_above k [] p u gone m = refl
nothing_above k (g ∷ up) p u gone m = gone (p / ptentries) (subst (λ k'. Fits ptentries k' p) u m)

-- No frame on this level, and what the level above answers.
after_clean :
    (f : FrameLevel) (up : FrameMap) (run : Option (ℕ × FrameMap))
    → IsMaps (f ∷ up)
    → ((j : ℕ) → Fits ptentries f.height j → bit table_words f.frames 0 j ≡ false)
    → ((j : ℕ) → Fits ptentries f.height j → bit table_words f.tozero 0 j ≡ false)
    → Serves up run
    → Serves (f ∷ up) (run >>= split_frame f)
after_clean f up run v clear clean (inl (q, maps, e, a)) =
    let (maps', split, a') = take_split f up maps q v a clear in
    inl (q * ptentries, maps', ap (λ o. o >>= split_frame f) e ∙ split, a')
after_clean f up run v clear clean (inr (e, gone)) = inr (
  ap (λ o. o >>= split_frame f) e,
  λ p m.
      omega (
        arith,
        ap one_if (clear p m),
        ap one_if (clean p m),
        nothing_above f.height up p v.1 gone m,
      ),
)

not_below : (m idx : ℕ) (b : ℕ → Bool) → ((j : ℕ) → j < m → b j ≡ false) → b idx ≡ true → m ≤ idx
not_below m idx b clear on = elim (dec_lt idx m) [
  | yes lt ↦ absurd (true≢false (sym on ∙ clear idx lt))
  | no ge ↦ omega (arith, ge)
]

alloc_loop-Serves :
    (above : FrameMap → Option (ℕ × FrameMap)) (r : ℕ)
    → ((maps : FrameMap)
        → IsMaps maps
        → Once maps
        → length (heights maps) ≤ r
        → Serves maps (above maps))
    → (fuel m : ℕ) (f : FrameLevel) (up : FrameMap) → IsMaps (f ∷ up)
    → Once (f ∷ up)
    → length (heights up) ≤ r
    → ((j : ℕ) → j < m → bit table_words f.tozero 0 j ≡ false)
    → m ≤ ptentries ^ f.height
    → ptentries ^ f.height < fuel + m
    → Serves (f ∷ up) (alloc_loop above fuel (f ∷ up))
alloc_loop-Serves above r serves zero m f up v once small clean le enough = absurd (omega arith)
alloc_loop-Serves above r serves (suc fuel) m f up (v, under, va) once small clean le enough =
    elim (find-Finds f.height f.frames v.some_levels v.few_levels v.free_linked) [
      | finds idx e there fits free before ↦
          let (maps', run, a) = take_free f up idx (v, under, va) fits free in
          inl (idx, maps', loop_free above fuel f up idx (some (idx, maps')) e there run, a)
      | finds_none e clear ↦ elim (zero_internal-Zeroes f up (v, under, va) once) [
        | all_clean run none_dirty ↦
            subst (Serves (f ∷ up))
              (sym (loop_split above fuel f up (above up >>= split_frame f) e run refl))
              (after_clean f up (above up) (v, under, va) clear none_dirty
                (serves up va (above-Once f up once) small))
        | zeroed idx f' up' run z ↦
            let later : m ≤ idx = not_below m idx (bit table_words f.tozero 0) clean z.was_dirty in
            let same : ptentries ^ f'.height ≡ ptentries ^ f.height =
              ap (λ k. ptentries ^ k) z.same_height in
            subst (Serves (f ∷ up)) (sym (loop_zeroed above fuel f up (f' ∷ up') e run)) (
              after_zero f f' up up' idx (alloc_loop above fuel (f' ∷ up')) z (
                alloc_loop-Serves above r serves fuel (suc idx) f' up' z.valid
                  (λ p. omega (arith, z.same_copies p, once p))
                  (omega (arith, ap length z.same_heights, small)) z.now_clean
                  (omega (arith, same, Fits-lt ptentries f.height idx (omega arith) z.in_range))
                  (omega (arith, same, later, enough))))
      ]
    ]

pub alloc-Serves :
    (r : ℕ) (maps : FrameMap)
    → IsMaps maps
    → Once maps
    → length (heights maps) ≤ r
    → Serves maps (alloc r maps)
unfolding alloc alloc_loop
alloc-Serves zero [] v once small = inr (refl, λ p m. absurd m)
alloc-Serves zero (f ∷ up) v once small = absurd (omega arith)
alloc-Serves (suc r) [] v once small = inr (refl, λ p m. absurd m)
alloc-Serves (suc r) (f ∷ up) v once small =
    alloc_loop-Serves (alloc r) r (alloc-Serves r) (ptentries ^ f.height + 1) 0 f up v once
      (omega (arith, small)) (λ j lt. absurd (omega arith)) (omega arith) (omega arith)

-- For linked levels of at most 7 bitmap levels each, of which each has one bit for each bottom
-- map of the one below it, and in which no frame is counted twice, `alloc` within its fuel either
-- hands out a frame in range, after which that frame is counted no more and every other one as
-- before, and no frame twice, and the levels are linked; or it fails, and no frame in range is
-- counted.
pub alloc_lem :
    (maps : FrameMap)
    → IsMaps maps
    → Once maps
    → ((idx : ℕ) × (maps' : FrameMap) × (alloc (length (heights maps)) maps ≡ some (idx, maps'))
        × Allocated maps idx maps'
        × Once maps'
        × (copies maps' idx ≡ 0))
      ⊎ ((alloc (length (heights maps)) maps ≡ none)
          × ((p : ℕ) → Managed maps p → copies maps p ≡ 0))
alloc_lem maps v once = elim (alloc-Serves (length (heights maps)) maps v once (omega arith)) [
  | inr gone ↦ inr gone
  | inl (idx, maps', run, a) ↦
      let here : one_if (idx == idx) ≡ 1 = ap one_if ((==_iff idx idx).1 refl) in
      inl (
        idx,
        maps',
        run,
        a,
        (λ p. omega (arith, once p, a.counted p)),
        omega (arith, once idx, a.counted idx, here),
      )
]
