-- ===== src/FrameManager/Ranges.antt =====
-- `release` of src/kernel/FrameManager.h: a range of frames is to be zeroed, by large frames where it can be.
use kos_hspabla.Prelude.{
  ℕ, suc, ◌+◌, ◌-◌, ◌*◌, ◌/◌, ◌%◌, ◌^◌, ◌<◌, ◌≤◌, ◌==◌, ltb, leb, Bool, true, false, ◌&&◌, ◌≡◌,
  refl, sym, ◌∙◌, ap, arith, [], ◌∷◌, Option, some, ==_iff,
}
use kos_hspabla.Basics.{mword_mod, add_mword, aligned, align_down}
use kos_hspabla.Basics.Align.{align_down-eq}
use kos_hspabla.Hierarchy.Invariant.{bit, split_position}
use kos_hspabla.Hierarchy.Update.{set_lem}
use kos_hspabla.FrameManager.{
  FrameLevel, FrameMap, table_words, ptentries, mark_dirty, release_loop,
}
use kos_hspabla.FrameManager.Counts.{one_if, copies, IsMaps, heights, lt-Fits}
use kos_hspabla.FrameManager.Release.{count_set, none_zero}

abbrev pub inside : ℕ → ℕ → ℕ → Bool
inside idx cnt p = leb idx p && ltb p (idx + cnt)

abbrev pub InRange : FrameMap → ℕ → Type 0
InRange [] n = Unit
InRange (f ∷ up) n = n ≤ ptentries ^ f.height

abbrev pub Absent : FrameMap → ℕ → ℕ → Type 0
Absent maps idx cnt = (p : ℕ) → idx ≤ p → p < idx + cnt → copies maps p ≡ 0

-- The frames of the range are there now.
pub record Marked (maps : FrameMap) (idx cnt : ℕ) (maps' : FrameMap) : Type 0 where
  pub valid : IsMaps maps'
  pub same_heights : heights maps' ≡ heights maps
  pub counted : (p : ℕ) → copies maps' p ≡ copies maps p + one_if (inside idx cnt p)

-- A run of `release`; above the last level it refuses.
abbrev pub Marks : FrameMap → ℕ → ℕ → Option (Bool × FrameMap) → Type 0
Marks [] idx cnt run = run ≡ some (false, [])
Marks (f ∷ up) idx cnt run =
    (maps' : FrameMap) × (run ≡ some (true, maps')) × Marked (f ∷ up) idx cnt maps'

-- One frame.
pub record Dirtied (f : FrameLevel) (up : FrameMap) (idx : ℕ) (f' : FrameLevel) : Type 0 where
  pub run : mark_dirty f idx ≡ some f'
  pub valid : IsMaps (f' ∷ up)
  pub same_height : f'.height ≡ f.height
  pub counted : (p : ℕ) → copies (f' ∷ up) p ≡ copies (f ∷ up) p + one_if (idx == p)

pub mark_dirty-Dirtied :
    (f : FrameLevel) (up : FrameMap) (idx : ℕ)
    → IsMaps (f ∷ up)
    → idx < ptentries ^ f.height
    → copies (f ∷ up) idx ≡ 0
    → (f' : FrameLevel) × Dirtied f up idx f'
unfolding mark_dirty
mark_dirty-Dirtied f up idx (v, under, above) lt absent =
    let (tozero, run, linked, bits) =
      set_lem table_words f.height (omega arith) f.tozero idx v.dirty_linked v.some_levels
        (lt-Fits ptentries f.height idx (omega arith) lt) in
    (
      record f { tozero = tozero },
      record {
        run = rw run refl;
        valid = (
          record {
            some_levels = v.some_levels;
            few_levels = v.few_levels;
            free_linked = v.free_linked;
            dirty_linked = linked;
          },
          under,
          above,
        );
        same_height = refl;
        counted = λ p. omega (
          arith,
          ap one_if (bits p),
          count_set (idx == p) (bit table_words f.tozero 0 p) (λ e.
              ap (bit table_words f.tozero 0) (sym ((==_iff idx p).0 e))
              ∙ none_zero (bit table_words f.tozero 0 idx) (omega (arith, absent))),
        );
      },
    )

inside_one :
    (idx cnt p : ℕ)
    → 0 < cnt
    → one_if (idx == p) + one_if (inside (idx + 1) (cnt - 1) p) ≡ one_if (inside idx cnt p)
inside_one idx cnt p pos = ground arith

pub inside_none : (idx p : ℕ) → one_if (inside idx 0 p) ≡ 0
inside_none idx p = ground arith

inside_many :
    (idx cnt p : ℕ)
    → idx % ptentries ≡ 0
    → one_if (inside (idx / ptentries) (cnt / ptentries) (p / ptentries))
        + one_if (inside (idx + cnt / ptentries * ptentries) (cnt - cnt / ptentries * ptentries) p)
      ≡ one_if (inside idx cnt p)
inside_many idx cnt p al = ground arith

pub loop_done :
    (above : FrameMap → ℕ → ℕ → Option (Bool × FrameMap)) (fuel : ℕ) (f : FrameLevel)
    (up : FrameMap) (idx cnt : ℕ)
    → (cnt == 0) ≡ true
    → release_loop above (suc fuel) f up idx cnt ≡ some (true, f ∷ up)
unfolding release_loop
loop_done above fuel f up idx cnt done = rw done refl

pub loop_one :
    (above : FrameMap → ℕ → ℕ → Option (Bool × FrameMap)) (fuel : ℕ) (f f' : FrameLevel)
    (up : FrameMap) (idx cnt : ℕ)
    → (cnt == 0) ≡ false
    → (aligned idx ptentries && leb ptentries cnt) ≡ false
    → mark_dirty f idx ≡ some f'
    → idx + 1 < mword_mod
    → release_loop above (suc fuel) f up idx cnt ≡ release_loop above fuel f' up (idx + 1) (cnt - 1)
unfolding release_loop
loop_one above fuel f f' up idx cnt more small mark room =
    let next : add_mword idx 1 ≡ idx + 1 = omega (arith, room) in rw (more, small, mark, next) refl

pub loop_refused :
    (above : FrameMap → ℕ → ℕ → Option (Bool × FrameMap)) (fuel : ℕ) (f f' : FrameLevel)
    (up maps : FrameMap) (idx cnt : ℕ)
    → (cnt == 0) ≡ false
    → (aligned idx ptentries && leb ptentries cnt) ≡ true
    → above up (idx / ptentries) (cnt / ptentries) ≡ some (false, maps)
    → mark_dirty f idx ≡ some f'
    → idx + 1 < mword_mod
    → release_loop above (suc fuel) f up idx cnt
      ≡ release_loop above fuel f' maps (idx + 1) (cnt - 1)
unfolding release_loop
loop_refused above fuel f f' up maps idx cnt more large refused mark room =
    let next : add_mword idx 1 ≡ idx + 1 = omega (arith, room) in
    rw (more, large, refused, mark, next) refl

pub loop_many :
    (above : FrameMap → ℕ → ℕ → Option (Bool × FrameMap)) (fuel : ℕ) (f : FrameLevel)
    (up maps : FrameMap) (idx cnt : ℕ)
    → (cnt == 0) ≡ false
    → (aligned idx ptentries && leb ptentries cnt) ≡ true
    → above up (idx / ptentries) (cnt / ptentries) ≡ some (true, maps)
    → idx + cnt < mword_mod
    → release_loop above (suc fuel) f up idx cnt
      ≡ release_loop above fuel f maps
          (idx + cnt / ptentries * ptentries)
          (cnt - cnt / ptentries * ptentries)
unfolding release_loop
loop_many above fuel f up maps idx cnt more large taken room =
    let whole : align_down cnt ptentries ≡ cnt / ptentries * ptentries =
      align_down-eq cnt 9 (omega (arith, room)) (omega arith) in
    let next : add_mword idx (cnt / ptentries * ptentries) ≡ idx + cnt / ptentries * ptentries =
      omega (arith, room) in
    rw (more, large, taken, whole, next) refl

-- After the first round that marks one frame.
pub one_then_rest :
    (f f' : FrameLevel) (up : FrameMap) (idx cnt : ℕ) (run : Option (Bool × FrameMap))
    → 0 < cnt
    → Dirtied f up idx f'
    → Marks (f' ∷ up) (idx + 1) (cnt - 1) run
    → Marks (f ∷ up) idx cnt run
one_then_rest f f' up idx cnt run pos d (maps', e, m) = (
  maps',
  e,
  record {
    valid = m.valid;
    same_heights = m.same_heights ∙ ap (λ h. h ∷ heights up) d.same_height;
    counted = λ p. omega (arith, m.counted p, d.counted p, inside_one idx cnt p pos);
  },
)

pub rest_of_one :
    (f f' : FrameLevel) (up : FrameMap) (idx cnt : ℕ)
    → 0 < cnt
    → Dirtied f up idx f'
    → Absent (f ∷ up) idx cnt
    → Absent (f' ∷ up) (idx + 1) (cnt - 1)
rest_of_one f f' up idx cnt pos d absent p lo hi =
    let other : one_if (idx == p) ≡ 0 = ground (arith, lo) in
    omega (arith, d.counted p, other, absent p (omega (arith, lo)) (omega (arith, lo, hi)))

-- The frames of larger frames.
pub large_then_rest :
    (f : FrameLevel) (up maps : FrameMap) (idx cnt : ℕ) (run : Option (Bool × FrameMap))
    → idx % ptentries ≡ 0
    → Marked up (idx / ptentries) (cnt / ptentries) maps
    → Marks (f ∷ maps) (idx + cnt / ptentries * ptentries) (cnt - cnt / ptentries * ptentries) run
    → Marks (f ∷ up) idx cnt run
large_then_rest f up maps idx cnt run al large (maps', e, m) = (
  maps',
  e,
  record {
    valid = m.valid;
    same_heights = m.same_heights ∙ ap (λ hs. f.height ∷ hs) large.same_heights;
    counted =
        λ p. omega (arith, m.counted p, large.counted (p / ptentries), inside_many idx cnt p al);
  },
)

pub upper_range :
    (f : FrameLevel) (up : FrameMap) (idx cnt : ℕ)
    → idx % ptentries ≡ 0
    → Absent (f ∷ up) idx cnt
    → Absent up (idx / ptentries) (cnt / ptentries)
upper_range f up idx cnt al absent q lo hi =
    let (place, rest) = split_position ptentries q 0 (omega arith) in
    let same : copies up ((q * ptentries + 0) / ptentries) ≡ copies up q = ap (copies up) place in
    omega (arith, same, absent (q * ptentries + 0) (omega (arith, lo, al)) (omega (arith, hi, al)))

pub rest_range :
    (f : FrameLevel) (up maps : FrameMap) (idx cnt : ℕ)
    → idx % ptentries ≡ 0
    → Marked up (idx / ptentries) (cnt / ptentries) maps
    → Absent (f ∷ up) idx cnt
    → Absent (f ∷ maps) (idx + cnt / ptentries * ptentries) (cnt - cnt / ptentries * ptentries)
rest_range f up maps idx cnt al large absent p lo hi =
    let out : one_if (inside (idx / ptentries) (cnt / ptentries) (p / ptentries)) ≡ 0 =
      ground (arith, lo, al) in
    omega (
      arith,
      out,
      large.counted (p / ptentries),
      absent p (omega (arith, lo)) (omega (arith, lo, hi)),
    )
