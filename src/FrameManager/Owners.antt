-- ===== src/FrameManager/Owners.antt =====
-- The frames of src/kernel/FrameManager.h and their owners, in any order of calls.
use mathlib.Core.Path.{subst}
use mathlib.Core.Option.{some-injective}
use kos_hspabla.Prelude.{
  ℕ, ◌+◌, ◌/◌, ◌<◌, ◌≤◌, ◌==◌, Bool, true, false, if◌then◌else◌, ◌≡◌, refl, sym, ◌∙◌, ap, arith, [],
  ◌∷◌, some, none, inl, inr, ◌⊎◌, length, ==_iff,
}
use kos_hspabla.FrameManager.{
  FrameLevel, FrameMap, ptentries, zero_internal, zero_any, release, alloc,
}
use kos_hspabla.FrameManager.Counts.{one_if, copies, IsMaps, heights, heights-Under, Managed, Once}
use kos_hspabla.FrameManager.Release.{count_set, count_clear}
use kos_hspabla.FrameManager.Zero.{zeroed, all_clean, zero_internal-Zeroes}
use kos_hspabla.FrameManager.Alloc.{Allocated, above-Once, alloc-Serves}
use kos_hspabla.FrameManager.Ranges.{inside, InRange, Absent, Marked}
use kos_hspabla.FrameManager.Marking.{release-Marks}

-- A run of `zero` that changes no count.
record Zeroing (maps : FrameMap) : Type 0 where
  found : Bool
  after : FrameMap
  run : zero_any maps ≡ some (found, after)
  valid : IsMaps after
  same_heights : heights after ≡ heights maps
  same_copies : (p : ℕ) → copies after p ≡ copies maps p

zero_here :
    (f : FrameLevel) (up maps : FrameMap)
    → zero_internal (f ∷ up) ≡ some (true, maps)
    → zero_any (f ∷ up) ≡ some (true, maps)
unfolding zero_any
zero_here f up maps e = rw e refl

zero_above :
    (f : FrameLevel) (up maps : FrameMap) (b : Bool)
    → zero_internal (f ∷ up) ≡ some (false, f ∷ up)
    → zero_any up ≡ some (b, maps)
    → zero_any (f ∷ up) ≡ some (b, f ∷ maps)
unfolding zero_any
zero_above f up maps b e e' = rw (e, e') refl

zero_any-Zeroing : (maps : FrameMap) → IsMaps maps → Once maps → Zeroing maps
unfolding zero_any
zero_any-Zeroing [] v once = record {
  found = false;
  after = [];
  run = refl;
  valid = v;
  same_heights = refl;
  same_copies = λ p. refl;
}
zero_any-Zeroing (f ∷ up) (v, under, va) once =
    elim (zero_internal-Zeroes f up (v, under, va) once) [
      | zeroed idx f' up' e z ↦ record {
        found = true;
        after = f' ∷ up';
        run = zero_here f up (f' ∷ up') e;
        valid = z.valid;
        same_heights =
            ap (λ h. h ∷ heights up') z.same_height ∙ ap (λ hs. f.height ∷ hs) z.same_heights;
        same_copies = z.same_copies;
      }
      | all_clean e clean ↦
          let z = zero_any-Zeroing up va (above-Once f up once) in
          record {
            found = z.found;
            after = f ∷ z.after;
            run = zero_above f up z.after z.found e z.run;
            valid = (v, heights-Under f.height up z.after z.same_heights under, z.valid);
            same_heights = ap (λ hs. f.height ∷ hs) z.same_heights;
            same_copies = λ p. omega (arith, z.same_copies (p / ptentries));
          }
    ]

abbrev pub levels : FrameMap → ℕ
levels maps = length (heights maps)

pub record Memory : Type 0 where
  pub maps : FrameMap
  pub owned : ℕ → Bool

-- A frame is allocated, a larger frame is, a range that is owned is given back, a frame is zeroed.
pub data MemoryStep : Memory → Memory → Type 0 where
  allocates :
      (maps maps' : FrameMap) (owned : ℕ → Bool) (idx : ℕ)
      → alloc (levels maps) maps ≡ some (idx, maps')
      → MemoryStep
          (record { maps = maps; owned = owned })
          (record { maps = maps'; owned = λ p. if idx == p then true else owned p })
  allocates_large :
      (f : FrameLevel) (up up' : FrameMap) (owned : ℕ → Bool) (q : ℕ)
      → alloc (levels up) up ≡ some (q, up')
      → MemoryStep
          (record { maps = f ∷ up; owned = owned })
          (record { maps = f ∷ up'; owned = λ p. if q == p / ptentries then true else owned p })
  gives_back :
      (f : FrameLevel) (up maps' : FrameMap) (owned : ℕ → Bool) (idx cnt : ℕ) (b : Bool)
      → ((p : ℕ) → idx ≤ p → p < idx + cnt → owned p ≡ true)
      → InRange (f ∷ up) (idx + cnt)
      → release (levels (f ∷ up)) (f ∷ up) idx cnt ≡ some (b, maps')
      → MemoryStep
          (record { maps = f ∷ up; owned = owned })
          (record { maps = maps'; owned = λ p. if inside idx cnt p then false else owned p })
  zeroes :
      (maps maps' : FrameMap) (owned : ℕ → Bool) (b : Bool)
      → zero_any maps ≡ some (b, maps')
      → MemoryStep (record { maps = maps; owned = owned }) (record { maps = maps'; owned = owned })

pub data MemoryReachable (start : FrameMap) : Memory → Type 0 where
  unused : MemoryReachable start (record { maps = start; owned = λ p. false })
  then_step : (s s' : Memory) → MemoryReachable start s → MemoryStep s s' → MemoryReachable start s'

-- Each frame of the start is there or has an owner.
pub record Shared (start : FrameMap) (s : Memory) : Type 0 where
  pub valid : IsMaps s.maps
  pub same_heights : heights s.maps ≡ heights start
  pub once : (p : ℕ) → copies s.maps p + one_if (s.owned p) ≡ copies start p

Shared-Once : (start : FrameMap) (s : Memory) → Once start → Shared start s → Once s.maps
Shared-Once start s once v p = omega (arith, once p, v.once p)

-- What a caller gets had no owner.
not_owned :
    (c c' total : ℕ) (b e : Bool)
    → c + one_if b ≡ total
    → total ≤ 1
    → c ≡ c' + one_if e
    → e ≡ true
    → b ≡ false
not_owned c c' total true true h small e on = absurd (omega arith)
not_owned c c' total true false h small e on = cc
not_owned c c' total false e h small eq on = refl

take_count :
    (c c' total : ℕ) (b e : Bool)
    → c + one_if b ≡ total
    → total ≤ 1
    → c ≡ c' + one_if e
    → c' + one_if (if e then true else b) ≡ total
take_count c c' total b e h small eq =
    omega (arith, h, eq, count_set e b (not_owned c c' total b e h small eq))

give_count :
    (c c' total : ℕ) (b e : Bool)
    → c + one_if b ≡ total
    → c' ≡ c + one_if e
    → (e ≡ true → b ≡ true)
    → c' + one_if (if e then false else b) ≡ total
give_count c c' total b e h eq on = omega (arith, h, eq, count_clear e b on)

alloc-Allocated :
    (maps : FrameMap) (idx : ℕ) (maps' : FrameMap)
    → IsMaps maps
    → Once maps
    → alloc (levels maps) maps ≡ some (idx, maps')
    → Allocated maps idx maps'
alloc-Allocated maps idx maps' v once e =
    elim (alloc-Serves (levels maps) maps v once (omega arith)) [
      | inl (i, m, run, a) ↦
          subst (λ (r : ℕ × FrameMap). Allocated maps r.0 r.1)
            (some-injective (i, m) (idx, maps') (sym run ∙ e)) a
      | inr (run, gone) ↦ cc
    ]

release-Marked :
    (f : FrameLevel) (up maps' : FrameMap) (idx cnt : ℕ) (b : Bool)
    → IsMaps (f ∷ up)
    → InRange (f ∷ up) (idx + cnt)
    → Absent (f ∷ up) idx cnt
    → release (levels (f ∷ up)) (f ∷ up) idx cnt ≡ some (b, maps')
    → Marked (f ∷ up) idx cnt maps'
release-Marked f up maps' idx cnt b v room absent e =
    let (m, run, marked) =
      release-Marks (levels (f ∷ up)) (f ∷ up) idx cnt v (omega arith) room absent in
    subst (λ (r : Bool × FrameMap). Marked (f ∷ up) idx cnt r.1)
      (some-injective (true, m) (b, maps') (sym run ∙ e)) marked

inside_at : (idx cnt p : ℕ) → inside idx cnt p ≡ true → (idx ≤ p) × (p < idx + cnt)
inside_at idx cnt p h = ground arith

MemoryStep-Shared :
    (start : FrameMap) (s s' : Memory)
    → Once start
    → MemoryStep s s'
    → Shared start s
    → Shared start s'
MemoryStep-Shared start _ _ once (allocates maps maps' owned idx e) v =
    let a =
      alloc-Allocated maps idx maps' v.valid
        (Shared-Once start (record { maps = maps; owned = owned }) once v) e in
    record {
      valid = a.valid;
      same_heights = a.same_heights ∙ v.same_heights;
      once = λ p.
          take_count (copies maps p) (copies maps' p) (copies start p) (owned p) (idx == p)
            (v.once p) (once p) (a.counted p);
    }
MemoryStep-Shared start _ _ once (allocates_large f up up' owned q e) v =
    let all = Shared-Once start (record { maps = f ∷ up; owned = owned }) once v in
    let a = alloc-Allocated up q up' v.valid.2 (above-Once f up all) e in
    record {
      valid = (v.valid.0, heights-Under f.height up up' a.same_heights v.valid.1, a.valid);
      same_heights = ap (λ hs. f.height ∷ hs) a.same_heights ∙ v.same_heights;
      once = λ p.
          take_count (copies (f ∷ up) p) (copies (f ∷ up') p) (copies start p) (owned p)
            (q == p / ptentries) (v.once p) (once p) (omega (arith, a.counted (p / ptentries)));
    }
MemoryStep-Shared start _ _ once (gives_back f up maps' owned idx cnt b mine room e) v =
    let absent : Absent (f ∷ up) idx cnt =
      λ p lo hi. omega (arith, v.once p, once p, ap one_if (mine p lo hi)) in
    let m = release-Marked f up maps' idx cnt b v.valid room absent e in
    record {
      valid = m.valid;
      same_heights = m.same_heights ∙ v.same_heights;
      once = λ p.
          give_count (copies (f ∷ up) p) (copies maps' p) (copies start p) (owned p)
            (inside idx cnt p) (v.once p) (m.counted p)
            (λ on. mine p (inside_at idx cnt p on).0 (inside_at idx cnt p on).1);
    }
MemoryStep-Shared start _ _ once (zeroes maps maps' owned b e) v =
    let z =
      zero_any-Zeroing maps v.valid
        (Shared-Once start (record { maps = maps; owned = owned }) once v) in
    subst (λ (r : Bool × FrameMap). Shared start (record { maps = r.1; owned = owned }))
      (some-injective (z.found, z.after) (b, maps') (sym z.run ∙ e))
      (record {
        valid = z.valid;
        same_heights = z.same_heights ∙ v.same_heights;
        once = λ p. omega (arith, v.once p, z.same_copies p);
      })

reachable-Shared :
    (start : FrameMap) (s : Memory)
    → IsMaps start
    → Once start
    → MemoryReachable start s
    → Shared start s
reachable-Shared start _ valid once unused = record {
  valid = valid;
  same_heights = refl;
  once = λ p. omega arith;
}
reachable-Shared start _ valid once (then_step s s' r step) =
    MemoryStep-Shared start s s' once step (reachable-Shared start s valid once r)

-- From levels that are linked and fit each other and in which no frame of the lowest level is
-- counted twice, after any sequence of allocations of frames and of frames of the next level, of
-- giving back ranges that are owned and in range, and of zeroing, each frame is counted by the
-- maps and its owner together exactly as often as at the start; and `alloc` then either hands out
-- a frame that has no owner and was counted once at the start, or it fails and every frame in
-- range that was there at the start has an owner.
pub exclusive_frames :
    (start : FrameMap)
    → IsMaps start
    → Once start
    → (s : Memory) → MemoryReachable start s
    → ((p : ℕ) → copies s.maps p + one_if (s.owned p) ≡ copies start p)
      × (((idx : ℕ) × (maps' : FrameMap) × (alloc (levels s.maps) s.maps ≡ some (idx, maps'))
            × (s.owned idx ≡ false)
            × (copies start idx ≡ 1))
          ⊎ ((alloc (levels s.maps) s.maps ≡ none)
              × ((p : ℕ) → Managed s.maps p → copies start p ≡ one_if (s.owned p))))
exclusive_frames start valid once s r =
    let v = reachable-Shared start s valid once r in
    (
      v.once,
      elim (alloc-Serves (levels s.maps) s.maps v.valid (Shared-Once start s once v)
          (omega arith)) [
            | inl (idx, maps', run, a) ↦
                let here : one_if (idx == idx) ≡ 1 = ap one_if ((==_iff idx idx).1 refl) in
                inl (
                  idx,
                  maps',
                  run,
                  not_owned (copies s.maps idx) (copies maps' idx) (copies start idx) (s.owned idx)
                      (idx == idx) (v.once idx) (once idx) (a.counted idx)
                      ((==_iff idx idx).1 refl),
                  omega (arith, v.once idx, once idx, a.counted idx, here),
                )
            | inr (run, gone) ↦ inr (run, λ p m. omega (arith, v.once p, gone p m))
          ],
    )
