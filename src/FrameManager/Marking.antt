-- ===== src/FrameManager/Marking.antt =====
-- The whole loop of `release` in src/kernel/FrameManager.h, level by level.
use mathlib.Core.Path.{subst}
use native.Mathlib.Nat.{pow-suc}
use kos_hspabla.Prelude.{
  ℕ, zero, suc, ◌+◌, ◌-◌, ◌*◌, ◌/◌, ◌%◌, ◌^◌, ◌<◌, ◌≤◌, ◌==◌, leb, Bool, true, false, ◌&&◌, ◌≡◌,
  refl, sym, ap, arith, [], ◌∷◌, Option, inl, inr, Bool-cases, length, leb→le,
}
use kos_hspabla.Basics.{aligned}
use kos_hspabla.Basics.Align.{aligned_iff}
use kos_hspabla.FrameManager.{FrameLevel, FrameMap, ptentries, release_loop, release}
use kos_hspabla.FrameManager.Counts.{one_if, IsMaps, Under, heights, heights-Under, pow_small}
use kos_hspabla.FrameManager.Ranges.{
  InRange, Absent, Marked, Marks, Dirtied, mark_dirty-Dirtied, inside, inside_none, loop_done,
  loop_one, loop_refused, loop_many, one_then_rest, rest_of_one, large_then_rest, upper_range,
  rest_range,
}

both_true : (a b : Bool) → (a && b) ≡ true → (a ≡ true) × (b ≡ true)
both_true true b h = (refl, h)
both_true false b h = cc

-- A round that marks one frame.
one_round :
    (f : FrameLevel) (up : FrameMap) (idx cnt : ℕ) (run : Option (Bool × FrameMap))
    (run' : FrameLevel → Option (Bool × FrameMap))
    → IsMaps (f ∷ up)
    → 0 < cnt
    → idx + cnt ≤ ptentries ^ f.height
    → Absent (f ∷ up) idx cnt
    → ((f' : FrameLevel) → Dirtied f up idx f' → run ≡ run' f')
    → ((f' : FrameLevel) → Dirtied f up idx f' → Marks (f' ∷ up) (idx + 1) (cnt - 1) (run' f'))
    → Marks (f ∷ up) idx cnt run
one_round f up idx cnt run run' v pos room absent same later =
    let (f', d) =
      mark_dirty-Dirtied f up idx v (omega (arith, room, pos))
        (absent idx (omega arith) (omega (arith, pos))) in
    subst (Marks (f ∷ up) idx cnt) (sym (same f' d))
      (one_then_rest f f' up idx cnt (run' f') pos d (later f' d))

-- A round at the start of a larger frame: of the last level, and of one below another.
large_round :
    (above : FrameMap → ℕ → ℕ → Option (Bool × FrameMap)) (fuel : ℕ) (f : FrameLevel)
    (up : FrameMap) (idx cnt : ℕ)
    → IsMaps (f ∷ up)
    → 0 < cnt
    → idx + cnt ≤ ptentries ^ f.height
    → Absent (f ∷ up) idx cnt
    → (aligned idx ptentries && leb ptentries cnt) ≡ true
    → Marks up (idx / ptentries) (cnt / ptentries) (above up (idx / ptentries) (cnt / ptentries))
    → ((f' : FrameLevel)
        → Dirtied f up idx f'
        → Marks (f' ∷ up) (idx + 1) (cnt - 1) (release_loop above fuel f' up (idx + 1) (cnt - 1)))
    → ((maps : FrameMap)
        → Marked up (idx / ptentries) (cnt / ptentries) maps
        → Marks (f ∷ maps) (idx + cnt / ptentries * ptentries) (cnt - cnt / ptentries * ptentries) (
            release_loop above fuel f maps
              (idx + cnt / ptentries * ptentries)
              (cnt - cnt / ptentries * ptentries)))
    → Marks (f ∷ up) idx cnt (release_loop above (suc fuel) f up idx cnt)
large_round above fuel f [] idx cnt v pos room absent large refused later behind =
    one_round f [] idx cnt (release_loop above (suc fuel) f [] idx cnt)
      (λ f'. release_loop above fuel f' [] (idx + 1) (cnt - 1)) v pos room absent
      (λ f' d.
        loop_refused above fuel f f' [] [] idx cnt (ground (arith, pos)) large refused d.run
          (omega (arith, room, pos, pow_small f.height v.0.few_levels)))
      later
large_round above fuel f (g ∷ up) idx cnt v pos room absent large (maps, taken, marked) later
      behind =
    let al =
      (aligned_iff idx 9 (omega arith)).0
        (both_true (aligned idx ptentries) (leb ptentries cnt) large).0 in
    subst (Marks (f ∷ g ∷ up) idx cnt)
      (sym (
        loop_many above fuel f (g ∷ up) maps idx cnt (ground (arith, pos)) large taken
          (omega (arith, room, pow_small f.height v.0.few_levels))))
      (large_then_rest f (g ∷ up) maps idx cnt
        (release_loop above fuel f maps (idx + cnt / ptentries * ptentries)
          (cnt - cnt / ptentries * ptentries))
        al marked (behind maps marked))

-- The larger frames are in range too.
upper_bound :
    (k : ℕ) (up : FrameMap) (idx cnt : ℕ)
    → Under k up
    → idx + cnt ≤ ptentries ^ k
    → idx % ptentries ≡ 0
    → InRange up (idx / ptentries + cnt / ptentries)
upper_bound k [] idx cnt u room al = record {}
upper_bound k (g ∷ up) idx cnt u room al =
    omega (arith, room, al, ap (λ (m : ℕ). ptentries ^ m) u, pow-suc ptentries g.height)

release_loop-Marks :
    (above : FrameMap → ℕ → ℕ → Option (Bool × FrameMap)) (r : ℕ)
    → ((maps : FrameMap) (idx cnt : ℕ)
        → IsMaps maps
        → length (heights maps) ≤ r
        → InRange maps (idx + cnt)
        → Absent maps idx cnt
        → Marks maps idx cnt (above maps idx cnt))
    → (fuel : ℕ) (f : FrameLevel) (up : FrameMap) (idx cnt : ℕ) → IsMaps (f ∷ up)
    → length (heights up) ≤ r
    → idx + cnt ≤ ptentries ^ f.height
    → Absent (f ∷ up) idx cnt
    → cnt < fuel
    → Marks (f ∷ up) idx cnt (release_loop above fuel f up idx cnt)
release_loop-Marks above r marks zero f up idx cnt v small room absent enough = absurd (omega arith)
release_loop-Marks above r marks (suc fuel) f up idx cnt (v, under, va) small room absent enough =
    elim (Bool-cases (cnt == 0)) [
      | inl done ↦
          let none : cnt ≡ 0 = ground (arith, done) in
          (
            f ∷ up,
            loop_done above fuel f up idx cnt done,
            record {
              valid = (v, under, va);
              same_heights = refl;
              counted =
                  λ p. omega (arith, ap (λ c. one_if (inside idx c p)) none, inside_none idx p);
            },
          )
      | inr more ↦
          let pos : 0 < cnt = ground (arith, more) in
          let later : (f' : FrameLevel)
              → Dirtied f up idx f'
              → Marks (f' ∷ up) (idx + 1) (cnt - 1)
                  (release_loop above fuel f' up (idx + 1) (cnt - 1)) =
            λ f' d.
              release_loop-Marks above r marks fuel f' up (idx + 1) (cnt - 1) d.valid small
                (omega (arith, room, pos, ap (λ (k : ℕ). ptentries ^ k) d.same_height))
                (rest_of_one f f' up idx cnt pos d absent) (omega (arith, enough, pos)) in
          elim (Bool-cases (aligned idx ptentries && leb ptentries cnt)) [
            | inr alone ↦
                one_round f up idx cnt (release_loop above (suc fuel) f up idx cnt)
                  (λ f'. release_loop above fuel f' up (idx + 1) (cnt - 1)) (v, under, va) pos room
                  absent
                  (λ f' d.
                    loop_one above fuel f f' up idx cnt more alone d.run
                      (omega (arith, room, pos, pow_small f.height v.few_levels)))
                  later
            | inl large ↦
                let al =
                  (aligned_iff idx 9 (omega arith)).0
                    (both_true (aligned idx ptentries) (leb ptentries cnt) large).0 in
                let enough_left : ptentries ≤ cnt =
                  leb→le ptentries cnt
                    (both_true (aligned idx ptentries) (leb ptentries cnt) large).1 in
                large_round above fuel f up idx cnt (v, under, va) pos room absent large
                  (marks up (idx / ptentries) (cnt / ptentries) va small
                    (upper_bound f.height up idx cnt under room al)
                    (upper_range f up idx cnt al absent))
                  later
                  (λ maps m.
                    release_loop-Marks above r marks fuel f maps (idx + cnt / ptentries * ptentries)
                      (cnt - cnt / ptentries * ptentries)
                      (v, heights-Under f.height up maps m.same_heights under, m.valid)
                      (omega (arith, small, ap length m.same_heights)) (omega (arith, room))
                      (rest_range f up maps idx cnt al m absent)
                      (omega (arith, enough, enough_left)))
          ]
    ]

-- For levels that are linked and fit each other, and a range that is in range and counted
-- nowhere, `release` within its fuel fails no assertion: above the last level it returns false;
-- otherwise it returns true, and the frames of the range, and no others, are counted once more,
-- whether they were marked one by one or as larger frames.
pub release-Marks :
    (r : ℕ) (maps : FrameMap) (idx cnt : ℕ)
    → IsMaps maps
    → length (heights maps) ≤ r
    → InRange maps (idx + cnt)
    → Absent maps idx cnt
    → Marks maps idx cnt (release r maps idx cnt)
unfolding release
release-Marks zero [] idx cnt v small room absent = refl
release-Marks zero (f ∷ up) idx cnt v small room absent = absurd (omega arith)
release-Marks (suc r) [] idx cnt v small room absent = refl
release-Marks (suc r) (f ∷ up) idx cnt v small room absent =
    release_loop-Marks (release r) r (release-Marks r) (cnt + 1) f up idx cnt v
      (omega (arith, small)) room absent (omega arith)
