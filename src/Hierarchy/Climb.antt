-- ===== src/Hierarchy/Climb.antt =====
-- The climb and descent of the searches of `class HierarchicalBitmap` in src/generic/Bitmap.h.
use native.Mathlib.Nat.{le-div_iff_mul-le}
use kos_hspabla.Prelude.{
  ℕ, zero, suc, ◌+◌, ◌-◌, ◌*◌, ◌/◌, ◌%◌, ◌<◌, ◌≤◌, true, false, ◌==◌, if◌then◌else◌, ◌≡◌, refl, sym,
  ◌∙◌, ap, arith, dec_lt, ℕ_discrete, Option, some,
}
use kos_hspabla.Basics.{mword_mod, add_mword}
use kos_hspabla.Bitmap
use kos_hspabla.Hierarchy
use kos_hspabla.Hierarchy.{Hierarchy, map_bits}
use kos_hspabla.Hierarchy.Invariant.{above, IsLinked, position}
use kos_hspabla.Hierarchy.Levels.{above-suc, above-le}
use kos_hspabla.Hierarchy.Find.{Target, find_hit, find_miss, in_map, whole, later_map}

module _ (n L : ℕ) (pos : 0 < n) (small : map_bits n < mword_mod) where
  -- One call that hits in a map.
  hit_step :
      (f : ℕ) (h : Hierarchy) (sidx ridx l q : ℕ)
      → l < L
      → q < mword_mod
      → Bitmap.find n (h l sidx) true ridx < map_bits n
      → sidx * map_bits n + Bitmap.find n (h l sidx) true ridx ≡ q
      → Hierarchy.find_from n L (suc f) h true sidx ridx l
        ≡ (if l == 0 then some q else Hierarchy.find_from n L f h true q 0 (l - 1))
  unfolding Hierarchy.find_from
  hit_step f h sidx ridx l q lt word inside e =
      let place : add_mword (sidx * map_bits n % mword_mod) (Bitmap.find n (h l sidx) true ridx)
          ≡ q =
        omega arith in
      let level : (l == L) ≡ false = ground arith in
      let hit : (Bitmap.find n (h l sidx) true ridx == map_bits n) ≡ false = ground arith in
      rw (level, hit, place) refl

  -- One call that does not.
  pub miss_step :
      (f : ℕ) (h : Hierarchy) (sidx ridx l : ℕ)
      → l < L
      → suc sidx < mword_mod
      → Bitmap.find n (h l sidx) true ridx ≡ map_bits n
      → Hierarchy.find_from n L (suc f) h true sidx ridx l
        ≡ Hierarchy.find_from n L f h true (suc sidx / map_bits n) (suc sidx % map_bits n) (suc l)
  unfolding Hierarchy.find_from
  miss_step f h sidx ridx l lt word e =
      let next : add_mword sidx 1 ≡ suc sidx = omega arith in
      let level : (l == L) ≡ false = ground arith in
      let miss : (Bitmap.find n (h l sidx) true ridx == map_bits n) ≡ true = ground arith in
      rw (level, miss, next) refl

  module _ {h : Hierarchy} (v : IsLinked n L h) (p : ℕ) (word : p < mword_mod) where
    abbrev q_of : ℕ → ℕ
    q_of l = above (map_bits n) l p

    -- The target seen from one level further down.
    down-Target :
        (l st : ℕ)
        → Target n L pos small h (suc l) st p
        → Target n L pos small h l (q_of (suc l) * map_bits n + 0) p
    down-Target l st t = record {
      in_range = t.in_range;
      not_below = omega (
        arith,
        (whole n L pos small v p word l).0,
        ap (λ a. a * map_bits n) (above-suc (map_bits n) l p),
      );
      on = t.on;
      first = λ j a b.
          let before : above (map_bits n) l j / map_bits n < q_of (suc l) =
            omega (arith, t.first j a b, t.not_below, above-suc (map_bits n) l j) in
          below_map (above (map_bits n) l j) (q_of (suc l)) before;
    }
      where
        below_map : (x q : ℕ) → x / map_bits n < q → x < q * map_bits n + 0
        below_map x q lt = elim (dec_lt x (q * map_bits n)) [
          | yes y ↦ omega arith
          | no ge ↦ absurd (
              omega (
                arith,
                (le-div_iff_mul-le {k = map_bits n} {x = q} {y = x} (omega arith)).1 (omega arith),
              ))
        ]

    -- From the map of level `l` above the target the search goes down to it.
    find_down_to :
        (l k f sidx ridx : ℕ)
        → l + suc k ≡ L
        → l < f
        → ridx < map_bits n
        → Target n L pos small h l (sidx * map_bits n + ridx) p
        → q_of l / map_bits n ≡ sidx
        → Hierarchy.find_from n L f h true sidx ridx l ≡ some p
    find_down_to l k zero sidx ridx range fuel rlt t same = absurd (omega arith)
    find_down_to zero k (suc f) sidx ridx range fuel rlt t same =
        hit_step f h sidx ridx 0 p (omega arith) word
          (omega (arith, e, (whole n L pos small v p word 0).1))
          (omega (arith, e, in_map n L pos small v p word 0 sidx same))
      where
        e : Bitmap.find n (h 0 sidx) true ridx ≡ q_of 0 % map_bits n
        e = find_hit n L pos small v p word 0 k sidx ridx range rlt t same
    find_down_to (suc l) k (suc f) sidx ridx range fuel rlt t same =
        hit_step f h sidx ridx (suc l) (q_of (suc l)) (omega arith)
          (omega (arith, above-le (map_bits n) (suc l) p))
          (omega (arith, e, (whole n L pos small v p word (suc l)).1))
          (ap (λ a. sidx * map_bits n + a) e ∙ in_map n L pos small v p word (suc l) sidx same)
        ∙ (if_upper (some (q_of (suc l)))
              (Hierarchy.find_from n L f h true (q_of (suc l)) 0 (suc l - 1))
            ∙ (ap (Hierarchy.find_from n L f h true (q_of (suc l)) 0) lower
                ∙ find_down_to l (suc k) f (q_of (suc l)) 0 (omega arith) (omega arith)
                    (omega arith) (down-Target l (sidx * map_bits n + ridx) t)
                    (sym (above-suc (map_bits n) l p))))
      where
        e : Bitmap.find n (h (suc l) sidx) true ridx ≡ q_of (suc l) % map_bits n
        e = find_hit n L pos small v p word (suc l) k sidx ridx range rlt t same

        lower : suc l - 1 ≡ l
        lower = omega arith

        if_upper : (a c : Option ℕ) → (if suc l == 0 then a else c) ≡ c
        if_upper a c = ground arith

    -- The target seen from the next map of the level above.
    up-Target :
        (l sidx ridx : ℕ)
        → ridx < map_bits n
        → Target n L pos small h l (sidx * map_bits n + ridx) p
        → suc sidx ≤ q_of l / map_bits n
        → Target n L pos small h
            (suc l)
            (suc sidx / map_bits n * map_bits n + suc sidx % map_bits n)
            p
    up-Target l sidx ridx rlt t later = record {
      in_range = t.in_range;
      not_below = omega (arith, later, start, above-suc (map_bits n) l p);
      on = t.on;
      first = λ j a b. omega (
        arith,
        start,
        passed (above (map_bits n) l j) (t.first j a b),
        above-suc (map_bits n) l j,
      );
    }
      where
        start : suc sidx / map_bits n * map_bits n + suc sidx % map_bits n ≡ suc sidx
        start = (position (map_bits n) (suc sidx) (omega arith)).0

        passed : (x : ℕ) → x < sidx * map_bits n + ridx → x / map_bits n < suc sidx
        passed x lt = elim (dec_lt (x / map_bits n) (suc sidx)) [
          | yes y ↦ y
          | no ge ↦ absurd (
              omega (
                arith,
                (le-div_iff_mul-le {k = map_bits n} {x = suc sidx} {y = x} (omega arith)).0
                    (omega arith),
              ))
        ]

    -- Wherever the target is, the search climbs until a map holds it.
    pub find_up_to :
        (k l f sidx ridx : ℕ)
        → l + suc k ≡ L
        → L + k < f
        → ridx < map_bits n
        → Target n L pos small h l (sidx * map_bits n + ridx) p
        → Hierarchy.find_from n L f h true sidx ridx l ≡ some p
    find_up_to k l zero sidx ridx range fuel rlt t = absurd (omega arith)
    find_up_to zero l (suc f) sidx ridx range fuel rlt t =
        elim (ℕ_discrete (q_of l / map_bits n) sidx) [
          | yes same ↦ find_down_to l 0 (suc f) sidx ridx range (omega arith) rlt t same
          | no other ↦
              let top : q_of l / map_bits n ≡ 0 =
                sym (above-suc (map_bits n) l p)
                ∙ (let levels : suc l ≡ L = omega arith in
                    ap (λ m. above (map_bits n) m p) levels ∙ t.in_range) in
              absurd (
                omega
                  (arith, top, (later_map n L pos small v p word l sidx ridx t.not_below other).0))
        ]
    find_up_to (suc k) l (suc f) sidx ridx range fuel rlt t =
        elim (ℕ_discrete (q_of l / map_bits n) sidx) [
          | yes same ↦ find_down_to l (suc k) (suc f) sidx ridx range (omega arith) rlt t same
          | no other ↦
              let later = (later_map n L pos small v p word l sidx ridx t.not_below other).0 in
              let next : suc sidx < mword_mod =
                omega (arith, later, above-suc (map_bits n) l p, above-le (map_bits n) (suc l) p) in
              miss_step f h sidx ridx l (omega arith) next
                (find_miss n L pos small v p word l (suc k) sidx ridx range rlt t other)
              ∙ find_up_to k (suc l) f (suc sidx / map_bits n) (suc sidx % map_bits n) (omega arith)
                  (omega arith) (position (map_bits n) (suc sidx) (omega arith)).1
                  (up-Target l sidx ridx rlt t later)
        ]
