-- ===== src/RegionSet/Change.antt =====
-- Removal from the set of src/generic/RegionSet.h.
use kos_hspabla.Prelude.{
  ℕ, suc, ◌<◌, ◌≤◌, Bool, true, false, not, ◌&&◌, ◌||◌, leb, ltb, if◌then◌else◌, ◌≡◌, refl, ap,
  arith, dec_lt, Bool-cases, ◌⊎◌, inl, inr, none, some, List, [], ◌∷◌,
}
use kos_hspabla.RegionSet.{Region, before, covers, set_insert, cut, remove_from, remove, answer}
use kos_hspabla.RegionSet.Order.{Apart, Apart-le, inside, has, set_insert-first}

-- Below the lower limit there is nothing.
pub has-below : (lo : ℕ) (xs : List Region) (p : ℕ) → Apart lo xs → p < lo → has xs p ≡ false
has-below lo [] p a lt = refl
has-below lo (x ∷ xs) p a lt =
    ground (arith, has-below (suc x.end) xs p a.2 (omega (arith, a.0, a.1)), a.0)

cut_upper :
    (lo : ℕ) (r t : Region) (xs : List Region)
    → r.start < r.end
    → r.end ≤ t.end
    → Apart (suc t.end) xs
    → (above : List Region) × ((if ltb r.end t.end
          then set_insert (record { start = r.end; end = t.end }) xs
          else xs)
        ≡ above)
      × Apart r.end above
      × ((p : ℕ) → has above p ≡ (leb r.end p && (ltb p t.end || has xs p)))
cut_upper lo r t xs full le a = elim (dec_lt r.end t.end) [
  | yes part ↦
      let test : ltb r.end t.end ≡ true = ground arith in
      (
        record { start = r.end; end = t.end } ∷ xs,
        rw test (set_insert-first (record { start = r.end; end = t.end }) xs a),
        (omega arith, part, a),
        λ p. ground (arith, has-below (suc t.end) xs p a),
      )
  | no whole ↦
      let test : ltb r.end t.end ≡ false = ground arith in
      (
        xs,
        rw test refl,
        Apart-le (suc t.end) r.end xs (omega arith) a,
        λ p. ground (arith, has-below (suc t.end) xs p a),
      )
]

pub cut_lem :
    (lo : ℕ) (r t : Region) (xs : List Region)
    → r.start < r.end
    → covers t r ≡ true
    → Apart lo (t ∷ xs)
    → Apart lo (cut r t xs) × ((p : ℕ) → has (cut r t xs) p ≡ (has (t ∷ xs) p && not (inside r p)))
unfolding cut covers
cut_lem lo r t xs full c a =
    let under : t.start ≤ r.start = ground arith in
    let over : r.end ≤ t.end = ground arith in
    let (above, e, apart, addresses) = cut_upper lo r t xs full over a.2 in
    elim (dec_lt t.start r.start) [
      | yes part ↦
          let test : ltb t.start r.start ≡ true = ground arith in
          let left : Region = record { start = t.start; end = r.start } in
          rw (test, e, set_insert-first left above (Apart-le r.end (suc r.start) above full apart))
            (
              (a.0, part, Apart-le r.end (suc r.start) above full apart),
              λ p. ground (arith, addresses p, has-below (suc t.end) xs p a.2),
            )
      | no whole ↦
          let test : ltb t.start r.start ≡ false = ground arith in
          rw (test, e)
            (
              Apart-le r.end lo above (omega (arith, a.0, a.1)) apart,
              λ p. ground (arith, addresses p, has-below (suc t.end) xs p a.2),
            )
    ]

-- A region that `x` meets but does not cover has an address outside.
missing :
    (lo : ℕ) (r x : Region) (xs : List Region)
    → r.start < r.end
    → Apart lo (x ∷ xs)
    → covers x r ≡ false
    → r.start ≤ x.end
    → (p : ℕ) × (inside r p ≡ true) × (has (x ∷ xs) p ≡ false)
unfolding covers
missing lo r x xs full a c le = elim (dec_lt r.start x.start) [
  | yes left ↦
      (r.start, ground arith, has-below x.start (x ∷ xs) r.start (omega arith, a.1, a.2) left)
  | no right ↦
      let low : x.end < r.end = ground arith in
      (x.end, ground arith, ground (arith, has-below (suc x.end) xs x.end a.2 (omega arith)))
]

-- A region that some region covers is taken out; if none does, an address of it is missing.
pub remove_from_lem :
    (lo : ℕ) (r : Region) (xs : List Region)
    → r.start < r.end
    → Apart lo xs
    → ((ys : List Region) × (remove_from r xs ≡ some ys)
        × Apart lo ys
        × ((p : ℕ) → has ys p ≡ (has xs p && not (inside r p))))
      ⊎ ((remove_from r xs ≡ none) × (p : ℕ) × (inside r p ≡ true) × (has xs p ≡ false))
unfolding remove_from before
remove_from_lem lo r [] full a = inr (refl, r.start, ground arith, refl)
remove_from_lem lo r (x ∷ xs) full a = elim (dec_lt x.end r.start) [
  | yes earlier ↦
      let test : ltb x.end r.start ≡ true = ground arith in
      elim (remove_from_lem (suc x.end) r xs full a.2) [
        | inl (ys, e, apart, addresses) ↦
            inl (x ∷ ys, rw (test, e) refl, (a.0, a.1, apart), λ p. ground (arith, addresses p))
        | inr (e, p, hit, miss) ↦ inr (rw (test, e) refl, p, hit, ground arith)
      ]
  | no meets ↦
      let test : ltb x.end r.start ≡ false = ground arith in
      elim (Bool-cases (covers x r)) [
        | inl c ↦
            let (apart, addresses) = cut_lem lo r x xs full c a in
            inl (cut r x xs, rw (test, c) refl, apart, addresses)
        | inr c ↦
            let (p, hit, miss) = missing lo r x xs full a c (omega arith) in
            inr (rw (test, c) refl, p, hit, miss)
      ]
]

-- For regions that are not empty and apart, and a region that is not empty, `remove` either
-- answers true and takes exactly the addresses of the region out of the set, with the regions
-- left so again, or some address of the region is not in the set and it leaves the set alone: it
-- answers false if `fault` is set and fails its assertion if not.
pub remove_lem :
    (fault : Bool) (r : Region) (set : List Region)
    → r.start < r.end
    → Apart 0 set
    → ((ys : List Region) × (remove fault r set ≡ some (true, ys))
        × Apart 0 ys
        × ((p : ℕ) → has ys p ≡ (has set p && not (inside r p))))
      ⊎ ((remove fault r set ≡ (if fault then some (false, set) else none))
          × (p : ℕ) × (inside r p ≡ true)
          × (has set p ≡ false))
unfolding remove
remove_lem fault r set full a = elim (remove_from_lem 0 r set full a) [
  | inl (ys, e, apart, addresses) ↦ inl (ys, ap (answer fault set) e, apart, addresses)
  | inr (e, p, hit, miss) ↦ inr (ap (answer fault set) e, p, hit, miss)
]
