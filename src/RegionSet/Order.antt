-- ===== src/RegionSet/Order.antt =====
-- The order that src/generic/RegionSet.h keeps: regions are not empty, and between two of them there
-- is an address that is in none.
use kos_hspabla.Prelude.{
  ℕ, suc, ◌<◌, ◌≤◌, Bool, true, false, ◌&&◌, ◌||◌, leb, ltb, ◌≡◌, refl, ◌∙◌, ap, arith, dec_lt,
  dec_le, List, [], ◌∷◌,
}
use kos_hspabla.RegionSet.{Region, before, set_insert, merge, insert}

-- Every region of the list starts at `lo` or later, and they are apart.
abbrev pub Apart : ℕ → List Region → Type 0
Apart lo [] = Unit
Apart lo (x ∷ xs) = (lo ≤ x.start) × (x.start < x.end) × Apart (suc x.end) xs

abbrev pub inside : Region → ℕ → Bool
inside r p = leb r.start p && ltb p r.end

-- The set as the addresses that are in it.
abbrev pub has : List Region → ℕ → Bool
has [] p = false
has (x ∷ xs) p = inside x p || has xs p

pub Apart-le : (lo lo' : ℕ) (xs : List Region) → lo' ≤ lo → Apart lo xs → Apart lo' xs
Apart-le lo lo' [] le a = tt
Apart-le lo lo' (x ∷ xs) le a = (omega (arith, a.0), a.1, a.2)

-- Into what lies behind it a region goes first.
pub set_insert-first :
    (r : Region) (xs : List Region) → Apart (suc r.end) xs → set_insert r xs ≡ r ∷ xs
unfolding set_insert before
set_insert-first r [] a = refl
set_insert-first r (x ∷ xs) a =
    let lower : ltb r.end x.start ≡ true = ground (arith, a.0) in rw lower refl

pub merge_lem :
    (lo : ℕ) (r : Region) (xs : List Region)
    → lo ≤ r.start
    → r.start < r.end
    → Apart r.start xs
    → Apart lo (merge r xs).1
      × ((merge r xs).0.start ≡ r.start)
      × (r.end ≤ (merge r xs).0.end)
      × ((p : ℕ) → has (merge r xs).1 p ≡ (inside r p || has xs p))
unfolding merge
merge_lem lo r [] low full a = ((low, full, tt), refl, omega arith, λ p. refl)
merge_lem lo r (x ∷ xs) low full a = elim (dec_le x.end r.end) [
  | yes covered ↦
      let (apart, same, over, addresses) =
        merge_lem lo r xs low full
          (Apart-le (suc x.end) r.start xs (omega (arith, a.0, a.1)) a.2) in
      let test : leb x.end r.end ≡ true = ground arith in
      rw test (apart, same, over, λ p. addresses p ∙ ground (arith, a.0, a.1))
  | no larger ↦ elim (dec_le x.start r.end) [
    | yes touching ↦
        let joined : Region = record r { end = x.end } in
        let first : set_insert joined xs ≡ joined ∷ xs = set_insert-first joined xs a.2 in
        let test : leb x.end r.end ≡ false = ground arith in
        let test' : leb x.start r.end ≡ true = ground arith in
        rw (test, test', first)
          ((low, omega arith, a.2), refl, omega arith, λ p. ground (arith, a.0))
    | no apart ↦
        let first : set_insert r (x ∷ xs) ≡ r ∷ x ∷ xs =
          set_insert-first r (x ∷ xs) (omega arith, a.1, a.2) in
        let test : leb x.end r.end ≡ false = ground arith in
        let test' : leb x.start r.end ≡ false = ground arith in
        rw (test, test', first) ((low, full, (omega arith, a.1, a.2)), refl, omega arith, λ p. refl)
  ]
]

-- For regions that are not empty, apart and not below `lo`, and a region to insert likewise not
-- empty and not below `lo`, `insert` leaves the regions so, the addresses in the set are those
-- that were in it and those of the region, and the region returned contains the one inserted.
pub insert_lem :
    (lo : ℕ) (r : Region) (xs : List Region)
    → lo ≤ r.start
    → r.start < r.end
    → Apart lo xs
    → Apart lo (insert r xs).1
      × ((insert r xs).0.start ≤ r.start)
      × (r.end ≤ (insert r xs).0.end)
      × ((p : ℕ) → has (insert r xs).1 p ≡ (inside r p || has xs p))
unfolding insert before
insert_lem lo r [] low full a = ((low, full, tt), omega arith, omega arith, λ p. refl)
insert_lem lo r (x ∷ xs) low full a = elim (dec_lt x.end r.start) [
  | yes earlier ↦
      let test : ltb x.end r.start ≡ true = ground arith in
      let (apart, under, over, addresses) = insert_lem (suc x.end) r xs earlier full a.2 in
      rw test (
        (a.0, a.1, apart),
        under,
        over,
        λ p. ap (λ b. inside x p || b) (addresses p) ∙ ground arith,
      )
  | no meets ↦
      let test : ltb x.end r.start ≡ false = ground arith in
      elim (dec_lt x.start r.start) [
        | yes left ↦
            let test' : ltb x.start r.start ≡ true = ground arith in
            let (apart, same, over, addresses) =
              merge_lem lo (record r { start = x.start }) (x ∷ xs) a.0 (omega arith)
                (omega arith, a.1, a.2) in
            rw (test, test') (apart, omega (arith, same), over, λ p. addresses p ∙ ground arith)
        | no right ↦
            let test' : ltb x.start r.start ≡ false = ground arith in
            let (apart, same, over, addresses) =
              merge_lem lo r (x ∷ xs) low full (omega arith, a.1, a.2) in
            rw (test, test') (apart, omega (arith, same), over, addresses)
      ]
]
