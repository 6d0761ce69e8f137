-- ===== src/RegionSet.antt =====
-- src/generic/RegionSet.h: a set of address regions, kept in the order of std::set as a list. Two
-- regions are equivalent to the set if neither ends before the other starts. `none` is a failed
-- assertion, which the callers turn off by `fault`.
pub mod Order
pub mod Change
pub mod Retrieve
mod Tests
use kos_hspabla.Prelude.{
  ℕ, ◌+◌, ◌-◌, Bool, true, false, ◌&&◌, ◌||◌, leb, ltb, if◌then◌else◌, Option, none, some, ◌>>=◌,
  List, [], ◌∷◌,
}
use kos_hspabla.Basics.{align_up, add_mword, limit}

pub record Region : Type 0 where
  pub start : ℕ
  pub end : ℕ

unfoldable pub covers : Region → Region → Bool
covers r o = leb r.start o.start && leb o.end r.end

-- `operator<`
unfoldable pub before : Region → Region → Bool
before l r = ltb l.end r.start

-- `insert` of std::set, also with a hint: in order, and not beside an equivalent region.
unfoldable pub set_insert : Region → List Region → List Region
set_insert r [] = r ∷ []
set_insert r (x ∷ xs) =
    let rest = set_insert r xs in
    if before r x then r ∷ x ∷ xs else if before x r then x ∷ rest else x ∷ xs

-- The loop over the covered regions and what follows it, from the region that `it` stands at.
unfoldable pub merge : Region → List Region → Region × List Region
merge r [] = (r, r ∷ [])
merge r (x ∷ xs) =
    let rest = merge r xs in
    let joined = record r { end = x.end } in
    if leb x.end r.end
    then rest
    else if leb x.start r.end
    then (joined, set_insert joined xs)
    else (r, set_insert r (x ∷ xs))

-- The region that was inserted, and the set.
unfoldable pub insert : Region → List Region → Region × List Region
insert r [] = (r, r ∷ [])
insert r (x ∷ xs) =
    let rest = insert r xs in
    if before x r
    then (rest.0, x ∷ rest.1)
    else if ltb x.start r.start
    then merge (record r { start = x.start }) (x ∷ xs)
    else merge r (x ∷ xs)

-- The set without `r`, from the lower bound of `r` on; `none` if no region covers `r`.
unfoldable pub cut : Region → Region → List Region → List Region
cut r t xs =
    let above =
      if ltb r.end t.end then set_insert (record { start = r.end; end = t.end }) xs else xs in
    if ltb t.start r.start
    then set_insert (record { start = t.start; end = r.start }) above
    else above

unfoldable pub remove_from : Region → List Region → Option (List Region)
remove_from r [] = none
remove_from r (x ∷ xs) =
    let rest = remove_from r xs in
    if before x r
    then (do ys ← rest; some (x ∷ ys))
    else if covers x r
    then some (cut r x xs)
    else none

-- The result and the set.
abbrev pub answer : Bool → List Region → Option (List Region) → Option (Bool × List Region)
answer fault set none = if fault then some (false, set) else none
answer fault set (some ys) = some (true, ys)

unfoldable pub remove : Bool → Region → List Region → Option (Bool × List Region)
remove fault r set = answer fault set (remove_from r set)

-- The loop of `retrieve_front`; `rest` are the regions from the iterator on.
unfoldable pub retrieve_front_from : Bool → ℕ → List Region → List Region → Option (ℕ × List Region)
retrieve_front_from fault s set [] = if fault then some (limit, set) else none
retrieve_front_from fault s set (x ∷ rest) =
    let next = retrieve_front_from fault s set rest in
    let astart = align_up x.start s in
    if leb (add_mword astart s) x.end
    then (do
      (ok, left) ← remove false (record { start = astart; end = add_mword astart s }) set
      some (astart, left))
    else next

unfoldable pub retrieve_front : Bool → ℕ → List Region → Option (ℕ × List Region)
retrieve_front fault s set = retrieve_front_from fault s set set

unfoldable pub in_set : Region → List Region → Bool
in_set r [] = false
in_set r (x ∷ xs) = let rest = in_set r xs in if before x r then rest else covers x r
