-- ===== src/RegionSet/Tests.antt =====
-- src/generic/RegionSet.h on a set of two regions.
use kos_hspabla.Prelude.{
  ℕ, ◌^◌, ◌%◌, ◌≤◌, true, false, not, ◌&&◌, ◌||◌, if◌then◌else◌, ◌≡◌, ◌⊎◌, arith, none, some, List,
  [], ◌∷◌, All,
}
use kos_hspabla.Basics.{limit}
use kos_hspabla.RegionSet.{Region, insert, remove, retrieve_front}
use kos_hspabla.RegionSet.Order.{Apart, inside, has, insert_lem}
use kos_hspabla.RegionSet.Change.{remove_lem}
use kos_hspabla.RegionSet.Retrieve.{block, TooSmall, retrieve_front_lem}

abbrev low : Region
low = record { start = 10; end = 20 }

abbrev high : Region
high = record { start = 40; end = 100 }

abbrev two : List Region
two = low ∷ high ∷ []

two-Apart : Apart 0 two
two-Apart = (omega arith, omega arith, (omega arith, omega arith, tt))

-- It touches both.
abbrev middle : Region
middle = record { start = 20; end = 50 }

insert_lem_example :
    Apart 0 (insert middle two).1
    × ((insert middle two).0.start ≤ 20)
    × (50 ≤ (insert middle two).0.end)
    × ((p : ℕ) → has (insert middle two).1 p ≡ (inside middle p || has two p))
insert_lem_example = insert_lem 0 middle two (omega arith) (omega arith) two-Apart

abbrev hole : Region
hole = record { start = 50; end = 60 }

remove_lem_example :
    ((ys : List Region) × (remove false hole two ≡ some (true, ys))
      × Apart 0 ys
      × ((p : ℕ) → has ys p ≡ (has two p && not (inside hole p))))
    ⊎ ((remove false hole two ≡ (if false then some (false, two) else none))
        × (p : ℕ) × (inside hole p ≡ true)
        × (has two p ≡ false))
remove_lem_example = remove_lem false hole two (omega arith) two-Apart

retrieve_front_lem_example :
    ((at : ℕ) × (left : List Region) × (retrieve_front true (2 ^ 4) two ≡ some (at, left))
      × (at % 2 ^ 4 ≡ 0)
      × ((p : ℕ) → inside (block at (2 ^ 4)) p ≡ true → has two p ≡ true)
      × Apart 0 left
      × ((p : ℕ) → has left p ≡ (has two p && not (inside (block at (2 ^ 4)) p))))
    ⊎ ((retrieve_front true (2 ^ 4) two ≡ (if true then some (limit, two) else none))
        × All (TooSmall (2 ^ 4)) two)
retrieve_front_lem_example =
    retrieve_front_lem true 4 two (omega arith) two-Apart (omega arith, (omega arith, tt))
