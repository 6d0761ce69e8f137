-- ===== src/ManagedArray/Tests.antt =====
-- src/generic/ManagedArray.h on an array of two slots: an element in slot 0, slot 1 free.
use kos_hspabla.Prelude.{
  ℕ, Bool, true, false, ◌==◌, if◌then◌else◌, ◌≡◌, ◌≢◌, refl, arith, none, some, List, [], ◌∷◌,
}
use kos_hspabla.ManagedArray.{
  ManagedArray, elem, link, valid, put, get, remove, get_out, reserve_index,
}
use kos_hspabla.ManagedArray.Chain.{bottom, linked}
use kos_hspabla.ManagedArray.Invariant.{IsValid}
use kos_hspabla.ManagedArray.Store.{put_lem}
use kos_hspabla.ManagedArray.Remove.{put-remove, get_out_leak}

abbrev shelf : ManagedArray ℕ
shelf = record {
  data_at = λ i. if i == 0 then elem 7 else link none;
  freestack = some 1;
  index = 2;
  capacity = 2;
  freecount = 1;
  checkbits = λ i. i == 0;
}

shelf-IsValid : IsValid shelf (1 ∷ [])
shelf-IsValid = record {
  stack = linked 1 none [] refl bottom;
  distinct = (tt, tt);
  unused = ((omega arith, refl), tt);
  counted = refl;
  bounded = omega arith;
  word = omega arith;
  fresh = λ i le. ground arith;
  held = λ i on. (7, ground arith);
}

abbrev plenty : ℕ → Bool
plenty _ = true

put_lem_example :
    (idx : ℕ) × (a' : ManagedArray ℕ) × (free' : List ℕ) × (put plenty shelf 9 ≡ some (idx, a'))
    × IsValid a' free'
    × (valid shelf idx ≡ false)
    × (get a' idx ≡ some 9)
    × ((j : ℕ)
        → idx ≢ j
        → (valid a' j ≡ valid shelf j) × (valid shelf j ≡ true → get a' j ≡ get shelf j))
put_lem_example = put_lem plenty shelf (1 ∷ []) 9 shelf-IsValid (omega arith) refl

shelf-valid : valid shelf 0 ≡ true
unfolding valid
shelf-valid = refl

put-remove_example :
    (a' : ManagedArray ℕ) × (remove shelf 0 ≡ some a')
    × IsValid a' (0 ∷ 1 ∷ [])
    × (valid a' 0 ≡ false)
    × ((j : ℕ)
        → 0 ≢ j
        → (valid a' j ≡ valid shelf j) × (valid shelf j ≡ true → get a' j ≡ get shelf j))
    × ((allocate : ℕ → Bool) (e : ℕ) → (a'' : ManagedArray ℕ) × (put allocate a' e ≡ some (0, a'')))
put-remove_example = put-remove shelf (1 ∷ []) 0 shelf-IsValid shelf-valid

get_out_leak_example :
    ((get_out shelf 0).0 ≡ get shelf 0)
    × (valid (get_out shelf 0).1 0 ≡ true)
    × (reserve_index plenty (get_out shelf 0).1 ≡ none)
get_out_leak_example = get_out_leak plenty shelf (1 ∷ []) 0 shelf-IsValid shelf-valid
