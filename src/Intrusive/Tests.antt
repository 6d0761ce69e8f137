-- ===== src/Intrusive/Tests.antt =====
-- A list of two elements, as src/generic/IntrusiveContainers.h links it.
use kos_hspabla.Prelude.{ℕ, ◌==◌, if◌then◌else◌, ◌≡◌, refl, arith, none, some, [], ◌∷◌, ◌++◌}
use kos_hspabla.Intrusive.{Links, remove_elem}
use kos_hspabla.Intrusive.Chain.{IsList, Apart}
use kos_hspabla.Intrusive.Change.{remove_elem_lem}

-- The anchor 0, then 1 and 2.
abbrev two : Links
two = record {
  prev = λ i. if i == 0 then some 2 else if i == 1 then some 0 else if i == 2 then some 1 else none;
  next = λ i. if i == 0 then some 1 else if i == 1 then some 2 else if i == 2 then some 0 else none;
}

two-IsList : IsList two 0 (1 ∷ 2 ∷ [])
two-IsList = record {
  linked = (refl, refl, (refl, refl, (refl, refl)));
  distinct = (
    (λ e. omega (arith, e), (λ e. omega (arith, e), record {})),
    ((λ e. omega (arith, e), record {}), (record {}, record {})),
  );
}

remove_elem_lem_example :
    (s' : Links) × (remove_elem two 1 ≡ some s')
    × IsList s' 0 ([] ++ (2 ∷ []))
    × (s'.prev 1 ≡ none)
    × (s'.next 1 ≡ none)
    × ((z : ℕ)
        → Apart z (0 ∷ ([] ++ (1 ∷ 2 ∷ [])))
        → (s'.prev z ≡ two.prev z) × (s'.next z ≡ two.next z))
remove_elem_lem_example = remove_elem_lem two 0 1 [] (2 ∷ []) two-IsList
