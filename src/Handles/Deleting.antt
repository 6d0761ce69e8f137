-- ===== src/Handles/Deleting.antt =====
-- When an element of src/runtime/SynchronizedArray.h is deleted, and the calls on one that is in use.
use kos_hspabla.Prelude.{ℕ, true, false, ◌≡◌, Option, some, [], ◌∷◌, ◌++◌}
use kos_hspabla.ManagedArray
use kos_hspabla.ManagedArray.{ManagedArray}
use kos_hspabla.Handles.{Handles, done, waits, refused, remove, returned}
use kos_hspabla.Handles.Endings.{Ended}
use kos_hspabla.Handles.Steps.{with_waiting}

-- What a thread that uses the element finds, and what `remove` does meanwhile; n is the number of uses.
abbrev pub Used : Handles → ℕ → ℕ → ℕ → Type 0
Used s n i e =
    (ManagedArray.get s.table i ≡ some e)
    × (s.count e ≡ n)
    × ((woken : Option ℕ) × (s' : Handles) × (done s i ≡ some (woken, s')) × Ended s i e woken s')
    × ((t : ℕ)
        → remove s i t false
          ≡ some
              (waits, with_waiting s e (s.waiting e ++ (record { thread = t; armed = true } ∷ []))))
    × ((t : ℕ) → remove s i t true ≡ some (refused, s))
    × (returned s i ≡ some e)
