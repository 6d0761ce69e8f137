-- ===== src/Sync/Attempts.antt =====
-- What an attempt to acquire a lock or semaphore of src/runtime/BlockingSync.h has come to.
use kos_hspabla.Prelude.{◌≡◌, refl, Option, none, some, List}
use kos_hspabla.Sync.{Waiter}
use kos_hspabla.Sync.Locks.{Attempt, enters, waits, refused, fails, attempt_block}

module _ {ℓ} {S : Type ℓ} where
  abbrev pub entered : Attempt S → Option S
  entered (enters s) = some s
  entered (waits s) = none
  entered refused = none
  entered fails = none

  abbrev pub suspended : Attempt S → Option S
  suspended (enters s) = none
  suspended (waits s) = some s
  suspended refused = none
  suspended fails = none

  pub entered-attempt_block :
      (o : Option (List Waiter)) (f : List Waiter → S) → entered (attempt_block o f) ≡ none
  entered-attempt_block none f = refl
  entered-attempt_block (some queue) f = refl

  pub suspended-attempt_block :
      (o : Option (List Waiter)) (f : List Waiter → S) (s : S)
      → suspended (attempt_block o f) ≡ some s
      → (queue : List Waiter) × (some (f queue) ≡ some s)
  suspended-attempt_block none f s e = absurd cc
  suspended-attempt_block (some queue) f s e = (queue, e)
