-- ===== src/Handles.antt =====
-- `class SynchronizedArray` of src/runtime/SynchronizedArray.h: the table of open handles. An element is the
-- address of an object, 0 the null pointer, and has a count of its users and a queue of the threads that
-- wait to remove it. What an operation does under the lock is one function, `store` as well, which sets
-- the slot after it has given up the lock. `none` is a failed assertion.
pub mod Slots
pub mod Changes
pub mod Calls
pub mod Endings
pub mod Fair
pub mod Reading
pub mod Steps
pub mod Closing
pub mod Kept
pub mod Deleting
mod Tests
use kos_hspabla.Prelude.{
  ℕ, ◌+◌, ◌-◌, ◌==◌, ltb, Bool, true, false, not, if◌then◌else◌, update, Option, none, some, ◌>>=◌,
  List, [], ◌∷◌, ◌++◌,
}
use kos_hspabla.Sync.{Waiter}
use kos_hspabla.Sync.Locks.{condition_block, condition_signal}
use kos_hspabla.ManagedArray
use kos_hspabla.ManagedArray.{ManagedArray}

pub record Handles : Type 0 where
  pub table : ManagedArray ℕ
  pub count : ℕ → ℕ
  pub waiting : ℕ → List Waiter

unfoldable pub store : (ℕ → Bool) → Handles → ℕ → Option (ℕ × Handles)
store allocate s e = do
  reserved ← ManagedArray.reserve_index allocate s.table
  written ← ManagedArray.set reserved.1 reserved.0 e
  kept ← if e == 0 then ManagedArray.invalidate written reserved.0 else some written
  some (reserved.0, record s { table = kept })

-- On the element and the threads that wait for it.
abbrev pub access_with : Handles → ℕ → List Waiter → Option (Option ℕ × Handles)
access_with s e [] = some (some e, record s { count = update s.count e (s.count e + 1) })
access_with s e (w ∷ queue) = some (none, s)

unfoldable pub access : Handles → ℕ → Option (Option ℕ × Handles)
access s idx =
    let found = ManagedArray.get s.table idx >>= λ e.
    if e == 0 then none else access_with s e (s.waiting e) in
    if ManagedArray.valid s.table idx then found else some (none, s)

-- Who is woken: `signal` wakes a thread on the queue that is armed, and nobody if there is none.
abbrev pub done_with : Handles → ℕ → ℕ → List Waiter → Option (Option ℕ × Handles)
done_with s idx e [] = some (none, s)
done_with s idx e (w ∷ queue) =
    let signalled = condition_signal (w ∷ queue) in
    let woken = ManagedArray.invalidate s.table idx >>= λ table.
    some (signalled.1, record s { table = table; waiting = update s.waiting e signalled.0 }) in
    if s.count e == 0 then woken else some (none, s)

unfoldable pub done : Handles → ℕ → Option (Option ℕ × Handles)
done s idx = do
  e ← ManagedArray.get s.table idx
  if e == 0
      then none
      else if not (ltb 0 (s.count e))
      then none
      else done_with (record s { count = update s.count e (s.count e - 1) }) idx e (s.waiting e)

-- Where `remove` returns null; blocks; returns as its wait was refused; returns after it has made the
-- slot invalid.
pub data Removal : Type 0 where
  absent : Removal
  waits : Removal
  refused : Removal
  removed : Removal

-- `wait.wait(lock)`, whose result `remove` does not look at.
abbrev pub wait_with : Handles → ℕ → Option (List Waiter) → Removal × Handles
wait_with s e none = (refused, s)
wait_with s e (some queue) = (waits, record s { waiting = update s.waiting e queue })

abbrev pub remove_element : Handles → ℕ → ℕ → Bool → ℕ → Option (Removal × Handles)
remove_element s idx t cancelled e =
    if ltb 0 (s.count e)
    then some (wait_with s e (condition_block (s.waiting e) t cancelled))
    else ManagedArray.invalidate s.table idx >>= λ table. some (removed, record s { table = table })

-- Thread t, cancelled or not, up to where it blocks or has given up the lock.
unfoldable pub remove : Handles → ℕ → ℕ → Bool → Option (Removal × Handles)
remove s idx t cancelled =
    let found = ManagedArray.get s.table idx >>= λ e.
    if e == 0 then none else remove_element s idx t cancelled e in
    if ManagedArray.valid s.table idx then found else some (absent, s)

-- `return elem`: without the lock, `remove` reads the slot again.
unfoldable pub returned : Handles → ℕ → Option ℕ
returned s idx = ManagedArray.as_element (s.table.data_at idx)

unfoldable pub release : Handles → ℕ → Option Handles
release s idx = ManagedArray.release s.table idx >>= λ table. some (record s { table = table })
