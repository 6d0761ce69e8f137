-- ===== src/Handles/Steps.antt =====
-- The users of the handles of src/runtime/SynchronizedArray.h, and `close` of src/kernel/syscalls.cc, in
-- any order of calls.
use kos_hspabla.Prelude.{
  ℕ, ◌+◌, ◌-◌, ◌<◌, Bool, true, false, ◌≡◌, ◌≢◌, update, Option, none, some, List, [], ◌⊎◌,
}
use kos_hspabla.Sync.{Waiter, disarm, cancel_event}
use kos_hspabla.ManagedArray
use kos_hspabla.ManagedArray.{ManagedArray}
use kos_hspabla.Handles.{Handles, store, access, done, Removal, removed, remove, returned, release}
use kos_hspabla.Handles.Slots.{InBounds}
use kos_hspabla.Handles.Fair.{Uses, put_use}

-- Who uses which element through which slot, the elements that a thread is about to delete, and the slots
-- that such a thread has yet to read again, as `remove` does after it has woken up or given up the lock.
pub record Opened : Type 0 where
  pub handles : Handles
  pub uses : Uses
  pub closing : ℕ → Bool
  pub returning : ℕ → Bool

-- A woken thread goes on to read the slot and to delete the element.
abbrev pub marked_by : Option ℕ → ℕ → (ℕ → Bool) → ℕ → Bool
marked_by none x marked = marked
marked_by (some t) x marked = update marked x true

-- A new object, whose count is 0 and whose queue is empty.
abbrev pub constructed : Handles → ℕ → Handles
constructed s e = record s { count = update s.count e 0; waiting = update s.waiting e [] }

abbrev pub with_waiting : Handles → ℕ → List Waiter → Handles
with_waiting s e queue = record s { waiting = update s.waiting e queue }

-- No thread holds a reference to a slot across a wait.
abbrev pub NoneRefers : Opened → Type 0
NoneRefers o = ((e : ℕ) → o.handles.waiting e ≡ []) × ((i : ℕ) → o.returning i ≡ false)

-- What a user's thread does under the lock. The address of a new object is that of no other one; the
-- array, to which `remove` keeps a reference, grows only while no thread has one.
pub data HandleStep (o : Opened) : Opened → Type 0 where
  opens :
      (allocate : ℕ → Bool) (idx e : ℕ) (s' : Handles)
      → e ≢ 0
      → o.closing e ≡ false
      → ((j : ℕ) → ManagedArray.get o.handles.table j ≢ some e)
      → (s'.table.capacity ≡ o.handles.table.capacity) ⊎ NoneRefers o
      → store allocate (constructed o.handles e) e ≡ some (idx, s')
      → HandleStep o (record o { handles = s' })
  begins :
      (idx e : ℕ) (s' : Handles)
      → access o.handles idx ≡ some (some e, s')
      → HandleStep o (record o { handles = s'; uses = put_use o.uses idx e (o.uses idx e + 1) })
  ends :
      (idx e : ℕ) (woken : Option ℕ) (s' : Handles)
      → 0 < o.uses idx e
      → done o.handles idx ≡ some (woken, s')
      → HandleStep o (record {
        handles = s';
        uses = put_use o.uses idx e (o.uses idx e - 1);
        closing = marked_by woken e o.closing;
        returning = marked_by woken idx o.returning;
      })
  -- `remove` by a thread that is not cancelled.
  asks :
      (idx t : ℕ) (r : Removal) (s' : Handles)
      → r ≢ removed
      → remove o.handles idx t false ≡ some (r, s')
      → HandleStep o (record o { handles = s' })
  removes :
      (idx t e : ℕ) (s' : Handles)
      → ManagedArray.get o.handles.table idx ≡ some e
      → remove o.handles idx t false ≡ some (removed, s')
      → HandleStep o (record o {
        handles = s';
        closing = update o.closing e true;
        returning = update o.returning idx true;
      })
  -- A thread that waits is cancelled, in two steps, and does not return to `remove`.
  disarms :
      (t e : ℕ)
      → HandleStep o
          (record o { handles = with_waiting o.handles e (disarm t (o.handles.waiting e)) })
  unqueues :
      (t e : ℕ)
      → HandleStep o
          (record o { handles = with_waiting o.handles e (cancel_event t (o.handles.waiting e)) })
  -- The last line of `remove`, and the deletion of what it returns.
  deletes :
      (idx e : ℕ)
      → o.returning idx ≡ true
      → returned o.handles idx ≡ some e
      → HandleStep o (record o {
        closing = update o.closing e false;
        returning = update o.returning idx false;
      })
  -- Not before the thread that removed the slot's element has deleted it.
  releases :
      (idx : ℕ) (s' : Handles)
      → o.returning idx ≡ false
      → release o.handles idx ≡ some s'
      → HandleStep o (record o { handles = s' })

pub data HandleReachable : Opened → Type 0 where
  no_handles :
      (s : Handles)
      → InBounds s.table
      → ((j : ℕ) → ManagedArray.get s.table j ≡ none)
      → HandleReachable
          (record { handles = s; uses = λ i e. 0; closing = λ e. false; returning = λ i. false })
  handles_later : (o o' : Opened) → HandleReachable o → HandleStep o o' → HandleReachable o'
