-- ===== src/Sync.antt =====
-- src/runtime/BlockingSync.h: the queue of blocked threads, on which locks, semaphores, conditions and
-- message queues are built. A function is what a thread does while it holds the object's lock; what may
-- come in between is a step.
pub mod Messages
pub mod Slots
pub mod Unarmed
pub mod Calls
pub mod Order
pub mod Steps
pub mod Delivery
pub mod Locks
pub mod Timeouts
pub mod Attempts
pub mod Holders
pub mod Exclusion
pub mod Tokens
mod Tests
use kos_hspabla.Prelude.{
  ℕ, ◌==◌, Bool, true, false, if◌then◌else◌, Option, none, some, ◌>>=◌, List, [], ◌∷◌, ◌++◌,
}

-- A thread on a queue. It is armed while its `unblockInfo` is set: who exchanges that for null may
-- wake the thread.
pub record Waiter : Type 0 where
  pub thread : ℕ
  pub armed : Bool

-- `BlockingQueue::block`, up to the suspension: `none` returns false at once.
unfoldable pub block : ℕ → Bool → ℕ → List Waiter → Option (List Waiter)
block t cancelled timeout queue =
    if timeout == 0
    then none
    else if cancelled
    then none
    else some (queue ++ (record { thread = t; armed = true } ∷ []))

-- `BlockingQueue::resume`: the thread woken and the queue without it.
unfoldable pub resume : List Waiter → Option (ℕ × List Waiter)
resume [] = none
resume (w ∷ queue) =
    let later = resume queue >>= λ r. some (r.0, w ∷ r.1) in
    if w.armed then some (w.thread, queue) else later

-- `getUnblockInfo` by a timeout or a cancellation.
unfoldable pub disarm : ℕ → List Waiter → List Waiter
disarm t [] = []
disarm t (w ∷ queue) =
    if w.thread == t then record w { armed = false } ∷ queue else w ∷ disarm t queue

-- `EventInfo::cancelEvent`, later.
unfoldable pub cancel_event : ℕ → List Waiter → List Waiter
cancel_event t [] = []
cancel_event t (w ∷ queue) = if w.thread == t then queue else w ∷ cancel_event t queue
