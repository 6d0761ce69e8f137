-- ===== src/Sync/Locks.antt =====
-- `class Semaphore`, `Mutex`, `OwnerMutex` and the conditions of src/runtime/BlockingSync.h, over a queue
-- of blocked threads. A thread is `t`, and whether it has been cancelled is `cancelled`.
use kos_hspabla.Prelude.{
  ℕ, ◌-◌, ◌==◌, ltb, Bool, true, false, not, if◌then◌else◌, Option, none, some, ◌>>=◌, List,
}
use kos_hspabla.Basics.{mword_mod, add_mword, sub_mword}
use kos_hspabla.Sync.{Waiter, block, resume}

-- What a call to acquire comes to: it returns true, is suspended, returns false, or fails an assertion.
pub data Attempt {ℓ} (S : Type ℓ) : Type ℓ where
  enters : S → Attempt S
  waits : S → Attempt S
  refused : Attempt S
  fails : Attempt S

abbrev pub attempt_block {ℓ} : {S : Type ℓ} → Option (List Waiter) → (List Waiter → S) → Attempt S
attempt_block none f = refused
attempt_block (some queue) f = waits (f queue)

-- `limit<mword>()`, to wait for ever
abbrev pub no_timeout : ℕ
no_timeout = mword_mod - 1

pub record Semaphore : Type 0 where
  pub counter : ℕ
  pub bq : List Waiter

unfoldable pub internal_p : Semaphore → ℕ → Bool → ℕ → Attempt Semaphore
internal_p s t cancelled timeout =
    if ltb s.counter 1
    then attempt_block (block t cancelled timeout s.bq) (λ queue. record s { bq = queue })
    else enters (record s { counter = sub_mword s.counter 1 })

-- The semaphore and the thread woken.
unfoldable pub sem_v_with : Semaphore → Option (ℕ × List Waiter) → Semaphore × Option ℕ
sem_v_with s none = (record s { counter = add_mword s.counter 1 }, none)
sem_v_with s (some (t, queue)) = (record s { bq = queue }, some t)

unfoldable pub sem_v : Semaphore → Semaphore × Option ℕ
sem_v s = sem_v_with s (resume s.bq)

pub record Mutex : Type 0 where
  pub owner : Option ℕ
  pub bq : List Waiter

abbrev pub owned_by : Option ℕ → ℕ → Bool
owned_by none t = false
owned_by (some o) t = o == t

unfoldable pub internal_acquire : Bool → Mutex → ℕ → Bool → ℕ → Attempt Mutex
internal_acquire owner_lock m t cancelled timeout =
    if owned_by m.owner t then (if owner_lock then enters m else fails) else elim m.owner [
      | none ↦ enters (record m { owner = some t })
      | some o ↦ attempt_block (block t cancelled timeout m.bq) (λ queue. record m { bq = queue })
    ]

-- `resume` sets the owner to the thread that it wakes.
unfoldable pub internal_release_with : Mutex → Option (ℕ × List Waiter) → Mutex × Option ℕ
internal_release_with m none = (record m { owner = none }, none)
internal_release_with m (some (t, queue)) = (record { owner = some t; bq = queue }, some t)

unfoldable pub internal_release : Mutex → Mutex × Option ℕ
internal_release m = internal_release_with m (resume m.bq)

unfoldable pub mutex_acquire : Mutex → ℕ → Bool → Attempt Mutex
mutex_acquire m t cancelled = internal_acquire false m t cancelled no_timeout

unfoldable pub mutex_try_acquire : Mutex → ℕ → Bool → ℕ → Attempt Mutex
mutex_try_acquire m t cancelled timeout = internal_acquire false m t cancelled timeout

unfoldable pub mutex_release : Mutex → ℕ → Option (Mutex × Option ℕ)
mutex_release m t = if owned_by m.owner t then some (internal_release m) else none

pub record OwnerMutex : Type 0 where
  pub mutex : Mutex
  pub counter : ℕ

-- `++counter`, when `internalAcquire` has returned true.
unfoldable pub count_acquired : OwnerMutex → OwnerMutex
count_acquired m = record m { counter = add_mword m.counter 1 }

abbrev pub owner_attempt : OwnerMutex → Attempt Mutex → Attempt OwnerMutex
owner_attempt m (enters x) = enters (count_acquired (record m { mutex = x }))
owner_attempt m (waits x) = waits (record m { mutex = x })
owner_attempt m refused = refused
owner_attempt m fails = fails

unfoldable pub owner_mutex_acquire : OwnerMutex → ℕ → Bool → ℕ → Attempt OwnerMutex
owner_mutex_acquire m t cancelled timeout =
    owner_attempt m (internal_acquire true m.mutex t cancelled timeout)

-- The mutex, the thread woken, and the value returned.
unfoldable pub owner_mutex_release : OwnerMutex → ℕ → Option (OwnerMutex × Option ℕ × ℕ)
owner_mutex_release m t =
    let counter = sub_mword m.counter 1 in
    let released = internal_release m.mutex in
    if not (owned_by m.mutex.owner t)
    then none
    else if counter == 0
    then some (record { mutex = released.0; counter = counter }, released.1, counter)
    else some (record m { counter = counter }, none, counter)

-- `BasicCondition::wait`; `none` returns false.
unfoldable pub condition_block : List Waiter → ℕ → Bool → Option (List Waiter)
condition_block bq t cancelled = block t cancelled no_timeout bq

abbrev pub signal_with : List Waiter → Option (ℕ × List Waiter) → List Waiter × Option ℕ
signal_with bq none = (bq, none)
signal_with bq (some (t, queue)) = (queue, some t)

unfoldable pub condition_signal : List Waiter → List Waiter × Option ℕ
condition_signal bq = signal_with bq (resume bq)

-- `Condition::wait` up to the suspension: the mutex without its owner or with the next one, that
-- thread, and the queue of the condition, or `none` for false.
unfoldable pub condition_wait :
    List Waiter → Mutex → ℕ → Bool → Option ((Mutex × Option ℕ) × Option (List Waiter))
condition_wait bq m t cancelled =
    mutex_release m t >>= λ released. some (released, condition_block bq t cancelled)
