-- ===== src/Sync/Tests.antt =====
-- Concrete runs of the objects of src/runtime/BlockingSync.h and src/runtime/SyncQueues.h.
use kos_hspabla.Prelude.{
  ℕ, ◌+◌, ◌≤◌, ◌==◌, true, false, if◌then◌else◌, ◌≡◌, ◌≢◌, refl, arith, none, some, [], ◌∷◌, ◌++◌,
  length, All, ◌⊎◌,
}
use kos_hspabla.RingBuffer.{RingBuffer}
use kos_hspabla.RingBuffer.Contents.{IsValid, contents}
use kos_hspabla.Sync.{Waiter, resume}
use kos_hspabla.Sync.Messages.{
  Messages, CallResult, returns, fails, put, take, internal_send, internal_recv,
}
use kos_hspabla.Sync.Slots.{System, sends, Reachable, start, after, fresh}
use kos_hspabla.Sync.Delivery.{delivered_in_order, waits_for_reason}
use kos_hspabla.Sync.Locks.{
  Mutex, Semaphore, OwnerMutex, Attempt, internal_acquire, internal_p, sem_v, mutex_release,
  owner_mutex_acquire, owner_mutex_release, no_timeout,
}
use kos_hspabla.Sync.Timeouts.{Deadline}
use kos_hspabla.Sync.Holders.{Users, MutexStep, MutexReachable}
use kos_hspabla.Sync.Exclusion.{mutual_exclusion}
use kos_hspabla.Sync.Tokens.{Account, SemStep, SemReachable, semaphore_balance}

abbrev two_slots : RingBuffer ℕ
two_slots = record { next = 0; count = 0; array_at = λ i. 0; max = 2 }

two_slots-IsValid : IsValid two_slots
two_slots-IsValid = record { within = omega arith; inside = omega arith; word = omega arith }

-- 7 has been sent.
abbrev seven_queue : Messages ℕ
seven_queue = record {
  buffer = record { next = 0; count = 1; array_at = λ i. if 0 == i then 7 else 0; max = 2 };
  send_slots = 1;
  recv_slots = 1;
  send_queue = [];
  recv_queue = [];
}

abbrev seven_sent : System ℕ
seven_sent = record {
  queue = seven_queue;
  senders = [];
  receivers = [];
  lost_senders = 0;
  lost_receivers = 0;
  sent = 7 ∷ [];
  received = [];
}

send-seven :
    internal_send (fresh two_slots).queue 1 false no_timeout 7
    ≡ returns seven_queue none (record {})
unfolding internal_send put kos_hspabla.Sync.Messages.of_buffer
    kos_hspabla.Sync.Messages.pass_to_receiver resume kos_hspabla.RingBuffer.push
    kos_hspabla.RingBuffer.full kos_hspabla.RingBuffer.size
send-seven = refl

seven_reached : Reachable two_slots seven_sent
seven_reached = after _ _ start (sends 1 no_timeout false 7 seven_queue none send-seven)

delivered_in_order_example :
    (seven_sent.sent ≡ seven_sent.received ++ contents seven_sent.queue.buffer)
    × (seven_sent.queue.buffer.count ≤ seven_sent.queue.buffer.max)
delivered_in_order_example =
    delivered_in_order two_slots seven_sent two_slots-IsValid refl seven_reached

waits_for_reason_example :
    ((resume seven_sent.queue.send_queue ≡ none)
      ⊎ (seven_sent.queue.buffer.count ≡ seven_sent.queue.buffer.max))
    × ((resume seven_sent.queue.recv_queue ≡ none) ⊎ (seven_sent.queue.buffer.count ≡ 0))
waits_for_reason_example =
    waits_for_reason two_slots seven_sent two_slots-IsValid refl seven_reached refl refl refl

abbrev deadline_3 : Deadline
deadline_3 = record { time = 3; waiter = record { thread = 1; armed = true } }

abbrev deadline_9 : Deadline
deadline_9 = record { time = 9; waiter = record { thread = 2; armed = true } }

-- Thread 1 is inside.
abbrev one_inside : Users
one_inside = record { mutex = record { owner = some 1; bq = [] }; inside = 1 ∷ []; woken = [] }

one_inside_reached : MutexReachable one_inside
unfolding internal_acquire
one_inside_reached =
    MutexReachable.after _ _ MutexReachable.start
      (MutexStep.acquires 1 no_timeout false (record { owner = some 1; bq = [] }) refl)

mutual_exclusion_example :
    (length one_inside.inside + length one_inside.woken ≤ 1)
    × All (λ t. one_inside.mutex.owner ≡ some t) (one_inside.inside ++ one_inside.woken)
    × All (λ t. mutex_release one_inside.mutex t ≢ none) one_inside.inside
    × ((one_inside.mutex.owner ≢ none) ⊎ (resume one_inside.mutex.bq ≡ none))
mutual_exclusion_example = mutual_exclusion one_inside one_inside_reached

-- A second thread waits, and gets the mutex when the first releases it.
baton :
    mutex_release (record { owner = some 1; bq = record { thread = 2; armed = true } ∷ [] }) 1
    ≡ some (record { owner = some 2; bq = [] }, some 2)
unfolding mutex_release kos_hspabla.Sync.Locks.internal_release
    kos_hspabla.Sync.Locks.internal_release_with resume
baton = refl

-- Nested: the owner's second acquisition counts 2, its release 1.
nested :
    owner_mutex_release (record { mutex = record { owner = some 1; bq = [] }; counter = 2 }) 1
    ≡ some (record { mutex = record { owner = some 1; bq = [] }; counter = 1 }, none, 1)
unfolding owner_mutex_release
nested = refl

abbrev given_one : Account
given_one = record { sem = record { counter = 1; bq = [] }; given = 1; granted = 0 }

given_one_reached : SemReachable 0 given_one
unfolding sem_v kos_hspabla.Sync.Locks.sem_v_with resume
given_one_reached = SemReachable.after _ _ SemReachable.start SemStep.gives

semaphore_balance_example :
    (given_one.granted + given_one.sem.counter ≡ 0 + given_one.given)
    × ((given_one.sem.counter ≡ 0) ⊎ (resume given_one.sem.bq ≡ none))
semaphore_balance_example = semaphore_balance 0 given_one given_one_reached (omega arith)
