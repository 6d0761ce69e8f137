-- ===== src/Sync/Timeouts.antt =====
-- `class Timeout` of src/runtime/BlockingSync.h: the multimap from deadlines to threads as a list in its
-- order. An entry is armed while its thread's `unblockInfo` is set.
use mathlib.Core.Path.{subst}
use kos_hspabla.Prelude.{
  ℕ, ◌≤◌, ◌<◌, ltb, leb, Bool, false, not, ◌&&◌, if◌then◌else◌, ◌≡◌, refl, sym, ap, arith, List, [],
  ◌∷◌, Bool-cases, inl, inr,
}
use kos_hspabla.Sync.{Waiter}

pub record Deadline : Type 0 where
  pub time : ℕ
  pub waiter : Waiter

-- `queue.insert`: behind the entries of the same time.
unfoldable pub insert_deadline : Deadline → List Deadline → List Deadline
insert_deadline d [] = d ∷ []
insert_deadline d (e ∷ queue) =
    if ltb d.time e.time then d ∷ e ∷ queue else e ∷ insert_deadline d queue

-- The loop of `Timeout::checkExpiry`: the queue and the fire list.
unfoldable pub check_expiry : ℕ → List Deadline → List Deadline × List ℕ
check_expiry now [] = ([], [])
check_expiry now (d ∷ queue) =
    let (kept, fired) = check_expiry now queue in
    if not (leb d.time now)
    then (d ∷ queue, [])
    else if d.waiter.armed
    then (kept, d.waiter.thread ∷ fired)
    else (d ∷ kept, fired)

-- The deadlines from `low` on, in order.
abbrev pub InOrder : ℕ → List Deadline → Type 0
InOrder low [] = Unit
InOrder low (d ∷ queue) = (low ≤ d.time) × InOrder d.time queue

abbrev pub is_due : ℕ → Deadline → Bool
is_due now d = leb d.time now && d.waiter.armed

-- What a pass over the whole queue would do.
abbrev pub due : ℕ → List Deadline → List ℕ
due now [] = []
due now (d ∷ queue) = if is_due now d then d.waiter.thread ∷ due now queue else due now queue

abbrev pub not_due : ℕ → List Deadline → List Deadline
not_due now [] = []
not_due now (d ∷ queue) = if is_due now d then not_due now queue else d ∷ not_due now queue

insert_deadline-InOrder :
    (low : ℕ) (d : Deadline) (queue : List Deadline)
    → low ≤ d.time
    → InOrder low queue
    → InOrder low (insert_deadline d queue)
unfolding insert_deadline
insert_deadline-InOrder low d [] le h = (le, record {})
insert_deadline-InOrder low d (e ∷ queue) le (first, rest) = elim (Bool-cases (ltb d.time e.time)) [
  | inl before ↦ rw before (le, (ground (arith, before), rest))
  | inr behind ↦
      rw behind (first, insert_deadline-InOrder e.time d queue (ground (arith, behind)) rest)
]

-- After the first deadline in the future there is nothing due.
later :
    (now low : ℕ) (queue : List Deadline)
    → now < low
    → InOrder low queue
    → (due now queue ≡ []) × (not_due now queue ≡ queue)
later now low [] lt h = (refl, refl)
later now low (d ∷ queue) lt (first, rest) =
    let (none_due, all_kept) = later now d.time queue (omega arith) rest in
    let future : leb d.time now ≡ false = ground (arith, lt, first) in
    rw future (none_due, ap (λ q. d ∷ q) all_kept)

check_expiry-due :
    (now low : ℕ) (queue : List Deadline)
    → InOrder low queue
    → check_expiry now queue ≡ (not_due now queue, due now queue)
unfolding check_expiry
check_expiry-due now low [] h = refl
check_expiry-due now low (d ∷ queue) (first, rest) = elim (Bool-cases (leb d.time now)) [
  | inl past ↦ elim (Bool-cases d.waiter.armed) [
    | inl armed ↦ rw (past, armed, (check_expiry-due now d.time queue rest)) refl
    | inr unarmed ↦ rw (past, unarmed, (check_expiry-due now d.time queue rest)) refl
  ]
  | inr future ↦
      let (none_due, all_kept) = later now d.time queue (ground (arith, future)) rest in
      rw (future, none_due, all_kept) refl
]

weaker :
    (low low' : ℕ) (queue : List Deadline) → low ≤ low' → InOrder low' queue → InOrder low queue
weaker low low' [] le h = record {}
weaker low low' (d ∷ queue) le (first, rest) = (omega (arith, le, first), rest)

not_due-InOrder :
    (now low : ℕ) (queue : List Deadline) → InOrder low queue → InOrder low (not_due now queue)
not_due-InOrder now low [] h = record {}
not_due-InOrder now low (d ∷ queue) (first, rest) = elim (Bool-cases (is_due now d)) [
  | inl fires ↦ rw fires (weaker low d.time _ first (not_due-InOrder now d.time queue rest))
  | inr stays ↦ rw stays (first, not_due-InOrder now d.time queue rest)
]

-- For timeouts in order, and one more inserted, `checkExpiry` fires exactly the threads whose
-- time is past and that can be woken, as a pass over the whole queue would, keeps all others, and
-- the queue is in order after the insertion and after the expiry.
pub check_expiry_lem :
    (now : ℕ) (d : Deadline) (queue : List Deadline)
    → InOrder 0 queue
    → (check_expiry now (insert_deadline d queue)
        ≡ (not_due now (insert_deadline d queue), due now (insert_deadline d queue)))
      × InOrder 0 (insert_deadline d queue)
      × InOrder 0 (check_expiry now (insert_deadline d queue)).0
check_expiry_lem now d queue h =
    let inserted = insert_deadline-InOrder 0 d queue (omega arith) h in
    let run = check_expiry-due now 0 (insert_deadline d queue) inserted in
    (
      run,
      inserted,
      subst (λ q. InOrder 0 q.0) (sym run)
          (not_due-InOrder now 0 (insert_deadline d queue) inserted),
    )
