-- ===== src/Scheduler.antt =====
-- `class BaseScheduler` of src/runtime/Scheduler.h: the ready queues by priority, each a list of threads.
-- `none` is a failed assertion.
pub mod Ready
mod Tests
use kos_hspabla.Prelude.{
  ℕ, zero, suc, ◌+◌, ◌==◌, ltb, Bool, if◌then◌else◌, update, Option, none, some, List, [], ◌∷◌,
  ◌++◌,
}
use kos_hspabla.Basics.{add_mword, sub_mword}

abbrev pub max_priority : ℕ
max_priority = 3

abbrev pub idle_priority : ℕ
idle_priority = 2

pub record Scheduler : Type 0 where
  pub ready_count : ℕ
  pub ready_queue : ℕ → List ℕ

unfoldable pub no_threads : Scheduler
no_threads = record { ready_count = 0; ready_queue = λ i. [] }

-- From level `i` on, with `n` levels left.
unfoldable pub dequeue_from : Scheduler → ℕ → List ℕ → ℕ → Option (ℕ × Scheduler)
dequeue_from s i queue zero = none
dequeue_from s i [] (suc n) = dequeue_from s (suc i) (s.ready_queue (suc i)) n
dequeue_from s i (t ∷ queue) (suc n) = some (
  t,
  record { ready_count = sub_mword s.ready_count 1; ready_queue = update s.ready_queue i queue },
)

unfoldable pub dequeue : Scheduler → ℕ → Option (ℕ × Scheduler)
dequeue s max_level = dequeue_from s 0 (s.ready_queue 0) max_level

-- The scheduler, and whether it is woken up.
unfoldable pub enqueue : Scheduler → ℕ → ℕ → Option (Scheduler × Bool)
enqueue s t priority =
    if ltb priority max_priority
    then some (
      record {
        ready_count = add_mword s.ready_count 1;
        ready_queue = update s.ready_queue priority (s.ready_queue priority ++ (t ∷ []));
      },
      s.ready_count == 0,
    )
    else none

-- The first scheduler of the pair is this one, the second its peer.
unfoldable pub enqueue_balanced :
    Scheduler × Scheduler → ℕ → ℕ → Option ((Scheduler × Scheduler) × Bool)
enqueue_balanced (s, peer) t priority =
    let there = enqueue peer t priority in
    let here = enqueue s t priority in
    if ltb (add_mword peer.ready_count 2) s.ready_count
    then elim there [ none ↦ none | some (peer', wake) ↦ some ((s, peer'), wake) ]
    else elim here [ none ↦ none | some (s', wake) ↦ some ((s', peer), wake) ]
