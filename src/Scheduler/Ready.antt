-- ===== src/Scheduler/Ready.antt =====
-- The scheduler of src/runtime/Scheduler.h counts its threads, and picks the first of the best priority.
use kos_hspabla.Prelude.{
  ℕ, zero, suc, ◌+◌, ◌<◌, ◌≤◌, ◌==◌, ltb, true, ◌≡◌, ◌≢◌, refl, ◌∙◌, ap, arith, update, update_self,
  update_ne, none, some, List, [], ◌∷◌, ◌++◌, length, length-append, ◌⊎◌, inl, inr, ℕ_discrete,
}
use kos_hspabla.Basics.{mword_mod, add_mword, sub_mword}
use kos_hspabla.Scheduler.{Scheduler, max_priority, dequeue_from, dequeue, enqueue}

abbrev pub total : (ℕ → List ℕ) → ℕ
total queue = length (queue 0) + length (queue 1) + length (queue 2)

pub record IsCounted (s : Scheduler) : Type 0 where
  pub count : s.ready_count ≡ total s.ready_queue
  pub word : total s.ready_queue < mword_mod

total-update :
    (f : ℕ → List ℕ) (i : ℕ) (queue : List ℕ)
    → i < 3
    → total (update f i queue) + length (f i) ≡ total f + length queue
total-update f zero queue lt = omega arith
total-update f (suc zero) queue lt = omega arith
total-update f (suc (suc zero)) queue lt = omega arith
total-update f (suc (suc (suc i))) queue lt = absurd (omega arith)

-- What `dequeue` takes: the first thread of level `i`.
pub record IsTaken (s : Scheduler) (max_level t : ℕ) (s' : Scheduler) : Type 0 where
  pub level : ℕ
  pub rest : List ℕ
  pub below_max : level < max_level
  pub better_empty : (j : ℕ) → j < level → s.ready_queue j ≡ []
  pub first : s.ready_queue level ≡ t ∷ rest
  pub left : s'.ready_queue level ≡ rest
  pub others : (j : ℕ) → level ≢ j → s'.ready_queue j ≡ s.ready_queue j
  pub counted : IsCounted s'

dequeue_from-IsTaken :
    (s : Scheduler) (n i max_level : ℕ) (queue : List ℕ)
    → IsCounted s
    → i + n ≡ max_level
    → max_level ≤ max_priority
    → s.ready_queue i ≡ queue
    → ((j : ℕ) → j < i → s.ready_queue j ≡ [])
    → ((dequeue_from s i queue n ≡ none) × ((j : ℕ) → j < max_level → s.ready_queue j ≡ []))
      ⊎ ((t : ℕ) × (s' : Scheduler) × (dequeue_from s i queue n ≡ some (t, s'))
          × IsTaken s max_level t s')
unfolding dequeue_from
dequeue_from-IsTaken s zero i max_level queue v range small e clear =
    inl (refl, λ j lt. clear j (omega (arith, range, lt)))
dequeue_from-IsTaken s (suc n) i max_level [] v range small e clear =
    dequeue_from-IsTaken s n (suc i) max_level (s.ready_queue (suc i)) v (omega (arith, range))
      small refl
      (λ j lt. elim (ℕ_discrete j i) [
        | yes same ↦ ap s.ready_queue same ∙ e
        | no other ↦ clear j (omega (arith, lt, other))
      ])
dequeue_from-IsTaken s (suc n) i max_level (t ∷ rest) v range small e clear =
    let sums = total-update s.ready_queue i rest (omega (arith, range, small)) in
    let size : length (s.ready_queue i) ≡ suc (length rest) = ap length e in
    inr (
      t,
      record { ready_count = sub_mword s.ready_count 1; ready_queue = update s.ready_queue i rest },
      refl,
      record {
        level = i;
        rest = rest;
        below_max = omega (arith, range);
        better_empty = clear;
        first = e;
        left = update_self s.ready_queue i rest;
        others = λ j ne. update_ne s.ready_queue i j rest ne;
        counted = record {
          count = omega (arith, v.count, v.word, sums, size);
          word = omega (arith, v.word, sums, size);
        };
      },
    )

-- For a scheduler whose count is the number of its ready threads and below 2 ^ 64, and a maximum
-- level of at most 3, `dequeue` either returns no thread, and all levels below the maximum are
-- empty, or takes the first thread of the first level that is not empty, leaves the other levels
-- as they were, and counts the threads again.
pub dequeue_lem :
    (s : Scheduler) (max_level : ℕ)
    → IsCounted s
    → max_level ≤ max_priority
    → ((dequeue s max_level ≡ none) × ((j : ℕ) → j < max_level → s.ready_queue j ≡ []))
      ⊎ ((t : ℕ) × (s' : Scheduler) × (dequeue s max_level ≡ some (t, s'))
          × IsTaken s max_level t s')
unfolding dequeue
dequeue_lem s max_level v small =
    dequeue_from-IsTaken s max_level 0 max_level (s.ready_queue 0) v (omega arith) small refl
      (λ j lt. absurd (omega (arith, lt)))

-- A thread is added behind those of its priority.
pub enqueue-IsCounted :
    (s : Scheduler) (t priority : ℕ)
    → IsCounted s
    → priority < max_priority
    → total s.ready_queue + 1 < mword_mod
    → (s' : Scheduler) × (enqueue s t priority ≡ some (s', s.ready_count == 0))
      × (s'.ready_queue priority ≡ s.ready_queue priority ++ (t ∷ []))
      × IsCounted s'
unfolding enqueue
enqueue-IsCounted s t priority v lt room =
    let behind = s.ready_queue priority ++ (t ∷ []) in
    let in_range : ltb priority max_priority ≡ true = ground (arith, lt) in
    let sums = total-update s.ready_queue priority behind lt in
    let size = length-append (s.ready_queue priority) (t ∷ []) in
    (
      record {
        ready_count = add_mword s.ready_count 1;
        ready_queue = update s.ready_queue priority behind;
      },
      rw in_range refl,
      update_self s.ready_queue priority behind,
      record {
        count = omega (arith, v.count, room, sums, size);
        word = omega (arith, room, sums, size);
      },
    )
