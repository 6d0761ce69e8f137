-- ===== src/Scheduler/Tests.antt =====
-- A scheduler of src/runtime/Scheduler.h with threads of two priorities.
use kos_hspabla.Prelude.{◌==◌, if◌then◌else◌, refl, arith, [], ◌∷◌}
use kos_hspabla.Scheduler.{Scheduler, idle_priority}
use kos_hspabla.Scheduler.Ready.{IsCounted}

-- Threads 7 and 8 of the default priority, and 9 of the idle priority.
abbrev three_ready : Scheduler
three_ready = record {
  ready_count = 3;
  ready_queue = λ i. if i == 1 then 7 ∷ 8 ∷ [] else if i == idle_priority then 9 ∷ [] else [];
}

three_ready-IsCounted : IsCounted three_ready
three_ready-IsCounted = record { count = refl; word = omega arith }
