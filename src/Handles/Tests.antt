-- ===== src/Handles/Tests.antt =====
-- A handle is opened and used, and closed meanwhile.
use kos_hspabla.Prelude.{ℕ, Bool, true, false, ◌≡◌, refl, update, none, some, [], ◌∷◌}
use mathlib.Core.Option
use kos_hspabla.Sync.{resume, block}
use kos_hspabla.Sync.Locks.{condition_block, condition_signal}
use kos_hspabla.ManagedArray
use kos_hspabla.ManagedArray.{ManagedArray, raw, elem}
use kos_hspabla.Handles.{Handles, access, done, remove, refused}
use kos_hspabla.Handles.Fair.{Uses, put_use}
use kos_hspabla.Handles.Steps.{Opened}

abbrev none_open : Handles
none_open = record {
  table = record {
    data_at = λ i. raw;
    freestack = none;
    index = 0;
    capacity = 4;
    freecount = 0;
    checkbits = λ i. false;
  };
  count = λ e. 0;
  waiting = λ e. [];
}

-- The object at 64 behind handle 0.
abbrev one_open : Handles
one_open = record {
  table = record {
    data_at = update (λ i. raw) 0 (elem 64);
    freestack = none;
    index = 1;
    capacity = 4;
    freecount = 0;
    checkbits = update (λ i. false) 0 true;
  };
  count = update (λ e. 0) 64 0;
  waiting = update (λ e. []) 64 [];
}

abbrev one_used : Handles
one_used = record one_open { count = update one_open.count 64 1 }

-- Thread 3 waits to remove the object.
abbrev closed_meanwhile : Handles
closed_meanwhile = record one_used {
  waiting = update one_used.waiting 64 (record { thread = 3; armed = true } ∷ []);
}

abbrev nothing_marked : ℕ → Bool
nothing_marked i = false

abbrev no_uses : Uses
no_uses i e = 0

abbrev first_state : Opened
first_state = record {
  handles = none_open;
  uses = no_uses;
  closing = nothing_marked;
  returning = nothing_marked;
}

abbrev opened_state : Opened
opened_state = record first_state { handles = one_open }

abbrev used_state : Opened
used_state = record opened_state { handles = one_used; uses = put_use no_uses 0 64 1 }

abbrev asked_state : Opened
asked_state = record used_state { handles = closed_meanwhile }

-- Its only user ends its use.
abbrev ended_use : Handles
ended_use = record closed_meanwhile {
  table = record one_open.table { checkbits = update one_open.table.checkbits 0 false };
  count = update closed_meanwhile.count 64 0;
  waiting = update closed_meanwhile.waiting 64 [];
}

abbrev ended_state : Opened
ended_state = record {
  handles = ended_use;
  uses = put_use asked_state.uses 0 64 0;
  closing = update nothing_marked 64 true;
  returning = update nothing_marked 0 true;
}

-- The object at 128 behind handle 1.
abbrev second_open : Handles
second_open = record {
  table = record ended_use.table {
    data_at = update ended_use.table.data_at 1 (elem 128);
    index = 2;
    checkbits = update ended_use.table.checkbits 1 true;
  };
  count = update ended_use.count 128 0;
  waiting = update ended_use.waiting 128 [];
}

abbrev second_used : Handles
second_used = record second_open { count = update second_open.count 128 1 }

abbrev second_opened : Opened
second_opened = record ended_state { handles = second_open }

abbrev second_state : Opened
second_state = record ended_state { handles = second_used; uses = put_use ended_state.uses 1 128 1 }

no_access : access closed_meanwhile 0 ≡ some (none, closed_meanwhile)
unfolding access ManagedArray.valid ManagedArray.get
no_access = refl

-- The last user wakes thread 3, and nobody if that has been cancelled.
last_user : Option.map (λ r. r.0) (done closed_meanwhile 0) ≡ some (some 3)
unfolding done ManagedArray.valid ManagedArray.get ManagedArray.invalidate condition_signal resume
last_user = refl

last_user_cancelled :
    Option.map
      (λ r. r.0)
      (done
        (record closed_meanwhile {
          waiting = update one_used.waiting 64 (record { thread = 3; armed = false } ∷ []);
        })
        0)
    ≡ some none
unfolding done ManagedArray.valid ManagedArray.get ManagedArray.invalidate condition_signal resume
last_user_cancelled = refl

-- A cancelled thread returns with the object that is in use.
remove_cancelled : remove one_used 0 4 true ≡ some (refused, one_used)
unfolding remove ManagedArray.valid ManagedArray.get condition_block block
remove_cancelled = refl
