-- ===== src/SpinLock/Tests.antt =====
-- The locks of src/kernel/SpinLock.h: a nested acquisition, and two callers that draw and one enters.
use kos_hspabla.Prelude.{ℕ, ◌≤◌, ◌≡◌, ◌≢◌, true, false, refl, arith, some, List, [], ◌∷◌}
use kos_hspabla.Basics.{limit, add_mword}
use kos_hspabla.SpinLock.{
  TicketSpinLock, OwnerSpinLock, ticket_init, ticket_draw, ticket_release, owner_try, owner_release,
}
use kos_hspabla.SpinLock.Owner.{free, held_by, acquire_times, release_times, owner_nested}
use kos_hspabla.SpinLock.Ticket.{Call, Reachable, start, after, draw, enter, Outside}
use kos_hspabla.SpinLock.Fair.{ticket_exclusion, ticket_progress}

owner_nested_example :
    (acquire_times limit 3 3 (free limit) ≡ held_by limit 3 3)
    × ((k : ℕ)
        → k ≤ 2
        → (l : OwnerSpinLock) × (release_times limit 3 k (held_by limit 3 3) ≡ some l)
          × ((q : ℕ) → q ≢ 3 → owner_try limit l q ≡ (false, l))
          × (k ≡ 2 → owner_release limit l 3 ≡ some (free limit)))
owner_nested_example = owner_nested limit 3 2 (omega arith) (omega arith)

abbrev two_drawn : TicketSpinLock
two_drawn = record { serving = 0; ticket = 2 }

abbrev inside : Call
inside = record { my_ticket = 0; entered = true }

abbrev next_one : Call
next_one = record { my_ticket = 1; entered = false }

two_callers : Reachable 4 (record { lock = two_drawn; calls = inside ∷ next_one ∷ [] })
unfolding ticket_init ticket_draw
two_callers =
    after _ _
      (after _ _ (after _ _ start (draw ticket_init [] (omega arith))) (
        draw (record { serving = 0; ticket = 1 }) (record inside { entered = false } ∷ [])
          (omega arith)))
      (enter two_drawn [] (record inside { entered = false }) (next_one ∷ []) refl)

abbrev nobody : List Call
nobody = []

ticket_exclusion_example : (nobody ≡ []) × Outside (next_one ∷ [])
ticket_exclusion_example =
    ticket_exclusion 4 two_drawn nobody inside (next_one ∷ []) (omega arith) two_callers refl

ticket_progress_example :
    (inside.my_ticket ≡ two_drawn.serving)
    × (ticket_release two_drawn ≡ some (record two_drawn { serving = add_mword 0 1 }))
    × ((d : Call) (zs : List Call) → next_one ∷ [] ≡ d ∷ zs → d.my_ticket ≡ add_mword 0 1)
ticket_progress_example =
    ticket_progress 4 two_drawn inside (next_one ∷ []) (omega arith) two_callers
