-- ===== src/SpinLock/Fair.antt =====
-- TicketSpinLock of src/kernel/SpinLock.h excludes, is fair, and never fails an assertion.
use mathlib.Core.Path.{subst}
use mathlib.Core.Option.{some-injective}
use kos_hspabla.Prelude.{
  ℕ, ◌<◌, ◌^◌, true, false, ◌≡◌, refl, sym, ◌∙◌, arith, some, List, [], ◌∷◌, ◌++◌, length,
}
use kos_hspabla.Basics.{add_mword}
use kos_hspabla.SpinLock.{TicketSpinLock, ticket_init, ticket_draw, ticket_release}
use kos_hspabla.SpinLock.Ticket.{
  Call, System, draw, enter, leave, Reachable, start, after, Consecutive, Outside, FirstOnly,
  IsFair, length-snoc, length-middle, Consecutive-snoc, Consecutive-middle, ticket_at,
  FirstOnly-snoc, first_in, behind, length-middle-add, release_here,
}

module _ (cores : ℕ) (few : cores < 2 ^ 63) where
  draw-IsFair :
      (l : TicketSpinLock) (calls : List Call)
      → IsFair cores (record { lock = l; calls = calls })
      → length calls < cores
      → IsFair cores (record {
        lock = (ticket_draw l).1;
        calls = calls ++ (record { my_ticket = (ticket_draw l).0; entered = false } ∷ []);
      })
  unfolding ticket_draw
  draw-IsFair l calls v room =
      let c : Call = record { my_ticket = l.ticket; entered = false } in
      record {
        turn = v.turn;
        drawn = omega (arith, v.drawn, length-snoc calls c);
        crowd = omega (arith, length-snoc calls c);
        tickets = Consecutive-snoc l.serving calls c v.turn v.tickets v.drawn;
        only = FirstOnly-snoc calls c refl v.only;
      }

  enter-IsFair :
      (l : TicketSpinLock) (xs : List Call) (c : Call) (ys : List Call)
      → IsFair cores (record { lock = l; calls = xs ++ (c ∷ ys) })
      → c.my_ticket ≡ l.serving
      → IsFair cores (record { lock = l; calls = xs ++ (record c { entered = true } ∷ ys) })
  enter-IsFair l xs c ys v mine =
      let c' : Call = record c { entered = true } in
      let size = length-middle xs c c' ys in
      let front : xs ≡ [] =
        behind l.serving xs (sym (ticket_at l.serving xs c ys v.turn v.tickets) ∙ mine) v.turn
          (omega (arith, length-middle-add xs c ys, v.crowd)) in
      record {
        turn = v.turn;
        drawn = omega (arith, v.drawn, size);
        crowd = omega (arith, v.crowd, size);
        tickets = Consecutive-middle l.serving xs c c' ys refl v.tickets;
        only =
            subst (λ zs. FirstOnly (zs ++ (c' ∷ ys))) (sym front)
              (subst (λ zs. FirstOnly (zs ++ (c ∷ ys))) front v.only);
      }

  leave-IsFair :
      (l l' : TicketSpinLock) (xs : List Call) (c : Call) (ys : List Call)
      → IsFair cores (record { lock = l; calls = xs ++ (c ∷ ys) })
      → c.entered ≡ true
      → ticket_release l ≡ some l'
      → IsFair cores (record { lock = l'; calls = xs ++ ys })
  leave-IsFair l l' xs c ys v inside e =
      let (front, outside) = first_in xs c ys v.only inside in
      let v' : IsFair cores (record { lock = l; calls = c ∷ ys }) =
        subst (λ zs. IsFair cores (record { lock = l; calls = zs ++ (c ∷ ys) })) front v in
      let released = release_here cores l (length ys) few v.turn v'.drawn v'.crowd in
      subst (λ zs. IsFair cores (record { lock = l'; calls = zs ++ ys })) (sym front)
        (subst (λ k. IsFair cores (record { lock = k; calls = ys }))
          (some-injective _ _ (sym released ∙ e))
          (record {
            turn = omega arith;
            drawn = omega (arith, v'.drawn);
            crowd = omega (arith, v'.crowd);
            tickets = v'.tickets.1;
            only = first_of ys outside;
          }))
    where
      first_of : (zs : List Call) → Outside zs → FirstOnly zs
      first_of [] h = tt
      first_of (z ∷ zs) h = h.1

  Reachable-IsFair : (s : System) → Reachable cores s → IsFair cores s
  unfolding ticket_init
  Reachable-IsFair _ start = record {
    turn = omega arith;
    drawn = omega arith;
    crowd = omega arith;
    tickets = tt;
    only = tt;
  }
  Reachable-IsFair _ (after _ _ r (draw l calls room)) =
      draw-IsFair l calls (Reachable-IsFair _ r) room
  Reachable-IsFair _ (after _ _ r (enter l xs c ys mine)) =
      enter-IsFair l xs c ys (Reachable-IsFair _ r) mine
  Reachable-IsFair _ (after _ _ r (leave l l' xs c ys inside e)) =
      leave-IsFair l l' xs c ys (Reachable-IsFair _ r) inside e

-- For fewer than 2 ^ 63 cores and a state that `acquire` and `release` of TicketSpinLock reach
-- from the start in any interleaving with at most one call pending for each core, a caller that
-- has entered is the oldest of all callers present, and none of the others has entered.
pub ticket_exclusion :
    (cores : ℕ) (l : TicketSpinLock) (xs : List Call) (c : Call) (ys : List Call)
    → cores < 2 ^ 63
    → Reachable cores (record { lock = l; calls = xs ++ (c ∷ ys) })
    → c.entered ≡ true
    → (xs ≡ []) × Outside ys
ticket_exclusion cores l xs c ys few r inside =
    first_in xs c ys (Reachable-IsFair cores few _ r).only inside

-- For fewer than 2 ^ 63 cores and a state of TicketSpinLock reachable likewise in which a caller
-- is present, it is the oldest caller's turn, `release` fails no assertion and adds one to
-- `serving` modulo 2 ^ 64, and that number is the second caller's ticket, if there is one.
pub ticket_progress :
    (cores : ℕ) (l : TicketSpinLock) (c : Call) (ys : List Call)
    → cores < 2 ^ 63
    → Reachable cores (record { lock = l; calls = c ∷ ys })
    → (c.my_ticket ≡ l.serving)
      × (ticket_release l ≡ some (record l { serving = add_mword l.serving 1 }))
      × ((d : Call) (zs : List Call) → ys ≡ d ∷ zs → d.my_ticket ≡ add_mword l.serving 1)
ticket_progress cores l c ys few r =
    let v = Reachable-IsFair cores few _ r in
    (
      v.tickets.0,
      release_here cores l (length ys) few v.turn v.drawn v.crowd,
      λ d zs e. (subst (Consecutive (add_mword l.serving 1)) e v.tickets.1).0,
    )
