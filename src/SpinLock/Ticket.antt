-- ===== src/SpinLock/Ticket.antt =====
-- TicketSpinLock of src/kernel/SpinLock.h under any interleaving of the callers of `acquire` and
-- `release`. A caller has drawn a ticket and waits, or has entered. The callers stand in the order
-- in which they drew. Every core has at most one call of a lock pending, since interrupts are off.
use mathlib.Core.Bool.{false≢true}
use kos_hspabla.Prelude.{
  ℕ, suc, ◌+◌, ◌<◌, ◌≤◌, ◌%◌, ◌^◌, ltb, Bool, true, false, ◌≡◌, refl, sym, ◌∙◌, ap, arith, some,
  List, [], ◌∷◌, ◌++◌, length, All,
}
use kos_hspabla.Basics.{mword_mod, add_mword, sub_mword}
use kos_hspabla.SpinLock.{TicketSpinLock, ticket_init, ticket_check, ticket_draw, ticket_release}

pub record Call : Type 0 where
  pub my_ticket : ℕ
  pub entered : Bool

pub record System : Type 0 where
  pub lock : TicketSpinLock
  pub calls : List Call

module _ (cores : ℕ) where
  pub data Step : System → System → Type 0 where
    draw :
        (l : TicketSpinLock) (calls : List Call)
        → length calls < cores
        → Step
            (record { lock = l; calls = calls })
            (record {
              lock = (ticket_draw l).1;
              calls = calls ++ (record { my_ticket = (ticket_draw l).0; entered = false } ∷ []);
            })
    enter :
        (l : TicketSpinLock) (xs : List Call) (c : Call) (ys : List Call)
        → c.my_ticket ≡ l.serving
        → Step
            (record { lock = l; calls = xs ++ (c ∷ ys) })
            (record { lock = l; calls = xs ++ (record c { entered = true } ∷ ys) })
    leave :
        (l l' : TicketSpinLock) (xs : List Call) (c : Call) (ys : List Call)
        → c.entered ≡ true
        → ticket_release l ≡ some l'
        → Step
            (record { lock = l; calls = xs ++ (c ∷ ys) })
            (record { lock = l'; calls = xs ++ ys })

  pub data Reachable : System → Type 0 where
    start : Reachable (record { lock = ticket_init; calls = [] })
    after : (s t : System) → Reachable s → Step s t → Reachable t

-- From `t` on the tickets are consecutive.
abbrev pub Consecutive : ℕ → List Call → Type 0
Consecutive t [] = Unit
Consecutive t (c ∷ cs) = (c.my_ticket ≡ t) × Consecutive (add_mword t 1) cs

abbrev pub Outside : List Call → Type 0
Outside cs = All (λ c. c.entered ≡ false) cs

-- At most the first caller has entered.
abbrev pub FirstOnly : List Call → Type 0
FirstOnly [] = Unit
FirstOnly (c ∷ cs) = Outside cs

pub record IsFair (cores : ℕ) (s : System) : Type 0 where
  pub turn : s.lock.serving < mword_mod
  pub drawn : s.lock.ticket ≡ (s.lock.serving + length s.calls) % mword_mod
  pub crowd : length s.calls ≤ cores
  pub tickets : Consecutive s.lock.serving s.calls
  pub only : FirstOnly s.calls

pub length-snoc : (xs : List Call) (c : Call) → length (xs ++ (c ∷ [])) ≡ suc (length xs)
length-snoc [] c = omega arith
length-snoc (x ∷ xs) c = omega (arith, length-snoc xs c)

pub length-middle :
    (xs : List Call) (c d : Call) (ys : List Call)
    → length (xs ++ (c ∷ ys)) ≡ length (xs ++ (d ∷ ys))
length-middle [] c d ys = refl
length-middle (x ∷ xs) c d ys = ap suc (length-middle xs c d ys)

pub Consecutive-snoc :
    (t : ℕ) (xs : List Call) (c : Call)
    → t < mword_mod
    → Consecutive t xs
    → c.my_ticket ≡ (t + length xs) % mword_mod
    → Consecutive t (xs ++ (c ∷ []))
Consecutive-snoc t [] c lt h e = (omega (arith, e), tt)
Consecutive-snoc t (x ∷ xs) c lt h e =
    (h.0, Consecutive-snoc (add_mword t 1) xs c (omega arith) h.1 (omega (arith, e)))

pub Consecutive-middle :
    (t : ℕ) (xs : List Call) (c d : Call) (ys : List Call)
    → c.my_ticket ≡ d.my_ticket
    → Consecutive t (xs ++ (c ∷ ys))
    → Consecutive t (xs ++ (d ∷ ys))
Consecutive-middle t [] c d ys e h = (sym e ∙ h.0, h.1)
Consecutive-middle t (x ∷ xs) c d ys e h = (h.0, Consecutive-middle (add_mword t 1) xs c d ys e h.1)

-- The caller that stands behind `xs` has the ticket that many numbers on.
pub ticket_at :
    (t : ℕ) (xs : List Call) (c : Call) (ys : List Call)
    → t < mword_mod
    → Consecutive t (xs ++ (c ∷ ys))
    → c.my_ticket ≡ (t + length xs) % mword_mod
ticket_at t [] c ys lt h = omega (arith, h.0)
ticket_at t (x ∷ xs) c ys lt h = omega (arith, ticket_at (add_mword t 1) xs c ys (omega arith) h.1)

Outside-snoc :
    (xs : List Call) (c : Call) → c.entered ≡ false → Outside xs → Outside (xs ++ (c ∷ []))
Outside-snoc [] c e h = (e, tt)
Outside-snoc (x ∷ xs) c e h = (h.0, Outside-snoc xs c e h.1)

pub FirstOnly-snoc :
    (xs : List Call) (c : Call) → c.entered ≡ false → FirstOnly xs → FirstOnly (xs ++ (c ∷ []))
FirstOnly-snoc [] c e h = tt
FirstOnly-snoc (x ∷ xs) c e h = Outside-snoc xs c e h

Outside-middle :
    (xs : List Call) (c : Call) (ys : List Call) → Outside (xs ++ (c ∷ ys)) → c.entered ≡ false
Outside-middle [] c ys h = h.0
Outside-middle (x ∷ xs) c ys h = Outside-middle xs c ys h.1

-- Who has entered stands first.
pub first_in :
    (xs : List Call) (c : Call) (ys : List Call)
    → FirstOnly (xs ++ (c ∷ ys))
    → c.entered ≡ true
    → (xs ≡ []) × Outside ys
first_in [] c ys h e = (refl, h)
first_in (x ∷ xs) c ys h e = absurd (false≢true (sym (Outside-middle xs c ys h) ∙ e))

pub behind :
    (n : ℕ) (xs : List Call)
    → (n + length xs) % mword_mod ≡ n
    → n < mword_mod
    → length xs < mword_mod
    → xs ≡ []
behind n [] e lt small = refl
behind n (x ∷ xs) e lt small = absurd (omega arith)

pub length-middle-add :
    (xs : List Call) (c : Call) (ys : List Call)
    → length xs + suc (length ys) ≡ length (xs ++ (c ∷ ys))
length-middle-add [] c ys = omega arith
length-middle-add (x ∷ xs) c ys = omega (arith, length-middle-add xs c ys)

-- The assertion of `release` holds while a caller is there.
pub release_here :
    (cores : ℕ) (l : TicketSpinLock) (n : ℕ)
    → cores < 2 ^ 63
    → l.serving < mword_mod
    → l.ticket ≡ (l.serving + suc n) % mword_mod
    → suc n ≤ cores
    → ticket_release l ≡ some (record l { serving = add_mword l.serving 1 })
unfolding ticket_release ticket_check
release_here cores l n few turn drawn crowd =
    let waiting : sub_mword l.ticket l.serving ≡ suc n = omega (arith, drawn) in
    let low : ltb 0 (suc n) ≡ true = ground arith in
    let high : ltb (suc n) (2 ^ 63) ≡ true = ground arith in rw (waiting, low, high) refl
