-- ===== src/SpinLock.antt =====
-- src/kernel/SpinLock.h: the operations of BinarySpinLock, OwnerSpinLock and TicketSpinLock on the
-- lock's memory, one atomic access at a time. `none` is a failed assertion. That interrupts are off
-- is an assertion on the processor's state, which is not part of the lock.
pub mod Owner
pub mod Ticket
pub mod Fair
mod Tests
use kos_hspabla.Prelude.{
  ℕ, ◌+◌, ◌*◌, ◌^◌, ◌%◌, ◌==◌, ltb, Bool, true, false, not, ◌&&◌, if◌then◌else◌, Option, none, some,
}
use kos_hspabla.Basics.{mword_mod, add_mword, sub_mword}

-- `BinarySpinLock` is `locked`. `__atomic_test_and_set` gives the old value.
unfoldable pub test_and_set : Bool → Bool × Bool
test_and_set locked = (locked, true)

unfoldable pub binary_try : Bool → Bool × Bool
binary_try locked = let (old, locked') = test_and_set locked in (not old, locked')

unfoldable pub binary_release : Bool → Option Bool
binary_release locked = if locked then some false else none

pub record OwnerSpinLock : Type 0 where
  pub owner : ℕ
  pub counter : ℕ

module _ (no_owner : ℕ) where
  -- The compare-exchange of `noOwner` against the requestor: the result and the lock.
  unfoldable pub exchange_owner : OwnerSpinLock → ℕ → Bool × OwnerSpinLock
  exchange_owner l requestor =
      if l.owner == no_owner then (true, record l { owner = requestor }) else (false, l)

  abbrev count_up : OwnerSpinLock → OwnerSpinLock
  count_up l = record l { counter = add_mword l.counter 1 }

  -- `tryAcquire`; `acquire` is this again until it answers true.
  unfoldable pub owner_try : OwnerSpinLock → ℕ → Bool × OwnerSpinLock
  owner_try l requestor =
      let (won, l') = exchange_owner l requestor in
      if l.owner == requestor
      then (true, count_up l)
      else if won
      then (true, count_up l')
      else (false, l)

  unfoldable pub owner_release : OwnerSpinLock → ℕ → Option OwnerSpinLock
  owner_release l requestor =
      let counter = sub_mword l.counter 1 in
      if l.owner == requestor
      then some (record { owner = if counter == 0 then no_owner else l.owner; counter = counter })
      else none

  unfoldable pub owner_check : OwnerSpinLock → Bool
  owner_check l = not (l.owner == no_owner)

pub record TicketSpinLock : Type 0 where
  pub serving : ℕ
  pub ticket : ℕ

unfoldable pub ticket_init : TicketSpinLock
ticket_init = record { serving = 0; ticket = 0 }

-- `sword(ticket - serving) > 0`
unfoldable pub ticket_check : TicketSpinLock → Bool
ticket_check l = let waiting = sub_mword l.ticket l.serving in ltb 0 waiting && ltb waiting (2 ^ 63)

-- The compare-exchange of `ticket` that `tryAcquire` makes with the `serving` it has read.
unfoldable pub ticket_exchange : TicketSpinLock → ℕ → Bool × TicketSpinLock
ticket_exchange l read =
    if l.ticket == read then (true, record l { ticket = add_mword read 1 }) else (false, l)

-- The fetch-and-add of `acquire`: the ticket drawn and the lock.
unfoldable pub ticket_draw : TicketSpinLock → ℕ × TicketSpinLock
ticket_draw l = (l.ticket, record l { ticket = add_mword l.ticket 1 })

unfoldable pub ticket_release : TicketSpinLock → Option TicketSpinLock
ticket_release l =
    if ticket_check l then some (record l { serving = add_mword l.serving 1 }) else none
