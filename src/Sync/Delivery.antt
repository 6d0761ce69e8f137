-- ===== src/Sync/Delivery.antt =====
-- What the message queue of src/runtime/SyncQueues.h promises its callers in any interleaving.
use kos_hspabla.Prelude.{
  ℕ, ◌+◌, ◌≤◌, Bool, ◌≡◌, ◌≢◌, refl, sym, ◌∙◌, ap, arith, none, List, [], ◌∷◌, ◌++◌, length, ◌⊎◌,
  inl, inr, ℕ_discrete,
}
use kos_hspabla.RingBuffer.{RingBuffer}
use kos_hspabla.RingBuffer.Contents.{IsValid, contents}
use kos_hspabla.Sync.{resume}
use kos_hspabla.Sync.Messages.{fails, put, take, internal_send, internal_recv}
use kos_hspabla.Sync.Unarmed.{some-none}
use kos_hspabla.Sync.Calls.{internal_send-fails, internal_recv-fails}
use kos_hspabla.Sync.Slots.{System, Reachable}
use kos_hspabla.Sync.Order.{IsSoundBut, put-IsSound, take-IsSound}
use kos_hspabla.Sync.Steps.{
  Reachable-IsSound, take_send_slot, take_recv_slot, sender_back, receiver_back,
}

list-cases : (xs : List ℕ) → (xs ≡ []) ⊎ ((x : ℕ) × (rest : List ℕ) × (xs ≡ x ∷ rest))
list-cases [] = inl refl
list-cases (x ∷ rest) = inr (x, rest, refl)

module _ {ℓ} {A : Type ℓ} where
  put_works : (x : A) (s : System A) → IsSoundBut 1 0 s → put s.queue x ≢ none
  put_works x s v e = let (q, woken, run, sound) = put-IsSound s x v in some-none (sym run ∙ e)

  take_works : (s : System A) → IsSoundBut 0 1 s → take s.queue ≢ none
  take_works s v e = let (q, woken, x, run, sound) = take-IsSound s v in some-none (sym run ∙ e)

module _ {ℓ} {A : Type ℓ} (b : RingBuffer A) (s : System A) (v : IsValid b) (nothing : b.count ≡ 0)
    (r : Reachable b s) where
  -- For a buffer in range that starts empty, and a state that calls to send and receive,
  -- wake-ups, timeouts and cancellations reach in any interleaving, the messages sent so far are
  -- those received so far followed by the contents of the buffer, which has room for them.
  pub delivered_in_order :
      (s.sent ≡ s.received ++ contents s.queue.buffer) × (s.queue.buffer.count ≤ s.queue.buffer.max)
  delivered_in_order =
      let sound = Reachable-IsSound b s v nothing r in (sound.order, sound.valid.within)

  -- For a buffer in range that starts empty, and a state that calls to send and receive,
  -- wake-ups, timeouts and cancellations reach in any interleaving, no call to send or receive
  -- fails an assertion, and neither does a woken sender when it puts its message or a woken
  -- receiver when it takes one.
  pub calls_never_fail :
      (t timeout : ℕ) (cancelled : Bool) (x : A)
      → (internal_send s.queue t cancelled timeout x ≢ fails)
        × (internal_recv s.queue t cancelled timeout ≢ fails)
        × ((s.senders ≡ []) ⊎ (put s.queue x ≢ none))
        × ((s.receivers ≡ []) ⊎ (take s.queue ≢ none))
  calls_never_fail t timeout cancelled x =
      let sound = Reachable-IsSound b s v nothing r in
      (
        λ e.
            let (left, failed) = internal_send-fails s.queue t cancelled timeout x e in
            put_works x _ (take_send_slot s sound left) failed,
        λ e.
            let (left, failed) = internal_recv-fails s.queue t cancelled timeout e in
            take_works _ (take_recv_slot s sound left) failed,
        elim (list-cases s.senders) [
          | inl nobody ↦ inl nobody
          | inr (t', behind, e) ↦ inr (put_works x _ (sender_back s t' [] behind sound e))
        ],
        elim (list-cases s.receivers) [
          | inl nobody ↦ inl nobody
          | inr (t', behind, e) ↦ inr (take_works _ (receiver_back s t' [] behind sound e))
        ],
      )

  -- For a buffer in range that starts empty, and a state that calls to send and receive,
  -- wake-ups, timeouts and cancellations reach in any interleaving, and in which no thread is
  -- woken and not gone on and none was lost, no sender waits that could be woken unless the
  -- buffer is full, and no receiver unless it is empty.
  pub waits_for_reason :
      s.senders ≡ []
      → s.receivers ≡ []
      → s.lost_senders + s.lost_receivers ≡ 0
      → ((resume s.queue.send_queue ≡ none) ⊎ (s.queue.buffer.count ≡ s.queue.buffer.max))
        × ((resume s.queue.recv_queue ≡ none) ⊎ (s.queue.buffer.count ≡ 0))
  waits_for_reason no_senders no_receivers kept =
      let sound = Reachable-IsSound b s v nothing r in
      (
        elim (ℕ_discrete s.queue.send_slots 0) [
          | yes full ↦ inr (omega (arith, full, sound.free, ap length no_senders, kept))
          | no free ↦ inl (sound.no_sender (omega (arith, free)))
        ],
        elim (ℕ_discrete s.queue.recv_slots 0) [
          | yes full ↦ inr (omega (arith, full, sound.filled, ap length no_receivers, kept))
          | no free ↦ inl (sound.no_receiver (omega (arith, free)))
        ],
      )
