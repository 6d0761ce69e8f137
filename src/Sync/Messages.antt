-- ===== src/Sync/Messages.antt =====
-- `class MessageQueue` of src/runtime/SyncQueues.h, over the ring buffer and two queues of blocked
-- threads. `none` and `fails` are failed assertions of the ring buffer.
use kos_hspabla.Prelude.{ℕ, ◌==◌, Bool, if◌then◌else◌, Option, none, some, ◌>>=◌, List, []}
use kos_hspabla.Basics.{add_mword, sub_mword}
use kos_hspabla.RingBuffer.{RingBuffer, front, push, pop}
use kos_hspabla.Sync.{Waiter, block, resume}

pub record Messages {ℓ} (A : Type ℓ) : Type ℓ where
  pub buffer : RingBuffer A
  pub send_slots : ℕ
  pub recv_slots : ℕ
  pub send_queue : List Waiter
  pub recv_queue : List Waiter

-- What a call comes to: it returns true, having woken a thread or not; it is suspended; it returns
-- false; an assertion fails. `B` is what it gives back.
pub data CallResult {ℓ κ} (A : Type ℓ) (B : Type κ) : Type (ℓ ⊔ κ) where
  returns : Messages A → Option ℕ → B → CallResult A B
  waits : Messages A → CallResult A B
  refused : CallResult A B
  fails : CallResult A B

module _ {ℓ} {A : Type ℓ} where
  -- The constructor, on an empty buffer.
  unfoldable pub of_buffer : RingBuffer A → Messages A
  of_buffer b = record {
    buffer = b;
    send_slots = b.max;
    recv_slots = 0;
    send_queue = [];
    recv_queue = [];
  }

  -- Baton passing: a thread is woken, or the slot is counted.
  unfoldable pub pass_to_receiver : Messages A → Option (ℕ × List Waiter) → Messages A × Option ℕ
  pass_to_receiver q none = (record q { recv_slots = add_mword q.recv_slots 1 }, none)
  pass_to_receiver q (some (t, queue)) = (record q { recv_queue = queue }, some t)

  unfoldable pub pass_to_sender : Messages A → Option (ℕ × List Waiter) → Messages A × Option ℕ
  pass_to_sender q none = (record q { send_slots = add_mword q.send_slots 1 }, none)
  pass_to_sender q (some (t, queue)) = (record q { send_queue = queue }, some t)

  -- From `buffer.push` on.
  unfoldable pub put : Messages A → A → Option (Messages A × Option ℕ)
  put q x = push q.buffer x >>= λ b.
      some (pass_to_receiver (record q { buffer = b }) (resume q.recv_queue))

  -- From `buffer.front` on.
  unfoldable pub take : Messages A → Option ((Messages A × Option ℕ) × A)
  take q = front q.buffer >>= λ x.
      pop q.buffer >>= λ b. some (pass_to_sender (record q { buffer = b }) (resume q.send_queue), x)

  abbrev pub sent_call : Option (Messages A × Option ℕ) → CallResult A (Unit {0})
  sent_call none = fails
  sent_call (some (q, woken)) = returns q woken (record {})

  abbrev pub received_call : Option ((Messages A × Option ℕ) × A) → CallResult A A
  received_call none = fails
  received_call (some ((q, woken), x)) = returns q woken x

  abbrev pub waits_on {κ} :
      {B : Type κ} → Option (List Waiter) → (List Waiter → Messages A) → CallResult A B
  waits_on none f = refused
  waits_on (some queue) f = waits (f queue)

  unfoldable pub internal_send : Messages A → ℕ → Bool → ℕ → A → CallResult A (Unit {0})
  internal_send q t cancelled timeout x =
      if q.send_slots == 0
      then waits_on (block t cancelled timeout q.send_queue)
          (λ queue. record q { send_queue = queue })
      else sent_call (put (record q { send_slots = sub_mword q.send_slots 1 }) x)

  unfoldable pub internal_recv : Messages A → ℕ → Bool → ℕ → CallResult A A
  internal_recv q t cancelled timeout =
      if q.recv_slots == 0
      then waits_on (block t cancelled timeout q.recv_queue)
          (λ queue. record q { recv_queue = queue })
      else received_call (take (record q { recv_slots = sub_mword q.recv_slots 1 }))
