-- ===== src/Sync/Steps.antt =====
-- Every step of the message queue in src/runtime/SyncQueues.h keeps its slots accounted for.
use mathlib.Core.Path.{subst}
use mathlib.Core.Option.{some-injective}
use kos_hspabla.Prelude.{
  ℕ, suc, ◌<◌, ◌≡◌, refl, sym, ◌∙◌, ap, arith, Option, none, some, List, ◌∷◌, ◌++◌, length,
  length-append,
}
use kos_hspabla.Basics.{sub_mword}
use kos_hspabla.RingBuffer.{RingBuffer}
use kos_hspabla.RingBuffer.Contents.{IsValid, slots}
use kos_hspabla.Sync.{Waiter, resume, disarm, cancel_event}
use kos_hspabla.Sync.Messages.{Messages, of_buffer, put, take}
use kos_hspabla.Sync.Unarmed.{resume-disarm, resume-cancel_event}
use kos_hspabla.Sync.Calls.{
  internal_send-returns, internal_send-waits, internal_recv-returns, internal_recv-waits,
}
use kos_hspabla.Sync.Slots.{
  System, sent_by, received_by, Step, sends, send_waits, recvs, recv_waits, sender_goes_on,
  receiver_goes_on, sender_ends, receiver_ends, disarms, sender_leaves, receiver_leaves, fresh,
  Reachable, start, after, IsSound,
}
use kos_hspabla.Sync.Order.{IsSoundBut, put-IsSound, take-IsSound}

removed :
    (threads before behind : List ℕ) (t : ℕ)
    → threads ≡ before ++ (t ∷ behind)
    → length threads ≡ suc (length (before ++ behind))
removed threads before behind t e =
    ap length e ∙ omega (arith, length-append before (t ∷ behind), length-append before behind)

module _ {ℓ} {A : Type ℓ} where
  put-step :
      (s : System A) (x : A) (q : Messages A) (woken : Option ℕ)
      → IsSoundBut 1 0 s
      → put s.queue x ≡ some (q, woken)
      → IsSound (sent_by s q woken x)
  put-step s x q woken v e =
      let (q', woken', run, sound) = put-IsSound s x v in
      subst (λ (p : Messages A × Option ℕ). IsSound (sent_by s p.0 p.1 x))
        (some-injective _ _ (sym run ∙ e)) sound

  take-step :
      (s : System A) (x : A) (q : Messages A) (woken : Option ℕ)
      → IsSoundBut 0 1 s
      → take s.queue ≡ some ((q, woken), x)
      → IsSound (received_by s q woken x)
  take-step s x q woken v e =
      let (q', woken', x', run, sound) = take-IsSound s v in
      subst (λ (p : (Messages A × Option ℕ) × A). IsSound (received_by s p.0.0 p.0.1 p.1))
        (some-injective _ _ (sym run ∙ e)) sound

  -- A slot is taken off a count.
  pub take_send_slot :
      (s : System A)
      → IsSound s
      → 0 < s.queue.send_slots
      → IsSoundBut 1 0
          (record s { queue = record (s.queue) { send_slots = sub_mword s.queue.send_slots 1 } })
  take_send_slot s v left = record {
    valid = v.valid;
    filled = omega (arith, v.filled);
    free = omega (arith, v.free, left, v.valid.word);
    no_sender = λ h. v.no_sender left;
    no_receiver = v.no_receiver;
    order = v.order;
  }

  pub take_recv_slot :
      (s : System A)
      → IsSound s
      → 0 < s.queue.recv_slots
      → IsSoundBut 0 1
          (record s { queue = record (s.queue) { recv_slots = sub_mword s.queue.recv_slots 1 } })
  take_recv_slot s v left = record {
    valid = v.valid;
    filled = omega (arith, v.filled, left, v.valid.word, v.valid.within);
    free = omega (arith, v.free);
    no_sender = v.no_sender;
    no_receiver = λ h. v.no_receiver left;
    order = v.order;
  }

  pub sender_back :
      (s : System A) (t : ℕ) (before behind : List ℕ)
      → IsSound s
      → s.senders ≡ before ++ (t ∷ behind)
      → IsSoundBut 1 0 (record s { senders = before ++ behind })
  sender_back s t before behind v e = record {
    valid = v.valid;
    filled = omega (arith, v.filled);
    free = omega (arith, v.free, removed s.senders before behind t e);
    no_sender = v.no_sender;
    no_receiver = v.no_receiver;
    order = v.order;
  }

  pub receiver_back :
      (s : System A) (t : ℕ) (before behind : List ℕ)
      → IsSound s
      → s.receivers ≡ before ++ (t ∷ behind)
      → IsSoundBut 0 1 (record s { receivers = before ++ behind })
  receiver_back s t before behind v e = record {
    valid = v.valid;
    filled = omega (arith, v.filled, removed s.receivers before behind t e);
    free = omega (arith, v.free);
    no_sender = v.no_sender;
    no_receiver = v.no_receiver;
    order = v.order;
  }

  -- The queues of blocked threads change.
  requeued :
      (s : System A) (senders receivers : List Waiter)
      → IsSound s
      → (0 < s.queue.send_slots → resume senders ≡ none)
      → (0 < s.queue.recv_slots → resume receivers ≡ none)
      → IsSound
          (record s { queue = record (s.queue) { send_queue = senders; recv_queue = receivers } })
  requeued s senders receivers v h g = record {
    valid = v.valid;
    filled = v.filled;
    free = v.free;
    no_sender = h;
    no_receiver = g;
    order = v.order;
  }

  pub Step-IsSound : (s s' : System A) → Step s s' → IsSound s → IsSound s'
  Step-IsSound s _ (sends t timeout cancelled x q woken e) v =
      let (left, run) = internal_send-returns s.queue t cancelled timeout x q woken e in
      put-step
        (record s { queue = record (s.queue) { send_slots = sub_mword s.queue.send_slots 1 } }) x q
        woken (take_send_slot s v left) run
  Step-IsSound s _ (send_waits t timeout cancelled x q e) v =
      let (full, queue, same) = internal_send-waits s.queue t cancelled timeout x q e in
      subst (λ q'. IsSound (record s { queue = q' })) (some-injective _ _ same)
        (requeued s queue s.queue.recv_queue v (λ h. absurd (omega (arith, full, h))) v.no_receiver)
  Step-IsSound s _ (recvs t timeout cancelled x q woken e) v =
      let (left, run) = internal_recv-returns s.queue t cancelled timeout x q woken e in
      take-step
        (record s { queue = record (s.queue) { recv_slots = sub_mword s.queue.recv_slots 1 } }) x q
        woken (take_recv_slot s v left) run
  Step-IsSound s _ (recv_waits t timeout cancelled q e) v =
      let (none_there, queue, same) = internal_recv-waits s.queue t cancelled timeout q e in
      subst (λ q'. IsSound (record s { queue = q' })) (some-injective _ _ same)
        (requeued s s.queue.send_queue queue v v.no_sender
          (λ h. absurd (omega (arith, none_there, h))))
  Step-IsSound s _ (sender_goes_on t before behind x q woken e run) v =
      put-step (record s { senders = before ++ behind }) x q woken
        (sender_back s t before behind v e) run
  Step-IsSound s _ (receiver_goes_on t before behind x q woken e run) v =
      take-step (record s { receivers = before ++ behind }) x q woken
        (receiver_back s t before behind v e) run
  Step-IsSound s _ (sender_ends t before behind e) v = record {
    valid = v.valid;
    filled = v.filled;
    free = omega (arith, v.free, removed s.senders before behind t e);
    no_sender = v.no_sender;
    no_receiver = v.no_receiver;
    order = v.order;
  }
  Step-IsSound s _ (receiver_ends t before behind e) v = record {
    valid = v.valid;
    filled = omega (arith, v.filled, removed s.receivers before behind t e);
    free = v.free;
    no_sender = v.no_sender;
    no_receiver = v.no_receiver;
    order = v.order;
  }
  Step-IsSound s _ (disarms t) v =
      requeued s (disarm t s.queue.send_queue) (disarm t s.queue.recv_queue) v
        (λ h. resume-disarm t s.queue.send_queue (v.no_sender h))
        (λ h. resume-disarm t s.queue.recv_queue (v.no_receiver h))
  Step-IsSound s _ (sender_leaves t) v =
      requeued s (cancel_event t s.queue.send_queue) s.queue.recv_queue v
        (λ h. resume-cancel_event t s.queue.send_queue (v.no_sender h)) v.no_receiver
  Step-IsSound s _ (receiver_leaves t) v =
      requeued s s.queue.send_queue (cancel_event t s.queue.recv_queue) v v.no_sender
        (λ h. resume-cancel_event t s.queue.recv_queue (v.no_receiver h))

  fresh-IsSound : (b : RingBuffer A) → IsValid b → b.count ≡ 0 → IsSound (fresh b)
  unfolding of_buffer resume
  fresh-IsSound b v nothing = record {
    valid = v;
    filled = omega (arith, nothing);
    free = omega (arith, nothing);
    no_sender = λ h. refl;
    no_receiver = λ h. refl;
    order = sym (ap (slots b.array_at b.max b.next) nothing);
  }

  -- From an empty buffer.
  pub Reachable-IsSound :
      (b : RingBuffer A) (s : System A) → IsValid b → b.count ≡ 0 → Reachable b s → IsSound s
  Reachable-IsSound b s v nothing start = fresh-IsSound b v nothing
  Reachable-IsSound b s v nothing (after s' t r step) =
      Step-IsSound s' s step (Reachable-IsSound b s' v nothing r)
