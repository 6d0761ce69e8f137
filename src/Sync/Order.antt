-- ===== src/Sync/Order.antt =====
-- The message queue of src/runtime/SyncQueues.h keeps every message, in order, and never fails an
-- assertion of the ring buffer.
use mathlib.Core.Option.{some-injective}
use mathlib.Core.List.{append_assoc}
use kos_hspabla.Prelude.{
  ℕ, suc, ◌+◌, ◌*◌, ◌%◌, ◌<◌, ◌==◌, false, ◌≡◌, refl, sym, ◌∙◌, ap, arith, update, Option, none,
  some, [], ◌∷◌, ◌++◌, length, inl, inr, Option-cases,
}
use kos_hspabla.Basics.{mword_mod, add_mword, sub_mword}
use kos_hspabla.RingBuffer.{RingBuffer, push, pop, full, empty, size}
use kos_hspabla.RingBuffer.Contents.{IsValid, contents, push_lem, pop_lem}
use kos_hspabla.Sync.{resume}
use kos_hspabla.Sync.Messages.{Messages, put, take, pass_to_receiver, pass_to_sender}
use kos_hspabla.Sync.Unarmed.{some-none}
use kos_hspabla.Sync.Slots.{System, sent_by, received_by, IsSound}

module _ {ℓ} {A : Type ℓ} where
  push_counts :
      (b b' : RingBuffer A) (x : A)
      → b.count < b.max
      → b.max * 2 < mword_mod
      → push b x ≡ some b'
      → (b'.count ≡ b.count + 1) × (b'.max ≡ b.max)
  unfolding push full size
  push_counts b b' x room word e =
      let not_full : (b.count == b.max) ≡ false = ground (arith, room) in
      let pushed : push b x
          ≡ some (record b {
            array_at = update b.array_at (add_mword b.next b.count % b.max) x;
            count = add_mword b.count 1;
          }) =
        rw not_full refl in
      let same = some-injective _ _ (sym e ∙ pushed) in
      (ap (λ c. c.count) same ∙ omega (arith, room, word), ap (λ c. c.max) same)

  pop_counts :
      (b b' : RingBuffer A)
      → 0 < b.count
      → b.count < mword_mod
      → pop b ≡ some b'
      → (suc b'.count ≡ b.count) × (b'.max ≡ b.max)
  unfolding pop empty size
  pop_counts b b' some_left word e =
      let not_empty : (b.count == 0) ≡ false = ground (arith, some_left) in
      let popped : pop b
          ≡ some (record b { next = add_mword b.next 1 % b.max; count = sub_mword b.count 1 }) =
        rw not_empty refl in
      let same = some-injective _ _ (sym e ∙ popped) in
      (ap (λ c. suc c.count) same ∙ omega (arith, some_left, word), ap (λ c. c.max) same)

  -- The state of a caller that has taken `i` free or `j` filled slots off the counts.
  pub record IsSoundBut (i j : ℕ) (s : System A) : Type ℓ where
    pub valid : IsValid s.queue.buffer
    pub filled :
        j + s.queue.recv_slots + length s.receivers + s.lost_receivers ≡ s.queue.buffer.count
    pub free :
        i + s.queue.send_slots + length s.senders + s.lost_senders + s.queue.buffer.count
        ≡ s.queue.buffer.max
    pub no_sender : 0 < s.queue.send_slots → resume s.queue.send_queue ≡ none
    pub no_receiver : 0 < s.queue.recv_slots → resume s.queue.recv_queue ≡ none
    pub order : s.sent ≡ s.received ++ contents s.queue.buffer

  pub put-IsSound :
      (s : System A) (x : A)
      → IsSoundBut 1 0 s
      → (q : Messages A) × (woken : Option ℕ) × (put s.queue x ≡ some (q, woken))
        × IsSound (sent_by s q woken x)
  unfolding put pass_to_receiver
  put-IsSound s x v =
      let (b, pushed, valid, appended) =
        (push_lem s.queue.buffer x v.valid).0 (omega (arith, v.free)) in
      let (count, max) =
        push_counts s.queue.buffer b x (omega (arith, v.free)) v.valid.word pushed in
      let order =
        ap (λ l. l ++ (x ∷ [])) v.order
        ∙ append_assoc s.received (contents s.queue.buffer) (x ∷ [])
        ∙ ap (λ l. s.received ++ l) (sym appended) in
      elim (Option-cases (resume s.queue.recv_queue)) [
        | inl nobody ↦ (
          record (s.queue) { buffer = b; recv_slots = add_mword s.queue.recv_slots 1 },
          none,
          rw (pushed, nobody) refl,
          record {
            valid = valid;
            filled = omega (arith, v.filled, v.valid.within, v.valid.word, count);
            free = omega (arith, v.free, count, max);
            no_sender = v.no_sender;
            no_receiver = λ h. nobody;
            order = order;
          },
        )
        | inr ((t, queue), found) ↦ (
          record (s.queue) { buffer = b; recv_queue = queue },
          some t,
          rw (pushed, found) refl,
          record {
            valid = valid;
            filled = omega (arith, v.filled, count);
            free = omega (arith, v.free, count, max);
            no_sender = v.no_sender;
            no_receiver = λ h. absurd (some-none (sym found ∙ v.no_receiver h));
            order = order;
          },
        )
      ]

  pub take-IsSound :
      (s : System A)
      → IsSoundBut 0 1 s
      → (q : Messages A) × (woken : Option ℕ) × (x : A) × (take s.queue ≡ some ((q, woken), x))
        × IsSound (received_by s q woken x)
  unfolding take pass_to_sender
  take-IsSound s v =
      let (x, b, read, popped, valid, contained) =
        (pop_lem s.queue.buffer v.valid).0 (omega (arith, v.filled)) in
      let (count, max) =
        pop_counts s.queue.buffer b (omega (arith, v.filled))
          (omega (arith, v.valid.within, v.valid.word)) popped in
      let order =
        v.order
        ∙ ap (λ l. s.received ++ l) contained
        ∙ sym (append_assoc s.received (x ∷ []) (contents b)) in
      elim (Option-cases (resume s.queue.send_queue)) [
        | inl nobody ↦ (
          record (s.queue) { buffer = b; send_slots = add_mword s.queue.send_slots 1 },
          none,
          x,
          rw (read, popped, nobody) refl,
          record {
            valid = valid;
            filled = omega (arith, v.filled, count);
            free = omega (arith, v.free, v.valid.word, count, max);
            no_sender = λ h. nobody;
            no_receiver = v.no_receiver;
            order = order;
          },
        )
        | inr ((t, queue), found) ↦ (
          record (s.queue) { buffer = b; send_queue = queue },
          some t,
          x,
          rw (read, popped, found) refl,
          record {
            valid = valid;
            filled = omega (arith, v.filled, count);
            free = omega (arith, v.free, count, max);
            no_sender = λ h. absurd (some-none (sym found ∙ v.no_sender h));
            no_receiver = v.no_receiver;
            order = order;
          },
        )
      ]
