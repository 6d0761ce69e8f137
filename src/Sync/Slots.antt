-- ===== src/Sync/Slots.antt =====
-- The message queue of src/runtime/SyncQueues.h under any interleaving of its callers: between the steps
-- the queue's lock is free. A thread that `resume` has woken acquires the lock again later; until then it
-- may be cancelled, and then never returns.
use kos_hspabla.Prelude.{
  ℕ, suc, ◌+◌, ◌<◌, Bool, ◌≡◌, Option, none, some, List, [], ◌∷◌, ◌++◌, length,
}
use kos_hspabla.RingBuffer.{RingBuffer}
use kos_hspabla.RingBuffer.Contents.{IsValid, contents}
use kos_hspabla.Sync.{resume, disarm, cancel_event}
use kos_hspabla.Sync.Messages.{
  Messages, of_buffer, returns, waits, put, take, internal_send, internal_recv,
}

-- `senders` and `receivers` have been woken, and have not acquired the lock yet. `lost` counts those that
-- were cancelled then. `sent` and `received` are all messages so far.
pub record System {ℓ} (A : Type ℓ) : Type ℓ where
  pub queue : Messages A
  pub senders : List ℕ
  pub receivers : List ℕ
  pub lost_senders : ℕ
  pub lost_receivers : ℕ
  pub sent : List A
  pub received : List A

abbrev pub also : Option ℕ → List ℕ → List ℕ
also none threads = threads
also (some t) threads = t ∷ threads

module _ {ℓ} {A : Type ℓ} where
  abbrev pub sent_by : System A → Messages A → Option ℕ → A → System A
  sent_by s q woken x = record s {
    queue = q;
    receivers = also woken s.receivers;
    sent = s.sent ++ (x ∷ []);
  }

  abbrev pub received_by : System A → Messages A → Option ℕ → A → System A
  received_by s q woken x = record s {
    queue = q;
    senders = also woken s.senders;
    received = s.received ++ (x ∷ []);
  }

  pub data Step (s : System A) : System A → Type ℓ where
    -- A call to send or receive returns true, or is suspended.
    sends :
        (t timeout : ℕ) (cancelled : Bool) (x : A) (q : Messages A) (woken : Option ℕ)
        → internal_send s.queue t cancelled timeout x ≡ returns q woken (record {})
        → Step s (sent_by s q woken x)
    send_waits :
        (t timeout : ℕ) (cancelled : Bool) (x : A) (q : Messages A)
        → internal_send s.queue t cancelled timeout x ≡ waits q
        → Step s (record s { queue = q })
    recvs :
        (t timeout : ℕ) (cancelled : Bool) (x : A) (q : Messages A) (woken : Option ℕ)
        → internal_recv s.queue t cancelled timeout ≡ returns q woken x
        → Step s (received_by s q woken x)
    recv_waits :
        (t timeout : ℕ) (cancelled : Bool) (q : Messages A)
        → internal_recv s.queue t cancelled timeout ≡ waits q
        → Step s (record s { queue = q })
    -- A woken thread goes on.
    sender_goes_on :
        (t : ℕ) (before behind : List ℕ) (x : A) (q : Messages A) (woken : Option ℕ)
        → s.senders ≡ before ++ (t ∷ behind)
        → put s.queue x ≡ some (q, woken)
        → Step s (sent_by (record s { senders = before ++ behind }) q woken x)
    receiver_goes_on :
        (t : ℕ) (before behind : List ℕ) (x : A) (q : Messages A) (woken : Option ℕ)
        → s.receivers ≡ before ++ (t ∷ behind)
        → take s.queue ≡ some ((q, woken), x)
        → Step s (received_by (record s { receivers = before ++ behind }) q woken x)
    -- A woken thread has been cancelled.
    sender_ends :
        (t : ℕ) (before behind : List ℕ)
        → s.senders ≡ before ++ (t ∷ behind)
        → Step s (record s { senders = before ++ behind; lost_senders = suc s.lost_senders })
    receiver_ends :
        (t : ℕ) (before behind : List ℕ)
        → s.receivers ≡ before ++ (t ∷ behind)
        → Step s (record s { receivers = before ++ behind; lost_receivers = suc s.lost_receivers })
    -- A timeout or a cancellation of a waiting thread, in two steps.
    disarms :
        (t : ℕ)
        → Step s (record s {
          queue = record (s.queue) {
            send_queue = disarm t s.queue.send_queue;
            recv_queue = disarm t s.queue.recv_queue;
          };
        })
    sender_leaves :
        (t : ℕ)
        → Step s (record s {
          queue = record (s.queue) { send_queue = cancel_event t s.queue.send_queue };
        })
    receiver_leaves :
        (t : ℕ)
        → Step s (record s {
          queue = record (s.queue) { recv_queue = cancel_event t s.queue.recv_queue };
        })

  abbrev pub fresh : RingBuffer A → System A
  fresh b = record {
    queue = of_buffer b;
    senders = [];
    receivers = [];
    lost_senders = 0;
    lost_receivers = 0;
    sent = [];
    received = [];
  }

  pub data Reachable (b : RingBuffer A) : System A → Type ℓ where
    start : Reachable b (fresh b)
    after : (s t : System A) → Reachable b s → Step s t → Reachable b t

  -- Every slot of the buffer is counted, or is a woken thread's, or was that of a thread that was lost.
  pub record IsSound (s : System A) : Type ℓ where
    pub valid : IsValid s.queue.buffer
    pub filled : s.queue.recv_slots + length s.receivers + s.lost_receivers ≡ s.queue.buffer.count
    pub free :
        s.queue.send_slots + length s.senders + s.lost_senders + s.queue.buffer.count
        ≡ s.queue.buffer.max
    pub no_sender : 0 < s.queue.send_slots → resume s.queue.send_queue ≡ none
    pub no_receiver : 0 < s.queue.recv_slots → resume s.queue.recv_queue ≡ none
    pub order : s.sent ≡ s.received ++ contents s.queue.buffer
