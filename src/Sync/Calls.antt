-- ===== src/Sync/Calls.antt =====
-- What a call of the message queue in src/runtime/SyncQueues.h has done when it returns, waits or fails.
use kos_hspabla.Prelude.{
  ℕ, ◌<◌, ◌==◌, Bool, true, false, ◌≡◌, ◌≢◌, refl, sym, ◌∙◌, ap, arith, Option, none, some, ◌>>=◌,
  List, Bool-cases, inl, inr,
}
use kos_hspabla.Basics.{sub_mword}
use kos_hspabla.Sync.{Waiter, block}
use kos_hspabla.Sync.Messages.{
  Messages, CallResult, returns, waits, refused, fails, put, take, sent_call, received_call,
  waits_on, internal_send, internal_recv,
}
use kos_hspabla.Sync.Unarmed.{some-none}

module _ {ℓ} {A : Type ℓ} where
  -- What is in a call's result.
  abbrev returned {κ} : {B : Type κ} → CallResult A B → Option ((Messages A × Option ℕ) × B)
  returned (returns q woken b) = some ((q, woken), b)
  returned (waits q) = none
  returned refused = none
  returned fails = none

  abbrev waiting {κ} : {B : Type κ} → CallResult A B → Option (Messages A)
  waiting (returns q woken b) = none
  waiting (waits q) = some q
  waiting refused = none
  waiting fails = none

  module _ {κ} (B : Type κ) where
    returned-waits_on :
        (o : Option (List Waiter)) (f : List Waiter → Messages A)
        → returned {B = B} (waits_on o f) ≡ none
    returned-waits_on none f = refl
    returned-waits_on (some queue) f = refl

    waiting-waits_on :
        (o : Option (List Waiter)) (f : List Waiter → Messages A) (q : Messages A)
        → waiting {B = B} (waits_on o f) ≡ some q
        → (queue : List Waiter) × (some (f queue) ≡ some q)
    waiting-waits_on none f q e = absurd cc
    waiting-waits_on (some queue) f q e = (queue, e)

    waits_on-ne :
        (o : Option (List Waiter)) (f : List Waiter → Messages A)
        → ◌≢◌ {A = CallResult A B} (waits_on o f) fails
    waits_on-ne none f e = cc
    waits_on-ne (some queue) f e = cc

  sent_call-fails : (o : Option (Messages A × Option ℕ)) → sent_call o ≡ fails → o ≡ none
  sent_call-fails none e = refl
  sent_call-fails (some (q, woken)) e = absurd cc

  received_call-fails :
      (o : Option ((Messages A × Option ℕ) × A)) → received_call o ≡ fails → o ≡ none
  received_call-fails none e = refl
  received_call-fails (some ((q, woken), x)) e = absurd cc

  result-sent_call :
      (o : Option (Messages A × Option ℕ)) → (returned (sent_call o) >>= λ r. some r.0) ≡ o
  result-sent_call none = refl
  result-sent_call (some (q, woken)) = refl

  waiting-sent_call : (o : Option (Messages A × Option ℕ)) → waiting (sent_call o) ≡ none
  waiting-sent_call none = refl
  waiting-sent_call (some (q, woken)) = refl

  returned-received_call :
      (o : Option ((Messages A × Option ℕ) × A)) → returned (received_call o) ≡ o
  returned-received_call none = refl
  returned-received_call (some ((q, woken), x)) = refl

  waiting-received_call :
      (o : Option ((Messages A × Option ℕ) × A)) → waiting (received_call o) ≡ none
  waiting-received_call none = refl
  waiting-received_call (some ((q, woken), x)) = refl

  module _ (q : Messages A) (t : ℕ) (cancelled : Bool) (timeout : ℕ) where
    send_full :
        (x : A)
        → (q.send_slots == 0) ≡ true
        → internal_send q t cancelled timeout x
          ≡ waits_on
              (block t cancelled timeout q.send_queue)
              (λ queue. record q { send_queue = queue })
    unfolding internal_send
    send_full x full = rw full refl

    send_free :
        (x : A)
        → (q.send_slots == 0) ≡ false
        → internal_send q t cancelled timeout x
          ≡ sent_call (put (record q { send_slots = sub_mword q.send_slots 1 }) x)
    unfolding internal_send
    send_free x free = rw free refl

    recv_empty :
        (q.recv_slots == 0) ≡ true
        → internal_recv q t cancelled timeout
          ≡ waits_on
              (block t cancelled timeout q.recv_queue)
              (λ queue. record q { recv_queue = queue })
    unfolding internal_recv
    recv_empty empty = rw empty refl

    recv_free :
        (q.recv_slots == 0) ≡ false
        → internal_recv q t cancelled timeout
          ≡ received_call (take (record q { recv_slots = sub_mword q.recv_slots 1 }))
    unfolding internal_recv
    recv_free free = rw free refl

    pub internal_send-returns :
        (x : A) (q' : Messages A) (woken : Option ℕ)
        → internal_send q t cancelled timeout x ≡ returns q' woken (record {})
        → (0 < q.send_slots)
          × (put (record q { send_slots = sub_mword q.send_slots 1 }) x ≡ some (q', woken))
    internal_send-returns x q' woken e = elim (Bool-cases (q.send_slots == 0)) [
      | inl full ↦ absurd (
          some-none
            (sym (ap returned (sym (send_full x full) ∙ e)) ∙ returned-waits_on (Unit {0}) _ _))
      | inr free ↦
          let run = put (record q { send_slots = sub_mword q.send_slots 1 }) x in
          (
            ground (arith, free),
            sym (result-sent_call run)
                ∙ ap (λ c. returned c >>= λ r. some r.0) (sym (send_free x free) ∙ e),
          )
    ]

    pub internal_send-waits :
        (x : A) (q' : Messages A)
        → internal_send q t cancelled timeout x ≡ waits q'
        → (q.send_slots ≡ 0)
          × (queue : List Waiter) × (some (record q { send_queue = queue }) ≡ some q')
    internal_send-waits x q' e = elim (Bool-cases (q.send_slots == 0)) [
      | inl full ↦
          let (queue, same) =
            waiting-waits_on (Unit {0}) (block t cancelled timeout q.send_queue)
              (λ queue. record q { send_queue = queue }) q'
              (ap waiting (sym (send_full x full) ∙ e)) in
          (ground (arith, full), queue, same)
      | inr free ↦
          absurd (some-none (sym (ap waiting (sym (send_free x free) ∙ e)) ∙ waiting-sent_call _))
    ]

    pub internal_recv-returns :
        (x : A) (q' : Messages A) (woken : Option ℕ)
        → internal_recv q t cancelled timeout ≡ returns q' woken x
        → (0 < q.recv_slots)
          × (take (record q { recv_slots = sub_mword q.recv_slots 1 }) ≡ some ((q', woken), x))
    internal_recv-returns x q' woken e = elim (Bool-cases (q.recv_slots == 0)) [
      | inl empty ↦
          absurd
            (some-none (sym (ap returned (sym (recv_empty empty) ∙ e)) ∙ returned-waits_on A _ _))
      | inr free ↦ (
        ground (arith, free),
        sym (returned-received_call (take (record q { recv_slots = sub_mword q.recv_slots 1 })))
            ∙ ap returned (sym (recv_free free) ∙ e),
      )
    ]

    pub internal_recv-waits :
        (q' : Messages A)
        → internal_recv q t cancelled timeout ≡ waits q'
        → (q.recv_slots ≡ 0)
          × (queue : List Waiter) × (some (record q { recv_queue = queue }) ≡ some q')
    internal_recv-waits q' e = elim (Bool-cases (q.recv_slots == 0)) [
      | inl empty ↦
          let (queue, same) =
            waiting-waits_on A (block t cancelled timeout q.recv_queue)
              (λ queue. record q { recv_queue = queue }) q'
              (ap waiting (sym (recv_empty empty) ∙ e)) in
          (ground (arith, empty), queue, same)
      | inr free ↦
          absurd (some-none (sym (ap waiting (sym (recv_free free) ∙ e)) ∙ waiting-received_call _))
    ]

    pub internal_send-fails :
        (x : A)
        → internal_send q t cancelled timeout x ≡ fails
        → (0 < q.send_slots) × (put (record q { send_slots = sub_mword q.send_slots 1 }) x ≡ none)
    internal_send-fails x e = elim (Bool-cases (q.send_slots == 0)) [
      | inl full ↦ absurd (waits_on-ne (Unit {0}) _ _ (sym (send_full x full) ∙ e))
      | inr free ↦ (ground (arith, free), sent_call-fails _ (sym (send_free x free) ∙ e))
    ]

    pub internal_recv-fails :
        internal_recv q t cancelled timeout ≡ fails
        → (0 < q.recv_slots) × (take (record q { recv_slots = sub_mword q.recv_slots 1 }) ≡ none)
    internal_recv-fails e = elim (Bool-cases (q.recv_slots == 0)) [
      | inl empty ↦ absurd (waits_on-ne A _ _ (sym (recv_empty empty) ∙ e))
      | inr free ↦ (ground (arith, free), received_call-fails _ (sym (recv_free free) ∙ e))
    ]
