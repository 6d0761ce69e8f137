-- ===== src/Sync/Unarmed.antt =====
-- Queues of src/runtime/BlockingSync.h with no thread that `resume` can wake.
use kos_hspabla.Prelude.{
  ℕ, ◌==◌, true, false, ◌≡◌, ◌≢◌, refl, sym, ◌∙◌, none, some, List, [], ◌∷◌, Bool-cases,
  Option-cases, inl, inr,
}
use kos_hspabla.Sync.{Waiter, resume, disarm, cancel_event}

resume-armed :
    (w : Waiter) (queue : List Waiter)
    → w.armed ≡ true
    → resume (w ∷ queue) ≡ some (w.thread, queue)
unfolding resume
resume-armed w queue set = rw set refl

resume-later :
    (w : Waiter) (queue : List Waiter) (r : ℕ × List Waiter)
    → w.armed ≡ false
    → resume queue ≡ some r
    → resume (w ∷ queue) ≡ some (r.0, w ∷ r.1)
unfolding resume
resume-later w queue r unset e = rw (unset, e) refl

pub some-none {ℓ} : {X : Type ℓ} {x : X} → some x ≢ none
some-none e = cc

resume-head :
    (w : Waiter) (queue : List Waiter)
    → resume (w ∷ queue) ≡ none
    → (w.armed ≡ false) × (resume queue ≡ none)
resume-head w queue h = elim (Bool-cases w.armed) [
  | inl set ↦ absurd (some-none (sym (resume-armed w queue set) ∙ h))
  | inr unset ↦ (
    unset,
    elim (Option-cases (resume queue)) [
      | inl e ↦ e
      | inr (r, e) ↦ absurd (some-none (sym (resume-later w queue r unset e) ∙ h))
    ],
  )
]

resume-cons :
    (w : Waiter) (queue : List Waiter)
    → w.armed ≡ false
    → resume queue ≡ none
    → resume (w ∷ queue) ≡ none
unfolding resume
resume-cons w queue unset e = rw (unset, e) refl

pub resume-disarm :
    (t : ℕ) (queue : List Waiter) → resume queue ≡ none → resume (disarm t queue) ≡ none
unfolding disarm
resume-disarm t [] h = h
resume-disarm t (w ∷ queue) h =
    let (unset, rest) = resume-head w queue h in
    elim (Bool-cases (w.thread == t)) [
      | inl e ↦ rw e (resume-cons (record w { armed = false }) queue refl rest)
      | inr e ↦ rw e (resume-cons w (disarm t queue) unset (resume-disarm t queue rest))
    ]

pub resume-cancel_event :
    (t : ℕ) (queue : List Waiter) → resume queue ≡ none → resume (cancel_event t queue) ≡ none
unfolding cancel_event
resume-cancel_event t [] h = h
resume-cancel_event t (w ∷ queue) h =
    let (unset, rest) = resume-head w queue h in
    elim (Bool-cases (w.thread == t)) [
      | inl e ↦ rw e rest
      | inr e ↦ rw e (resume-cons w (cancel_event t queue) unset (resume-cancel_event t queue rest))
    ]
