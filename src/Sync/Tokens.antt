-- ===== src/Sync/Tokens.antt =====
-- `class Semaphore` of src/runtime/BlockingSync.h under any interleaving of its users.
use mathlib.Core.Path.{subst}
use mathlib.Core.Option.{some-injective}
use kos_hspabla.Prelude.{
  ℕ, suc, ◌+◌, ◌-◌, ◌<◌, ltb, Bool, true, false, ◌≡◌, refl, sym, ◌∙◌, ap, arith, Option, none, some,
  List, [], Option-cases, Bool-cases, ◌⊎◌, inl, inr, ℕ_discrete,
}
use kos_hspabla.Basics.{mword_mod, sub_mword}
use kos_hspabla.Sync.{Waiter, resume, disarm, cancel_event, block}
use kos_hspabla.Sync.Unarmed.{some-none, resume-disarm, resume-cancel_event}
use kos_hspabla.Sync.Attempts.{entered, suspended, entered-attempt_block, suspended-attempt_block}
use kos_hspabla.Sync.Locks.{enters, waits, attempt_block, Semaphore, internal_p, sem_v, sem_v_with}

-- `given` counts the calls of V so far, `granted` the calls of P that have returned true or will.
pub record Account : Type 0 where
  pub sem : Semaphore
  pub given : ℕ
  pub granted : ℕ

abbrev pub one_more : Option ℕ → ℕ → ℕ
one_more none n = n
one_more (some t) n = suc n

pub data SemStep (s : Account) : Account → Type 0 where
  takes :
      (t timeout : ℕ) (cancelled : Bool) (x : Semaphore)
      → internal_p s.sem t cancelled timeout ≡ enters x
      → SemStep s (record s { sem = x; granted = suc s.granted })
  take_waits :
      (t timeout : ℕ) (cancelled : Bool) (x : Semaphore)
      → internal_p s.sem t cancelled timeout ≡ waits x
      → SemStep s (record s { sem = x })
  gives : SemStep s (record {
    sem = (sem_v s.sem).0;
    given = suc s.given;
    granted = one_more (sem_v s.sem).1 s.granted;
  })
  disarms : (t : ℕ) → SemStep s (record s { sem = record (s.sem) { bq = disarm t s.sem.bq } })
  leaves : (t : ℕ) → SemStep s (record s { sem = record (s.sem) { bq = cancel_event t s.sem.bq } })

pub data SemReachable (c : ℕ) : Account → Type 0 where
  start : SemReachable c (record { sem = record { counter = c; bq = [] }; given = 0; granted = 0 })
  after : (s s' : Account) → SemReachable c s → SemStep s s' → SemReachable c s'

record IsBalanced (c : ℕ) (s : Account) : Type 0 where
  tokens : s.granted + s.sem.counter ≡ c + s.given
  no_waiter : 0 < s.sem.counter → resume s.sem.bq ≡ none

module _ (s : Semaphore) (t timeout : ℕ) (cancelled : Bool) where
  p_empty :
      ltb s.counter 1 ≡ true
      → internal_p s t cancelled timeout
        ≡ attempt_block (block t cancelled timeout s.bq) (λ queue. record s { bq = queue })
  unfolding internal_p
  p_empty empty = rw empty refl

  p_free :
      ltb s.counter 1 ≡ false
      → internal_p s t cancelled timeout ≡ enters (record s { counter = sub_mword s.counter 1 })
  unfolding internal_p
  p_free free = rw free refl

  p-enters :
      (x : Semaphore)
      → internal_p s t cancelled timeout ≡ enters x
      → (0 < s.counter) × (some (record s { counter = sub_mword s.counter 1 }) ≡ some x)
  p-enters x e = elim (Bool-cases (ltb s.counter 1)) [
    | inl empty ↦
        absurd (some-none (ap entered (sym e ∙ p_empty empty) ∙ entered-attempt_block _ _))
    | inr free ↦ (ground (arith, free), ap entered (sym (p_free free) ∙ e))
  ]

  p-waits :
      (x : Semaphore)
      → internal_p s t cancelled timeout ≡ waits x
      → (s.counter ≡ 0) × (queue : List Waiter) × (some (record s { bq = queue }) ≡ some x)
  p-waits x e = elim (Bool-cases (ltb s.counter 1)) [
    | inl empty ↦
        let (queue, same) =
          suspended-attempt_block _ _ x (ap suspended (sym (p_empty empty) ∙ e)) in
        (ground (arith, empty), queue, same)
    | inr free ↦ absurd (some-none (ap suspended (sym e ∙ p_free free)))
  ]

-- After a call of V.
gives-IsBalanced :
    (c : ℕ) (s : Account)
    → IsBalanced c s
    → c + s.given < mword_mod - 1
    → IsBalanced c (record {
      sem = (sem_v s.sem).0;
      given = suc s.given;
      granted = one_more (sem_v s.sem).1 s.granted;
    })
unfolding sem_v sem_v_with
gives-IsBalanced c s v small = elim (Option-cases (resume s.sem.bq)) [
  | inl nobody ↦
      rw nobody (record { tokens = omega (arith, v.tokens, small); no_waiter = λ h. nobody })
  | inr ((t, queue), found) ↦ rw found (record {
    tokens = omega (arith, v.tokens);
    no_waiter = λ h. absurd (some-none (sym found ∙ v.no_waiter h));
  })
]

SemStep-IsBalanced :
    (c : ℕ) (s s' : Account)
    → SemStep s s'
    → c + s'.given < mword_mod
    → (c + s.given < mword_mod → IsBalanced c s)
    → IsBalanced c s'
SemStep-IsBalanced c s _ (takes t timeout cancelled x e) small v =
    let (left, same) = p-enters s.sem t timeout cancelled x e in
    let tokens = (v small).tokens in
    let no_waiter = (v small).no_waiter in
    subst (λ x'. IsBalanced c (record s { sem = x'; granted = suc s.granted }))
      (some-injective _ _ same)
      (record { tokens = omega (arith, left, tokens, small); no_waiter = λ h. no_waiter left })
SemStep-IsBalanced c s _ (take_waits t timeout cancelled x e) small v =
    let (empty, queue, same) = p-waits s.sem t timeout cancelled x e in
    subst (λ x'. IsBalanced c (record s { sem = x' })) (some-injective _ _ same)
      (record { tokens = (v small).tokens; no_waiter = λ h. absurd (omega (arith, empty, h)) })
SemStep-IsBalanced c s _ gives small v =
    gives-IsBalanced c s (v (omega (arith, small))) (omega (arith, small))
SemStep-IsBalanced c s _ (disarms t) small v = record {
  tokens = (v small).tokens;
  no_waiter = λ h. resume-disarm t s.sem.bq ((v small).no_waiter h);
}
SemStep-IsBalanced c s _ (leaves t) small v = record {
  tokens = (v small).tokens;
  no_waiter = λ h. resume-cancel_event t s.sem.bq ((v small).no_waiter h);
}

SemReachable-IsBalanced :
    (c : ℕ) (s : Account) → SemReachable c s → c + s.given < mword_mod → IsBalanced c s
unfolding resume
SemReachable-IsBalanced c s start small = record { tokens = omega arith; no_waiter = λ h. refl }
SemReachable-IsBalanced c s (after s' t r step) small =
    SemStep-IsBalanced c s' s step small (SemReachable-IsBalanced c s' r)

-- For a state of a Semaphore with initial counter c that calls of P and V, timeouts and
-- cancellations reach in any interleaving, with c and the calls of V together below 2 ^ 64, the
-- P's granted and the counter add up to c and the V's, and no thread waits that could be woken
-- while the counter is not 0.
pub semaphore_balance :
    (c : ℕ) (s : Account)
    → SemReachable c s
    → c + s.given < mword_mod
    → (s.granted + s.sem.counter ≡ c + s.given) × ((s.sem.counter ≡ 0) ⊎ (resume s.sem.bq ≡ none))
semaphore_balance c s r small =
    let v = SemReachable-IsBalanced c s r small in
    (
      v.tokens,
      elim (ℕ_discrete s.sem.counter 0) [
        | yes empty ↦ inl empty
        | no free ↦ inr (v.no_waiter (omega (arith, free)))
      ],
    )
