-- ===== src/Sync/Holders.antt =====
-- Who holds a `Mutex` of src/runtime/BlockingSync.h, and what each step of its users does to it.
use kos_hspabla.Prelude.{
  ℕ, ◌==◌, Bool, true, false, if◌then◌else◌, ◌≡◌, ◌≢◌, refl, sym, ◌∙◌, ap, Option, none, some, List,
  [], ◌∷◌, ◌++◌, Option-cases, Bool-cases, inl, inr,
}
use kos_hspabla.Sync.{Waiter, resume, disarm, cancel_event, block}
use kos_hspabla.Sync.Unarmed.{some-none}
use kos_hspabla.Sync.Slots.{also}
use kos_hspabla.Sync.Attempts.{entered, suspended, entered-attempt_block, suspended-attempt_block}
use kos_hspabla.Sync.Locks.{
  enters, waits, fails, attempt_block, Mutex, internal_acquire, internal_release_with,
  internal_release, mutex_release,
}

-- `inside` have acquired the mutex and not released it; `woken` own it without knowing yet.
pub record Users : Type 0 where
  pub mutex : Mutex
  pub inside : List ℕ
  pub woken : List ℕ

pub data MutexStep (s : Users) : Users → Type 0 where
  acquires :
      (t timeout : ℕ) (cancelled : Bool) (m : Mutex)
      → internal_acquire false s.mutex t cancelled timeout ≡ enters m
      → MutexStep s (record s { mutex = m; inside = t ∷ s.inside })
  acquire_waits :
      (t timeout : ℕ) (cancelled : Bool) (m : Mutex)
      → internal_acquire false s.mutex t cancelled timeout ≡ waits m
      → MutexStep s (record s { mutex = m })
  goes_on :
      (t : ℕ) (before behind : List ℕ)
      → s.woken ≡ before ++ (t ∷ behind)
      → MutexStep s (record s { inside = t ∷ s.inside; woken = before ++ behind })
  releases :
      (t : ℕ) (before behind : List ℕ) (m : Mutex) (next : Option ℕ)
      → s.inside ≡ before ++ (t ∷ behind)
      → mutex_release s.mutex t ≡ some (m, next)
      → MutexStep s (record { mutex = m; inside = before ++ behind; woken = also next s.woken })
  -- A thread is cancelled and does not come back.
  woken_ends :
      (t : ℕ) (before behind : List ℕ)
      → s.woken ≡ before ++ (t ∷ behind)
      → MutexStep s (record s { woken = before ++ behind })
  inside_ends :
      (t : ℕ) (before behind : List ℕ)
      → s.inside ≡ before ++ (t ∷ behind)
      → MutexStep s (record s { inside = before ++ behind })
  disarms :
      (t : ℕ) → MutexStep s (record s { mutex = record (s.mutex) { bq = disarm t s.mutex.bq } })
  leaves :
      (t : ℕ)
      → MutexStep s (record s { mutex = record (s.mutex) { bq = cancel_event t s.mutex.bq } })

pub data MutexReachable : Users → Type 0 where
  start :
      MutexReachable (record { mutex = record { owner = none; bq = [] }; inside = []; woken = [] })
  after : (s s' : Users) → MutexReachable s → MutexStep s s' → MutexReachable s'

pub data Held : Option ℕ → List ℕ → List ℕ → Type 0 where
  nobody : Held none [] []
  held : (t : ℕ) → Held (some t) (t ∷ []) []
  passed : (t : ℕ) → Held (some t) [] (t ∷ [])
  lost : (t : ℕ) → Held (some t) [] []

pub record IsExclusive (s : Users) : Type 0 where
  pub one : Held s.mutex.owner s.inside s.woken
  pub no_waiter : s.mutex.owner ≡ none → resume s.mutex.bq ≡ none

nowhere : (t : ℕ) (before behind : List ℕ) → ◌≢◌ {A = List ℕ} [] (before ++ (t ∷ behind))
nowhere t [] behind e = cc
nowhere t (x ∷ before) behind e = cc

-- The list of one thread.
alone :
    (u t : ℕ) (before behind : List ℕ)
    → u ∷ [] ≡ before ++ (t ∷ behind)
    → (u ≡ t) × (before ++ behind ≡ [])
alone u t [] behind e = (cc, cc)
alone u t (x ∷ before) behind e = absurd (nowhere t before behind cc)

-- What leaves one of the lists.
pub inside_less :
    {o : Option ℕ} {inside woken : List ℕ} (t : ℕ) (before behind : List ℕ)
    → Held o inside woken
    → inside ≡ before ++ (t ∷ behind)
    → (o ≡ some t) × (before ++ behind ≡ []) × (woken ≡ [])
inside_less t before behind nobody e = absurd (nowhere t before behind e)
inside_less t before behind (held u) e =
    let (same, rest) = alone u t before behind e in (ap (λ x. some x) same, rest, refl)
inside_less t before behind (passed u) e = absurd (nowhere t before behind e)
inside_less t before behind (lost u) e = absurd (nowhere t before behind e)

pub woken_less :
    {o : Option ℕ} {inside woken : List ℕ} (t : ℕ) (before behind : List ℕ)
    → Held o inside woken
    → woken ≡ before ++ (t ∷ behind)
    → (o ≡ some t) × (before ++ behind ≡ []) × (inside ≡ [])
woken_less t before behind nobody e = absurd (nowhere t before behind e)
woken_less t before behind (held u) e = absurd (nowhere t before behind e)
woken_less t before behind (passed u) e =
    let (same, rest) = alone u t before behind e in (ap (λ x. some x) same, rest, refl)
woken_less t before behind (lost u) e = absurd (nowhere t before behind e)

pub free-Held : {inside woken : List ℕ} → Held none inside woken → (inside ≡ []) × (woken ≡ [])
free-Held nobody = (refl, refl)

module _ (t timeout : ℕ) (cancelled : Bool) (o : ℕ) (bq : List Waiter) where
  acquire_mine :
      (o == t) ≡ true
      → internal_acquire false (record { owner = some o; bq = bq }) t cancelled timeout ≡ fails
  unfolding internal_acquire
  acquire_mine mine = rw mine refl

  acquire_other :
      (o == t) ≡ false
      → internal_acquire false (record { owner = some o; bq = bq }) t cancelled timeout
        ≡ attempt_block
            (block t cancelled timeout bq)
            (λ queue. record { owner = some o; bq = queue })
  unfolding internal_acquire
  acquire_other other = rw other refl

module _ (t timeout : ℕ) (cancelled : Bool) where
  free_waits :
      (bq : List Waiter) (m : Mutex)
      → internal_acquire false (record { owner = none; bq = bq }) t cancelled timeout ≢ waits m
  unfolding internal_acquire
  free_waits bq m e = cc

  pub acquire-enters :
      (o : Option ℕ) (bq : List Waiter) (m : Mutex)
      → internal_acquire false (record { owner = o; bq = bq }) t cancelled timeout ≡ enters m
      → (o ≡ none) × (some (record { owner = some t; bq = bq }) ≡ some m)
  unfolding internal_acquire
  acquire-enters none bq m e = (refl, ap entered e)
  acquire-enters (some o) bq m e = elim (Bool-cases (o == t)) [
    | inl mine ↦
        absurd (some-none (ap entered (sym e ∙ acquire_mine t timeout cancelled o bq mine)))
    | inr other ↦ absurd (
        some-none (
          ap entered (sym e ∙ acquire_other t timeout cancelled o bq other)
          ∙ entered-attempt_block _ _))
  ]

  pub acquire-waits :
      (o : Option ℕ) (bq : List Waiter) (m : Mutex)
      → internal_acquire false (record { owner = o; bq = bq }) t cancelled timeout ≡ waits m
      → (o ≢ none) × (queue : List Waiter) × (some (record { owner = o; bq = queue }) ≡ some m)
  acquire-waits none bq m e = absurd (free_waits bq m e)
  acquire-waits (some o) bq m e = elim (Bool-cases (o == t)) [
    | inl mine ↦
        absurd (some-none (ap suspended (sym e ∙ acquire_mine t timeout cancelled o bq mine)))
    | inr other ↦
        let (queue, same) =
          suspended-attempt_block _ _ m
            (ap suspended (sym (acquire_other t timeout cancelled o bq other) ∙ e)) in
        (some-none, queue, same)
  ]

pub release-here :
    (o : Option ℕ) (bq : List Waiter) (t : ℕ) (m : Mutex) (next : Option ℕ)
    → mutex_release (record { owner = o; bq = bq }) t ≡ some (m, next)
    → some (internal_release (record { owner = o; bq = bq })) ≡ some (m, next)
unfolding mutex_release
release-here none bq t m next e = absurd cc
release-here (some o) bq t m next e = elim (Bool-cases (o == t)) [
  | inl mine ↦
      ap (λ b. if b then some (internal_release (record { owner = some o; bq = bq })) else none)
        (sym mine)
      ∙ e
  | inr other ↦ absurd (
      some-none (
        sym e
        ∙ ap (λ b. if b then some (internal_release (record { owner = some o; bq = bq })) else none)
            other))
]

-- The mutex after a release by its owner.
pub released :
    (m : Mutex)
    → IsExclusive (record {
      mutex = (internal_release m).0;
      inside = [];
      woken = also (internal_release m).1 [];
    })
unfolding internal_release internal_release_with
released m = elim (Option-cases (resume m.bq)) [
  | inl nobody_waits ↦ rw nobody_waits (record { one = nobody; no_waiter = λ e. nobody_waits })
  | inr ((t, queue), found) ↦
      rw found (record { one = passed t; no_waiter = λ e. absurd (some-none e) })
]
