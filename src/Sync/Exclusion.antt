-- ===== src/Sync/Exclusion.antt =====
-- `class Mutex` of src/runtime/BlockingSync.h under any interleaving of its users.
use mathlib.Core.Path.{subst}
use mathlib.Core.Option.{some-injective}
use kos_hspabla.Prelude.{
  ℕ, ◌+◌, ◌≤◌, ◌==◌, true, if◌then◌else◌, ◌≡◌, ◌≢◌, refl, sym, ◌∙◌, ap, arith, Option, none, some,
  List, [], ◌∷◌, ◌++◌, length, All, Option-cases, ◌⊎◌, inl, inr,
}
use kos_hspabla.Sync.{Waiter, resume}
use kos_hspabla.Sync.Unarmed.{some-none, resume-disarm, resume-cancel_event}
use kos_hspabla.Sync.Slots.{also}
use kos_hspabla.Sync.Locks.{Mutex, internal_release, mutex_release}
use kos_hspabla.Sync.Holders.{
  Users, MutexStep, acquires, acquire_waits, goes_on, releases, woken_ends, inside_ends, disarms,
  leaves, MutexReachable, start, after, Held, nobody, held, passed, lost, IsExclusive, inside_less,
  woken_less, free-Held, acquire-enters, acquire-waits, release-here, released,
}

-- The same mutex, with other lists of threads.
exclusive_now :
    (s : Users) (t : ℕ) (inside woken : List ℕ)
    → IsExclusive s
    → s.mutex.owner ≡ some t
    → (inside' woken' : List ℕ) → inside ≡ inside'
    → woken ≡ woken'
    → Held (some t) inside' woken'
    → IsExclusive (record s { inside = inside; woken = woken })
exclusive_now s t inside woken v owner inside' woken' e e' h = record {
  one =
      subst (λ o. Held o inside woken) (sym owner)
        (subst (λ xs. Held (some t) xs woken) (sym e)
          (subst (λ xs. Held (some t) inside' xs) (sym e') h));
  no_waiter = v.no_waiter;
}

MutexStep-IsExclusive : (s s' : Users) → MutexStep s s' → IsExclusive s → IsExclusive s'
MutexStep-IsExclusive s _ (acquires t timeout cancelled m e) v =
    let (free, same) = acquire-enters t timeout cancelled s.mutex.owner s.mutex.bq m e in
    let (no_inside, no_woken) = free-Held (subst (λ o. Held o s.inside s.woken) free v.one) in
    subst (λ m'. IsExclusive (record s { mutex = m'; inside = t ∷ s.inside }))
      (some-injective _ _ same)
      (record {
        one =
            subst (λ xs. Held (some t) (t ∷ xs) s.woken) (sym no_inside)
              (subst (λ xs. Held (some t) (t ∷ []) xs) (sym no_woken) (held t));
        no_waiter = λ h. absurd (some-none h);
      })
MutexStep-IsExclusive s _ (acquire_waits t timeout cancelled m e) v =
    let (taken, queue, same) = acquire-waits t timeout cancelled s.mutex.owner s.mutex.bq m e in
    subst (λ m'. IsExclusive (record s { mutex = m' })) (some-injective _ _ same)
      (record { one = v.one; no_waiter = λ h. absurd (taken h) })
MutexStep-IsExclusive s _ (goes_on t before behind e) v =
    let (owner, rest, no_inside) = woken_less t before behind v.one e in
    exclusive_now s t (t ∷ s.inside) (before ++ behind) v owner (t ∷ []) []
      (ap (λ xs. t ∷ xs) no_inside) rest (held t)
MutexStep-IsExclusive s _ (releases t before behind m next e run) v =
    let (owner, rest, no_woken) = inside_less t before behind v.one e in
    let same = some-injective _ _ (release-here s.mutex.owner s.mutex.bq t m next run) in
    subst
      (λ (p : Mutex × Option ℕ).
        IsExclusive (record { mutex = p.0; inside = before ++ behind; woken = also p.1 s.woken }))
      same
      (subst
        (λ xs. IsExclusive (record {
          mutex = (internal_release s.mutex).0;
          inside = xs;
          woken = also (internal_release s.mutex).1 s.woken;
        }))
        (sym rest)
        (subst
          (λ xs. IsExclusive (record {
            mutex = (internal_release s.mutex).0;
            inside = [];
            woken = also (internal_release s.mutex).1 xs;
          }))
          (sym no_woken) (released s.mutex)))
MutexStep-IsExclusive s _ (woken_ends t before behind e) v =
    let (owner, rest, no_inside) = woken_less t before behind v.one e in
    exclusive_now s t s.inside (before ++ behind) v owner [] [] no_inside rest (lost t)
MutexStep-IsExclusive s _ (inside_ends t before behind e) v =
    let (owner, rest, no_woken) = inside_less t before behind v.one e in
    exclusive_now s t (before ++ behind) s.woken v owner [] [] rest no_woken (lost t)
MutexStep-IsExclusive s _ (disarms t) v = record {
  one = v.one;
  no_waiter = λ h. resume-disarm t s.mutex.bq (v.no_waiter h);
}
MutexStep-IsExclusive s _ (leaves t) v = record {
  one = v.one;
  no_waiter = λ h. resume-cancel_event t s.mutex.bq (v.no_waiter h);
}

MutexReachable-IsExclusive : (s : Users) → MutexReachable s → IsExclusive s
unfolding resume
MutexReachable-IsExclusive s start = record { one = nobody; no_waiter = λ e. refl }
MutexReachable-IsExclusive s (after s' t r step) =
    MutexStep-IsExclusive s' s step (MutexReachable-IsExclusive s' r)

Held-few :
    {o : Option ℕ} {inside woken : List ℕ} → Held o inside woken → length inside + length woken ≤ 1
Held-few nobody = omega arith
Held-few (held t) = omega arith
Held-few (passed t) = omega arith
Held-few (lost t) = omega arith

Held-owner :
    {o : Option ℕ} {inside woken : List ℕ}
    → Held o inside woken
    → All (λ t. o ≡ some t) (inside ++ woken)
Held-owner nobody = record {}
Held-owner (held t) = (refl, record {})
Held-owner (passed t) = (refl, record {})
Held-owner (lost t) = record {}

owner_releases :
    (t : ℕ) (bq : List Waiter) → mutex_release (record { owner = some t; bq = bq }) t ≢ none
unfolding mutex_release
owner_releases t bq e =
    let mine : (t == t) ≡ true = ground arith in
    some-none (
      sym (
        ap (λ b. if b then some (internal_release (record { owner = some t; bq = bq })) else none)
          mine)
      ∙ e)

Held-release :
    {o : Option ℕ} {inside woken : List ℕ} (bq : List Waiter)
    → Held o inside woken
    → All (λ t. mutex_release (record { owner = o; bq = bq }) t ≢ none) inside
Held-release bq nobody = record {}
Held-release bq (held t) = (owner_releases t bq, record {})
Held-release bq (passed t) = record {}
Held-release bq (lost t) = record {}

-- For a state of a Mutex that acquisitions, releases by threads inside, wake-ups, timeouts and
-- cancellations reach in any interleaving from a free mutex, at most one thread is inside or has
-- been passed the mutex, that thread is the owner, a release by a thread inside does not fail its
-- assertion, and no thread waits that could be woken while the mutex has no owner.
pub mutual_exclusion :
    (s : Users)
    → MutexReachable s
    → (length s.inside + length s.woken ≤ 1)
      × All (λ t. s.mutex.owner ≡ some t) (s.inside ++ s.woken)
      × All (λ t. mutex_release s.mutex t ≢ none) s.inside
      × ((s.mutex.owner ≢ none) ⊎ (resume s.mutex.bq ≡ none))
mutual_exclusion s r =
    let v = MutexReachable-IsExclusive s r in
    (
      Held-few v.one,
      Held-owner v.one,
      Held-release s.mutex.bq v.one,
      elim (Option-cases s.mutex.owner) [
        | inl free ↦ inr (v.no_waiter free)
        | inr (t, e) ↦ inl (λ h. some-none (sym e ∙ h))
      ],
    )
