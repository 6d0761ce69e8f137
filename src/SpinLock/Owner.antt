-- ===== src/SpinLock/Owner.antt =====
-- OwnerSpinLock of src/kernel/SpinLock.h, the lock that its owner may acquire again.
use kos_hspabla.Prelude.{
  ℕ, zero, suc, ◌+◌, ◌-◌, ◌<◌, ◌≤◌, ◌==◌, true, false, if◌then◌else◌, ◌≡◌, ◌≢◌, refl, ◌∙◌, ap,
  arith, Option, some, ◌>>=◌,
}
use kos_hspabla.Basics.{mword_mod, add_mword, sub_mword}
use kos_hspabla.SpinLock.{OwnerSpinLock, exchange_owner, owner_try, owner_release}

module _ (no_owner : ℕ) where
  abbrev pub free : OwnerSpinLock
  free = record { owner = no_owner; counter = 0 }

  abbrev pub held_by : ℕ → ℕ → OwnerSpinLock
  held_by r n = record { owner = r; counter = n }

  -- `n` acquisitions in a row, and `n` releases.
  abbrev pub acquire_times : ℕ → ℕ → OwnerSpinLock → OwnerSpinLock
  acquire_times r zero l = l
  acquire_times r (suc n) l = acquire_times r n (owner_try no_owner l r).1

  abbrev pub release_times : ℕ → ℕ → OwnerSpinLock → Option OwnerSpinLock
  release_times r zero l = some l
  release_times r (suc n) l = do l' ← owner_release no_owner l r; release_times r n l'

  again :
      (r n : ℕ) → suc n < mword_mod → owner_try no_owner (held_by r n) r ≡ (true, held_by r (suc n))
  unfolding owner_try exchange_owner
  again r n lt =
      let more : add_mword n 1 ≡ suc n = omega arith in
      let mine : (r == r) ≡ true = ground arith in rw (mine, more) refl

  other :
      (r q n : ℕ) → r ≢ no_owner → q ≢ r → owner_try no_owner (held_by r n) q ≡ (false, held_by r n)
  unfolding owner_try exchange_owner
  other r q n taken apart =
      let not_mine : (r == q) ≡ false = ground arith in
      let not_free : (r == no_owner) ≡ false = ground arith in rw (not_mine, not_free) refl

  first : (r : ℕ) → r ≢ no_owner → owner_try no_owner free r ≡ (true, held_by r 1)
  unfolding owner_try exchange_owner
  first r named =
      let not_mine : (no_owner == r) ≡ false = ground arith in
      let is_free : (no_owner == no_owner) ≡ true = ground arith in rw (not_mine, is_free) refl

  climb : (r n m : ℕ) → m + n < mword_mod → acquire_times r n (held_by r m) ≡ held_by r (m + n)
  climb r zero m lt = let same : m ≡ m + 0 = omega arith in ap (held_by r) same
  climb r (suc n) m lt =
      ap (λ p. acquire_times r n p.1) (again r m (omega arith))
      ∙ climb r n (suc m) (omega arith)
      ∙ (let same : suc m + n ≡ m + suc n = omega arith in ap (held_by r) same)

  drop_one :
      (r n : ℕ)
      → suc n < mword_mod
      → owner_release no_owner (held_by r (suc n)) r
        ≡ some (record { owner = if n == 0 then no_owner else r; counter = n })
  unfolding owner_release
  drop_one r n lt =
      let less : sub_mword (suc n) 1 ≡ n = omega arith in
      let mine : (r == r) ≡ true = ground arith in rw (mine, less) refl

  descend :
      (r k n : ℕ)
      → suc (k + n) < mword_mod
      → release_times r k (held_by r (suc (k + n))) ≡ some (held_by r (suc n))
  descend r zero n lt =
      let same : suc (0 + n) ≡ suc n = omega arith in ap (λ m. some (held_by r m)) same
  descend r (suc k) n lt =
      ap (λ o. o >>= release_times r k)
        (drop_one r (suc k + n) lt
          ∙ ap (λ o. some (record { owner = o; counter = suc k + n })) kept)
      ∙ (let same : suc k + n ≡ suc (k + n) = omega arith in
          ap (λ m. release_times r k (held_by r m)) same)
      ∙ descend r k n (omega arith)
    where
      kept : (if suc k + n == 0 then no_owner else r) ≡ r
      kept = ground arith

  -- For a requestor r other than noOwner and suc n < 2 ^ 64 acquisitions in a row of a free
  -- OwnerSpinLock with counter 0, r owns it with that count; after any k ≤ n releases no other
  -- requestor's tryAcquire succeeds or changes it, and after n the next release frees it.
  pub owner_nested :
      (r n : ℕ)
      → r ≢ no_owner
      → suc n < mword_mod
      → (acquire_times r (suc n) free ≡ held_by r (suc n))
        × ((k : ℕ)
            → k ≤ n
            → (l : OwnerSpinLock) × (release_times r k (held_by r (suc n)) ≡ some l)
              × ((q : ℕ) → q ≢ r → owner_try no_owner l q ≡ (false, l))
              × (k ≡ n → owner_release no_owner l r ≡ some free))
  owner_nested r n named lt = (
    ap (λ p. acquire_times r n p.1) (first r named)
        ∙ climb r n 1 (omega arith)
        ∙ (let same : 1 + n ≡ suc n = omega arith in ap (held_by r) same),
    λ k le.
        let split : suc n ≡ suc (k + (n - k)) = omega arith in
        (
          held_by r (suc (n - k)),
          ap (λ m. release_times r k (held_by r m)) split ∙ descend r k (n - k) (omega arith),
          λ q apart. other r q (suc (n - k)) named apart,
          λ e.
              let last : n - k ≡ 0 = omega arith in
              ap (λ m. owner_release no_owner (held_by r (suc m)) r) last
              ∙ drop_one r 0 (omega arith),
        ),
  )
