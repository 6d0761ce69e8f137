-- ===== src/ManagedArray/Remove.antt =====
-- `remove` and the `get` that removes, of src/generic/ManagedArray.h, on an array in order.
use mathlib.Core.Bool.{false≢true}
use kos_hspabla.Prelude.{
  ℕ, ◌<◌, Bool, true, false, if◌then◌else◌, ◌≡◌, ◌≢◌, refl, sym, ◌∙◌, ap, arith, dec_lt, update,
  update_ne, update_self, ℕ_discrete, none, some, ◌>>=◌, List, [], ◌∷◌, All,
}
use kos_hspabla.Basics.{add_mword}
use kos_hspabla.ManagedArray.{
  ManagedArray, link, reserve_on, pop_free, reserve_index, valid, put, get, remove, invalidate,
  internal_set, internal_remove, get_out,
}
use kos_hspabla.ManagedArray.Chain.{NotIn, linked, Chain-update}
use kos_hspabla.ManagedArray.Invariant.{IsValid, valid-eq, pop-IsReserved}
use kos_hspabla.ManagedArray.Store.{get-data}

module _ {ℓ} {A : Type ℓ} where
  invalid :
      (a : ManagedArray A) (free : List ℕ) (idx : ℕ)
      → IsValid a free
      → valid a idx ≡ true
      → (a.checkbits idx ≡ true) × (idx < a.index) × NotIn idx free
  invalid a free idx v on =
      let set_before : a.checkbits idx ≡ true = sym (valid-eq a idx v) ∙ on in
      (set_before, before set_before, off_list free set_before v.unused)
    where
      before : a.checkbits idx ≡ true → idx < a.index
      before h = elim (dec_lt idx a.index) [
        | yes lt ↦ lt
        | no ge ↦ absurd (false≢true (sym (v.fresh idx (omega arith)) ∙ h))
      ]

      off_list :
          (xs : List ℕ)
          → a.checkbits idx ≡ true
          → All (λ i. (i < a.index) × (a.checkbits i ≡ false)) xs
          → NotIn idx xs
      off_list [] h u = tt
      off_list (x ∷ xs) h u =
          (λ same. false≢true (sym (ap a.checkbits same ∙ u.0.1) ∙ h), off_list xs h u.1)

  freed-IsValid :
      (a : ManagedArray A) (free : List ℕ) (idx : ℕ)
      → IsValid a free
      → a.checkbits idx ≡ true
      → idx < a.index
      → NotIn idx free
      → IsValid
          (internal_remove (record a { checkbits = update a.checkbits idx false }) idx)
          (idx ∷ free)
  unfolding internal_remove
  freed-IsValid a free idx v set_before below off = record {
    stack =
        linked idx a.freestack free (update_self a.data_at idx (link a.freestack))
          (Chain-update a.data_at idx (link a.freestack) a.freestack free off v.stack);
    distinct = (off, v.distinct);
    unused = ((below, update_self a.checkbits idx false), cleared free off v.unused);
    counted = omega (arith, v.counted);
    bounded = v.bounded;
    word = v.word;
    fresh = λ i le. ground (arith, v.fresh i);
    held = λ i on. elim (ℕ_discrete idx i) [
      | yes same ↦ absurd (
          false≢true (
            sym (ap (update a.checkbits idx false) (sym same) ∙ update_self a.checkbits idx false)
            ∙ on))
      | no other ↦
          let (x, h) = v.held i (sym (update_ne a.checkbits idx i false other) ∙ on) in
          (x, update_ne a.data_at idx i (link a.freestack) other ∙ h)
    ];
  }
    where
      cleared :
          (xs : List ℕ)
          → NotIn idx xs
          → All (λ i. (i < a.index) × (a.checkbits i ≡ false)) xs
          → All (λ i. (i < a.index) × (update a.checkbits idx false i ≡ false)) xs
      cleared [] o h = tt
      cleared (x ∷ xs) o h =
          ((h.0.0, update_ne a.checkbits idx x false o.0 ∙ h.0.1), cleared xs o.1 h.1)

  -- For an array in order and a valid index, `remove` fails no assertion, the array is in order
  -- again with the index on top of the free stack and not valid, every other index is as valid as
  -- before and reads the same, and the next `put` gives that index.
  pub put-remove :
      (a : ManagedArray A) (free : List ℕ) (idx : ℕ)
      → IsValid a free
      → valid a idx ≡ true
      → (a' : ManagedArray A) × (remove a idx ≡ some a')
        × IsValid a' (idx ∷ free)
        × (valid a' idx ≡ false)
        × ((j : ℕ) → idx ≢ j → (valid a' j ≡ valid a j) × (valid a j ≡ true → get a' j ≡ get a j))
        × ((allocate : ℕ → Bool) (e : A)
            → (a'' : ManagedArray A) × (put allocate a' e ≡ some (idx, a'')))
  unfolding remove invalidate internal_remove put reserve_index reserve_on pop_free
  put-remove a free idx v on =
      let (set_before, below, off) = invalid a free idx v on in
      let a' : ManagedArray A = record a {
        data_at = update a.data_at idx (link a.freestack);
        freestack = some idx;
        freecount = add_mword a.freecount 1;
        checkbits = update a.checkbits idx false;
      } in
      let ok : IsValid a' (idx ∷ free) = freed-IsValid a free idx v set_before below off in
      (
        a',
        ap
            (λ (b : Bool).
              (if b then some (record a { checkbits = update a.checkbits idx false }) else none)
              >>= λ r. some (internal_remove r idx))
            on,
        ok,
        valid-eq a' idx ok ∙ update_self a.checkbits idx false,
        λ j other. (
          valid-eq a' j ok ∙ update_ne a.checkbits idx j false other ∙ sym (valid-eq a j v),
          λ live.
              let on_before : a.checkbits j ≡ true = sym (valid-eq a j v) ∙ live in
              let (x, h) = v.held j on_before in
              get-data a' (idx ∷ free) j x ok (update_ne a.checkbits idx j false other ∙ on_before)
                (update_ne a.data_at idx j (link a.freestack) other ∙ h)
              ∙ sym (get-data a free j x v on_before h),
        ),
        λ allocate e.
            (let (r, q, reserved) =
                pop-IsReserved a' idx a.freestack free ok
                  (update_self a.data_at idx (link a.freestack))
                  (Chain-update a.data_at idx (link a.freestack) a.freestack free off v.stack) in
              (
                internal_set r idx e,
                ap (λ found. found >>= λ p. some (p.0, internal_set p.1 p.0 e)) q,
              )),
      )

  -- For an array in order and a valid index, `get` with an output argument gives the element that
  -- `get` reads, but the index stays valid after it, and the next `reserveIndex` fails its
  -- assertion.
  pub get_out_leak :
      (allocate : ℕ → Bool) (a : ManagedArray A) (free : List ℕ) (idx : ℕ)
      → IsValid a free
      → valid a idx ≡ true
      → ((get_out a idx).0 ≡ get a idx)
        × (valid (get_out a idx).1 idx ≡ true)
        × (reserve_index allocate (get_out a idx).1 ≡ none)
  unfolding get_out get reserve_index reserve_on pop_free internal_remove valid
  get_out_leak allocate a free idx v on =
      let set_before : a.checkbits idx ≡ true = sym (valid-eq a idx v) ∙ on in
      rw on (refl, on, rw (update_self a.data_at idx (link a.freestack), set_before) refl)
