-- ===== src/ManagedArray/Store.antt =====
-- The operations of src/generic/ManagedArray.h on an array in order.
use mathlib.Core.Path.{subst}
use kos_hspabla.Prelude.{
  ℕ, ◌*◌, ◌<◌, Bool, true, false, ltb, ◌≡◌, ◌≢◌, refl, sym, ◌∙◌, ap, arith, dec_lt, update,
  update_ne, update_self, ℕ_discrete, Option, none, some, ◌>>=◌, List, [], ◌∷◌, All,
}
use kos_hspabla.Basics.{mword_mod}
use kos_hspabla.ManagedArray.{
  ManagedArray, elem, new_capacity, grow, resize_checkbits, reserve_on, reserve_index, valid, put,
  get, internal_set,
}
use kos_hspabla.ManagedArray.Chain.{NotIn, Chain, bottom, linked, Chain-update}
use kos_hspabla.ManagedArray.Invariant.{
  IsValid, IsReserved, valid-eq, fresh-IsReserved, pop-IsReserved, grow-IsValid,
}

module _ {ℓ} {A : Type ℓ} where
  grow-index : (a : ManagedArray A) → (grow a).index ≡ a.index
  unfolding grow resize_checkbits
  grow-index a = refl

  reserve-grown :
      (allocate : ℕ → Bool) (a : ManagedArray A)
      → IsValid a []
      → a.freestack ≡ none
      → a.capacity * 2 < mword_mod
      → allocate (new_capacity a.capacity) ≡ true
      → (idx : ℕ) × (a' : ManagedArray A) × (free : List ℕ) × (reserve_on 1 allocate a none
          ≡ some (idx, a'))
        × IsReserved a idx a' free
  unfolding reserve_on
  reserve-grown allocate a v top small memory = elim (dec_lt a.index a.capacity) [
    | yes room ↦
        let (a', e, r) = fresh-IsReserved a [] v room in
        let inside : ltb a.index a.capacity ≡ true = ground arith in
        (a.index, a', [], rw inside e, r)
    | no full ↦
        let (ok, same, kept, larger) = grow-IsValid a v top small in
        let outside : ltb a.index a.capacity ≡ false = ground arith in
        let (a', e, r) =
          fresh-IsReserved (grow a) [] ok (omega (arith, larger, v.bounded, grow-index a)) in
        let room : ltb (grow a).index (grow a).capacity ≡ true =
          ground (arith, larger, v.bounded, grow-index a) in
        (
          (grow a).index,
          a',
          [],
          rw (outside, memory, room) e,
          record {
            ok = r.ok;
            below = r.below;
            off = r.off;
            clear_before = sym (same (grow a).index) ∙ r.clear_before;
            same_bits = λ j. r.same_bits j ∙ same j;
            same_data = λ j on. r.same_data j (same j ∙ on) ∙ kept j on;
          },
        )
  ]

  -- `reserveIndex` on an array in order, from the stack, from the unused end, or after growth.
  pub reserve_index-IsReserved :
      (allocate : ℕ → Bool) (a : ManagedArray A) (free : List ℕ)
      → IsValid a free
      → a.capacity * 2 < mword_mod
      → allocate (new_capacity a.capacity) ≡ true
      → (idx : ℕ) × (a' : ManagedArray A) × (free' : List ℕ) × (reserve_index allocate a
          ≡ some (idx, a'))
        × IsReserved a idx a' free'
  unfolding reserve_index reserve_on
  reserve_index-IsReserved allocate a free v small memory =
      from_stack a.freestack free v.stack refl refl
    where
      from_stack :
          (top : Option ℕ) (xs : List ℕ)
          → Chain a.data_at top xs
          → a.freestack ≡ top
          → free ≡ xs
          → (idx : ℕ) × (a' : ManagedArray A) × (free' : List ℕ) × (reserve_on 1 allocate a top
              ≡ some (idx, a'))
            × IsReserved a idx a' free'
      from_stack _ _ bottom e f = reserve-grown allocate a (subst (IsValid a) f v) e small memory
      from_stack _ _ (linked x next xs h c) e f =
          let (a', q, r) = pop-IsReserved a x next xs (subst (IsValid a) f v) h c in
          (x, a', xs, q, r)

  -- An element written to a reserved slot.
  internal_set-IsValid :
      (a : ManagedArray A) (idx : ℕ) (e : A) (free : List ℕ)
      → IsValid a free
      → idx < a.index
      → NotIn idx free
      → IsValid (internal_set a idx e) free
  unfolding internal_set
  internal_set-IsValid a idx e free v below off = record {
    stack = Chain-update a.data_at idx (elem e) a.freestack free off v.stack;
    distinct = v.distinct;
    unused = still_unused free off v.unused;
    counted = v.counted;
    bounded = v.bounded;
    word = v.word;
    fresh = λ i le.
        update_ne a.checkbits idx i true (λ same. absurd (omega (arith, same))) ∙ v.fresh i le;
    held = holds;
  }
    where
      still_unused :
          (xs : List ℕ)
          → NotIn idx xs
          → All (λ i. (i < a.index) × (a.checkbits i ≡ false)) xs
          → All (λ i. (i < a.index) × (update a.checkbits idx true i ≡ false)) xs
      still_unused [] o h = tt
      still_unused (x ∷ xs) o h =
          ((h.0.0, update_ne a.checkbits idx x true o.0 ∙ h.0.1), still_unused xs o.1 h.1)

      holds :
          (i : ℕ)
          → update a.checkbits idx true i ≡ true
          → (x : A) × (update a.data_at idx (elem e) i ≡ elem x)
      holds i on = elim (ℕ_discrete idx i) [
        | yes here ↦
            (e, ap (update a.data_at idx (elem e)) (sym here) ∙ update_self a.data_at idx (elem e))
        | no other ↦
            let (x, h) = v.held i (sym (update_ne a.checkbits idx i true other) ∙ on) in
            (x, update_ne a.data_at idx i (elem e) other ∙ h)
      ]

  pub get-data :
      (a : ManagedArray A) (free : List ℕ) (i : ℕ) (e : A)
      → IsValid a free
      → a.checkbits i ≡ true
      → a.data_at i ≡ elem e
      → get a i ≡ some e
  unfolding get
  get-data a free i e v on h = rw (valid-eq a i v ∙ on, h) refl

  internal_set_self :
      (a : ManagedArray A) (idx : ℕ) (e : A)
      → ((internal_set a idx e).checkbits idx ≡ true)
        × ((internal_set a idx e).data_at idx ≡ elem e)
  unfolding internal_set
  internal_set_self a idx e = (update_self a.checkbits idx true, update_self a.data_at idx (elem e))

  internal_set_ne :
      (a : ManagedArray A) (idx j : ℕ) (e : A)
      → idx ≢ j
      → ((internal_set a idx e).checkbits j ≡ a.checkbits j)
        × ((internal_set a idx e).data_at j ≡ a.data_at j)
  unfolding internal_set
  internal_set_ne a idx j e other =
      (update_ne a.checkbits idx j true other, update_ne a.data_at idx j (elem e) other)

  -- For an array in order whose capacity doubled is below 2 ^ 64, and an allocator that has
  -- memory for it, `put` fails no assertion and gives an index that was not in use, the array is
  -- in order again, `get` reads the element at that index, and every other index is as valid as
  -- before and reads the same.
  pub put_lem :
      (allocate : ℕ → Bool) (a : ManagedArray A) (free : List ℕ) (e : A)
      → IsValid a free
      → a.capacity * 2 < mword_mod
      → allocate (new_capacity a.capacity) ≡ true
      → (idx : ℕ) × (a' : ManagedArray A) × (free' : List ℕ) × (put allocate a e ≡ some (idx, a'))
        × IsValid a' free'
        × (valid a idx ≡ false)
        × (get a' idx ≡ some e)
        × ((j : ℕ) → idx ≢ j → (valid a' j ≡ valid a j) × (valid a j ≡ true → get a' j ≡ get a j))
  unfolding put
  put_lem allocate a free e v small memory =
      let (idx, r', free', eq, r) = reserve_index-IsReserved allocate a free v small memory in
      let ok = internal_set-IsValid r' idx e free' r.ok r.below r.off in
      (
        idx,
        internal_set r' idx e,
        free',
        ap (λ found. found >>= λ p. some (p.0, internal_set p.1 p.0 e)) eq,
        ok,
        valid-eq a idx v ∙ r.clear_before,
        get-data (internal_set r' idx e) free' idx e ok (internal_set_self r' idx e).0
            (internal_set_self r' idx e).1,
        λ j other. (
          valid-eq (internal_set r' idx e) j ok
              ∙ (internal_set_ne r' idx j e other).0
              ∙ r.same_bits j
              ∙ sym (valid-eq a j v),
          λ on.
              let set_before : a.checkbits j ≡ true = sym (valid-eq a j v) ∙ on in
              let (x, h) = v.held j set_before in
              get-data (internal_set r' idx e) free' j x ok
                ((internal_set_ne r' idx j e other).0 ∙ r.same_bits j ∙ set_before)
                ((internal_set_ne r' idx j e other).1 ∙ r.same_data j set_before ∙ h)
              ∙ sym (get-data a free j x v set_before h),
        ),
      )
