-- ===== src/ManagedArray/Invariant.antt =====
-- What src/generic/ManagedArray.h keeps true between calls, and what reserveIndex hands out.
use mathlib.Core.Path.{subst}
use mathlib.Core.Bool.{false≢true}
use kos_hspabla.Prelude.{
  ℕ, suc, ◌*◌, ◌%◌, ◌<◌, ◌≤◌, Bool, true, false, ltb, if◌then◌else◌, ◌≡◌, refl, sym, ◌∙◌, arith,
  dec_lt, Option, none, some, List, [], ◌∷◌, All, length,
}
use kos_hspabla.Basics.{mword_mod, add_mword, sub_mword}
use kos_hspabla.ManagedArray
use kos_hspabla.ManagedArray.{
  Slot, raw, elem, link, new_capacity, grow, resize_checkbits, reserve_on, reserve_fresh, pop_free,
  reserve_index, valid, clear,
}
use kos_hspabla.ManagedArray.Chain.{NotIn, Distinct, Chain, bottom}

off_fresh :
    (n : ℕ) (bits : ℕ → Bool) (xs : List ℕ) → All (λ i. (i < n) × (bits i ≡ false)) xs → NotIn n xs
off_fresh n bits [] h = tt
off_fresh n bits (x ∷ xs) h = (omega (arith, h.0.0), off_fresh n bits xs h.1)

still_below :
    (n : ℕ) (bits : ℕ → Bool) (xs : List ℕ)
    → All (λ i. (i < n) × (bits i ≡ false)) xs
    → All (λ i. (i < suc n) × (bits i ≡ false)) xs
still_below n bits [] h = tt
still_below n bits (x ∷ xs) h = ((omega (arith, h.0.0), h.0.1), still_below n bits xs h.1)

module _ {ℓ} {A : Type ℓ} where
  pub record IsValid (a : ManagedArray.ManagedArray A) (free : List ℕ) : Type ℓ where
    pub stack : Chain a.data_at a.freestack free
    pub distinct : Distinct free
    pub unused : All (λ i. (i < a.index) × (a.checkbits i ≡ false)) free
    pub counted : a.freecount ≡ length free % mword_mod
    pub bounded : a.index ≤ a.capacity
    pub word : a.capacity < mword_mod
    pub fresh : (i : ℕ) → a.index ≤ i → a.checkbits i ≡ false
    pub held : (i : ℕ) → a.checkbits i ≡ true → (e : A) × (a.data_at i ≡ elem e)

  -- A slot that was in no use is now the caller's: not in use and not on the stack. All else stays.
  pub record IsReserved (a : ManagedArray.ManagedArray A) (idx : ℕ)
      (a' : ManagedArray.ManagedArray A) (free : List ℕ) : Type ℓ where
    pub ok : IsValid a' free
    pub below : idx < a'.index
    pub off : NotIn idx free
    pub clear_before : a.checkbits idx ≡ false
    pub same_bits : (j : ℕ) → a'.checkbits j ≡ a.checkbits j
    pub same_data : (j : ℕ) → a.checkbits j ≡ true → a'.data_at j ≡ a.data_at j

  pub valid-eq :
      (a : ManagedArray.ManagedArray A) {free : List ℕ} (i : ℕ)
      → IsValid a free
      → valid a i ≡ a.checkbits i
  unfolding valid
  valid-eq a i v = ground (arith, v.fresh i)

  pub fresh-IsReserved :
      (a : ManagedArray.ManagedArray A) (free : List ℕ)
      → IsValid a free
      → a.index < a.capacity
      → (a' : ManagedArray.ManagedArray A) × (reserve_fresh a ≡ some (a.index, a'))
        × IsReserved a a.index a' free
  unfolding reserve_fresh
  fresh-IsReserved a free v room =
      let next : add_mword a.index 1 ≡ suc a.index = omega (arith, v.word) in
      let a' : ManagedArray.ManagedArray A = record a { index = suc a.index } in
      (
        a',
        rw (v.fresh a.index (omega arith), next) refl,
        record {
          ok = record {
            stack = v.stack;
            distinct = v.distinct;
            unused = still_below a.index a.checkbits free v.unused;
            counted = v.counted;
            bounded = omega arith;
            word = v.word;
            fresh = λ i le. v.fresh i (omega arith);
            held = v.held;
          };
          below = omega arith;
          off = off_fresh a.index a.checkbits free v.unused;
          clear_before = v.fresh a.index (omega arith);
          same_bits = λ j. refl;
          same_data = λ j on. refl;
        },
      )

  pub pop-IsReserved :
      (a : ManagedArray.ManagedArray A) (idx : ℕ) (next : Option ℕ) (free : List ℕ)
      → IsValid a (idx ∷ free)
      → a.data_at idx ≡ link next
      → Chain a.data_at next free
      → (a' : ManagedArray.ManagedArray A) × (pop_free a idx (a.data_at idx) ≡ some (idx, a'))
        × IsReserved a idx a' free
  unfolding pop_free
  pop-IsReserved a idx next free v e c =
      let a' : ManagedArray.ManagedArray A = record a {
        freestack = next;
        freecount = sub_mword a.freecount 1;
      } in
      (
        a',
        rw (e, v.unused.0.1) refl,
        record {
          ok = record {
            stack = c;
            distinct = v.distinct.1;
            unused = v.unused.1;
            counted = omega (arith, v.counted);
            bounded = v.bounded;
            word = v.word;
            fresh = v.fresh;
            held = v.held;
          };
          below = v.unused.0.0;
          off = v.distinct.0;
          clear_before = v.unused.0.1;
          same_bits = λ j. refl;
          same_data = λ j on. refl;
        },
      )

  -- Growth keeps every slot that is in use.
  pub grow-IsValid :
      (a : ManagedArray.ManagedArray A)
      → IsValid a []
      → a.freestack ≡ none
      → a.capacity * 2 < mword_mod
      → IsValid (grow a) []
        × ((j : ℕ) → (grow a).checkbits j ≡ a.checkbits j)
        × ((j : ℕ) → a.checkbits j ≡ true → (grow a).data_at j ≡ a.data_at j)
        × (a.capacity < (grow a).capacity)
  unfolding grow resize_checkbits new_capacity
  grow-IsValid a v top small = (
    record {
      stack =
          subst (λ t. Chain (λ i. if ltb i a.capacity then a.data_at i else raw) t []) (sym top)
            bottom;
      distinct = tt;
      unused = tt;
      counted = v.counted;
      bounded = ground (arith, v.bounded);
      word = ground arith;
      fresh = λ i le. same i ∙ v.fresh i le;
      held =
          λ i on. let (e, h) = v.held i (sym (same i) ∙ on) in (e, kept i (sym (same i) ∙ on) ∙ h);
    },
    same,
    kept,
    ground arith,
  )
    where
      same : (j : ℕ) → (if ltb j a.capacity then a.checkbits j else false) ≡ a.checkbits j
      same j = ground (arith, v.fresh j, v.bounded)

      kept :
          (j : ℕ)
          → a.checkbits j ≡ true
          → (if ltb j a.capacity then a.data_at j else raw) ≡ a.data_at j
      kept j on = elim (dec_lt j a.capacity) [
        | yes lt ↦ let inside : ltb j a.capacity ≡ true = ground arith in rw inside refl
        | no ge ↦ absurd (false≢true (sym (v.fresh j (omega (arith, v.bounded))) ∙ on))
      ]
