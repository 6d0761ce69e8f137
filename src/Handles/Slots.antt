-- ===== src/Handles/Slots.antt =====
-- What the operations of src/generic/ManagedArray.h that src/runtime/SynchronizedArray.h uses do to the
-- elements of the other slots.
use mathlib.Core.Path.{subst}
use mathlib.Core.Option.{some-injective}
use kos_hspabla.Prelude.{
  ℕ, ◌<◌, ◌≤◌, ltb, Bool, true, false, ◌≡◌, ◌≢◌, refl, sym, ◌∙◌, arith, Option, none, some,
  Bool-cases, inl, inr, ltb→lt,
}
use kos_hspabla.Basics.{mword_mod, add_mword, sub_mword, limit}
use kos_hspabla.ManagedArray
use kos_hspabla.ManagedArray.{ManagedArray, Slot, raw, elem, link, new_capacity}

pub record InBounds (a : ManagedArray ℕ) : Type 0 where
  pub within : a.index ≤ a.capacity
  pub small : a.capacity < mword_mod

-- The slots are in bounds, and all but one, which was vacant, read the same.
pub record SameBut (idx : ℕ) (a a' : ManagedArray ℕ) : Type 0 where
  pub bounds : InBounds a'
  pub same : (j : ℕ) → idx ≢ j → ManagedArray.get a' j ≡ ManagedArray.get a j
  pub vacant : ManagedArray.get a idx ≡ none
  pub kept :
      (j e : ℕ)
      → j < a.index
      → a.data_at j ≡ elem e
      → (idx ≢ j) × (j < a'.index) × (a'.data_at j ≡ elem e)

pub not_valid :
    (a : ManagedArray ℕ) (i : ℕ) → ManagedArray.valid a i ≡ false → ManagedArray.get a i ≡ none
unfolding ManagedArray.get
not_valid a i off = rw off refl

pub bit_off : (a : ManagedArray ℕ) (i : ℕ) → a.checkbits i ≡ false → ManagedArray.valid a i ≡ false
unfolding ManagedArray.valid
bit_off a i off = elim (Bool-cases (ltb i a.index)) [ inl h ↦ rw (h, off) refl | inr h ↦ rw h refl ]

beyond : (a : ManagedArray ℕ) → ManagedArray.valid a a.index ≡ false
unfolding ManagedArray.valid
beyond a = let out : ltb a.index a.index ≡ false = ground arith in rw out refl

pop_free-SameBut :
    (a : ManagedArray ℕ) (i idx : ℕ) (slot : Slot ℕ) (a' : ManagedArray ℕ)
    → InBounds a
    → a.data_at i ≡ slot
    → ManagedArray.pop_free a i slot ≡ some (idx, a')
    → SameBut idx a a'
unfolding ManagedArray.pop_free ManagedArray.get ManagedArray.valid
pop_free-SameBut a i idx raw a' v at e = cc
pop_free-SameBut a i idx (elem x) a' v at e = cc
pop_free-SameBut a i idx (link next) a' v at e = elim (Bool-cases (a.checkbits i)) [
  | inl taken ↦ absurd (ground (arith, taken, e))
  | inr free ↦
      let first : ℕ × ManagedArray ℕ =
        (i, record a { freestack = next; freecount = sub_mword a.freecount 1 }) in
      let here : some first ≡ some (idx, a') = rw free at e in
      subst (λ (p : ℕ × ManagedArray ℕ). SameBut p.0 a p.1) (some-injective first (idx, a') here)
        (record {
          bounds = record { within = v.within; small = v.small };
          same = λ j other. refl;
          vacant = not_valid a i (bit_off a i free);
          kept = λ j x lt d. (λ k. cc, lt, d);
        })
]

one_more_slot :
    (a : ManagedArray ℕ) (j : ℕ)
    → a.index < a.capacity
    → a.capacity < mword_mod
    → a.index ≢ j
    → ManagedArray.get (record a { index = add_mword a.index 1 }) j ≡ ManagedArray.get a j
unfolding ManagedArray.get ManagedArray.valid
one_more_slot a j lt small other =
    let next : ltb j (add_mword a.index 1) ≡ ltb j a.index = ground (arith, lt, small, other) in
    rw next refl

fresh-SameBut :
    (a : ManagedArray ℕ) (idx : ℕ) (a' : ManagedArray ℕ)
    → InBounds a
    → a.index < a.capacity
    → ManagedArray.reserve_fresh a ≡ some (idx, a')
    → SameBut idx a a'
unfolding ManagedArray.reserve_fresh
fresh-SameBut a idx a' v lt e = elim (Bool-cases (a.checkbits a.index)) [
  | inl taken ↦ absurd (ground (arith, taken, e))
  | inr free ↦
      let first : ℕ × ManagedArray ℕ = (a.index, record a { index = add_mword a.index 1 }) in
      let here : some first ≡ some (idx, a') = rw free at e in
      subst (λ (p : ℕ × ManagedArray ℕ). SameBut p.0 a p.1) (some-injective first (idx, a') here)
        (record {
          bounds = record { within = omega (arith, lt, v.small); small = v.small };
          same = λ j other. one_more_slot a j lt v.small other;
          vacant = not_valid a a.index (beyond a);
          kept = λ j x below d.
              (λ k. absurd (omega (arith, below, k)), omega (arith, lt, v.small, below), d);
        })
]

grown_slot :
    (a : ManagedArray ℕ) (j : ℕ)
    → InBounds a
    → ManagedArray.get (ManagedArray.grow a) j ≡ ManagedArray.get a j
unfolding ManagedArray.get ManagedArray.valid ManagedArray.grow ManagedArray.resize_checkbits
grown_slot a j v = elim (Bool-cases (ltb j a.index)) [
  | inl inside ↦
      let below : ltb j a.capacity ≡ true = ground (arith, inside, v.within) in
      rw (inside, below) refl
  | inr outside ↦ rw outside refl
]

grown_data :
    (a : ManagedArray ℕ) (j e : ℕ)
    → InBounds a
    → j < a.index
    → a.data_at j ≡ elem e
    → (ManagedArray.grow a).data_at j ≡ elem e
unfolding ManagedArray.grow ManagedArray.resize_checkbits
grown_data a j e v lt d =
    let below : ltb j a.capacity ≡ true = ground (arith, lt, v.within) in rw below d

grow-InBounds :
    (a : ManagedArray ℕ) → a.index < new_capacity a.capacity → InBounds (ManagedArray.grow a)
unfolding ManagedArray.grow ManagedArray.resize_checkbits new_capacity
grow-InBounds a lt = record { within = ground (arith, lt); small = ground arith }

grown-SameBut :
    (a : ManagedArray ℕ) (idx : ℕ) (a' : ManagedArray ℕ)
    → InBounds a
    → (ManagedArray.grow a).index < (ManagedArray.grow a).capacity
    → ManagedArray.reserve_fresh (ManagedArray.grow a) ≡ some (idx, a')
    → SameBut idx a a'
unfolding ManagedArray.grow ManagedArray.resize_checkbits
grown-SameBut a idx a' v lt e =
    let r = fresh-SameBut (ManagedArray.grow a) idx a' (grow-InBounds a lt) lt e in
    record {
      bounds = r.bounds;
      same = λ j other. r.same j other ∙ grown_slot a j v;
      vacant = sym (grown_slot a idx v) ∙ r.vacant;
      kept = λ j x below d. r.kept j x below (grown_data a j x v below d);
    }

again_fresh :
    (allocate : ℕ → Bool) (b : ManagedArray ℕ) (idx : ℕ) (a' : ManagedArray ℕ)
    → ManagedArray.reserve_on 0 allocate b none ≡ some (idx, a')
    → (b.index < b.capacity) × (ManagedArray.reserve_fresh b ≡ some (idx, a'))
unfolding ManagedArray.reserve_on
again_fresh allocate b idx a' e = elim (Bool-cases (ltb b.index b.capacity)) [
  | inl room ↦ (ltb→lt _ _ room, rw room at e)
  | inr full ↦ absurd (ground (arith, full, e))
]

limit-clear :
    (a : ManagedArray ℕ)
    → InBounds a
    → ManagedArray.clear (ManagedArray.resize_checkbits a) limit ≢ true
unfolding ManagedArray.clear ManagedArray.resize_checkbits
limit-clear a v h = absurd (ground (arith, h, v.within, v.small))

reserve_on-SameBut :
    (allocate : ℕ → Bool) (a : ManagedArray ℕ) (o : Option ℕ) (idx : ℕ) (a' : ManagedArray ℕ)
    → InBounds a
    → ManagedArray.reserve_on 1 allocate a o ≡ some (idx, a')
    → ManagedArray.clear a' idx ≡ true
    → SameBut idx a a'
unfolding ManagedArray.reserve_on
reserve_on-SameBut allocate a (some i) idx a' v e c =
    pop_free-SameBut a i idx (a.data_at i) a' v refl e
reserve_on-SameBut allocate a none idx a' v e c = elim (Bool-cases (ltb a.index a.capacity)) [
  | inl room ↦ fresh-SameBut a idx a' v (ltb→lt _ _ room) (rw room at e)
  | inr full ↦ elim (Bool-cases (allocate (new_capacity a.capacity))) [
    | inl memory ↦
        let (room, run) =
          again_fresh allocate (ManagedArray.grow a) idx a' (rw (full, memory) at e) in
        grown-SameBut a idx a' v room run
    | inr none_left ↦
        let failed : ℕ × ManagedArray ℕ = (limit, ManagedArray.resize_checkbits a) in
        let here : some failed ≡ some (idx, a') = rw (full, none_left) at e in
        let off =
          subst (λ (p : ℕ × ManagedArray ℕ). ManagedArray.clear p.1 p.0 ≡ true)
            (sym (some-injective failed (idx, a') here)) c in
        absurd (limit-clear a v off)
  ]
]

pub reserve_index-SameBut :
    (allocate : ℕ → Bool) (a : ManagedArray ℕ) (idx : ℕ) (a' : ManagedArray ℕ)
    → InBounds a
    → ManagedArray.reserve_index allocate a ≡ some (idx, a')
    → ManagedArray.clear a' idx ≡ true
    → SameBut idx a a'
unfolding ManagedArray.reserve_index
reserve_index-SameBut allocate a idx a' v e c =
    reserve_on-SameBut allocate a a.freestack idx a' v e c
