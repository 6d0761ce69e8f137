-- ===== src/Handles/Changes.antt =====
-- What one call of src/generic/ManagedArray.h changes, as `get` reads it.
use mathlib.Core.Path.{subst}
use mathlib.Core.Option.{some-injective}
use kos_hspabla.Prelude.{
  ℕ, ltb, ◌<◌, ◌&&◌, true, false, ◌≡◌, ◌≢◌, refl, sym, ◌∙◌, ap, arith, update, update_self,
  update_ne, Option, none, some, Bool-cases, inl, inr,
}
use kos_hspabla.Basics.{add_mword}
use kos_hspabla.ManagedArray
use kos_hspabla.ManagedArray.{ManagedArray, Slot, raw, elem, link}
use kos_hspabla.Handles.Slots.{InBounds, not_valid, bit_off}

-- One slot reads differently.
pub record Sets (idx : ℕ) (r : Option ℕ) (a a' : ManagedArray ℕ) : Type 0 where
  pub bounds : InBounds a'
  pub here : ManagedArray.get a' idx ≡ r
  pub same : (j : ℕ) → idx ≢ j → ManagedArray.get a' j ≡ ManagedArray.get a j
  pub kept :
      (j e : ℕ)
      → j < a.index
      → a.data_at j ≡ elem e
      → idx ≢ j
      → (j < a'.index) × (a'.data_at j ≡ elem e)

clear_parts :
    (a : ManagedArray ℕ) (idx : ℕ)
    → ManagedArray.clear a idx ≡ true
    → (ltb idx a.index ≡ true) × (a.checkbits idx ≡ false)
unfolding ManagedArray.clear
clear_parts a idx h = ground (arith, h)

read_elem :
    (a : ManagedArray ℕ) (idx e : ℕ)
    → ltb idx a.index ≡ true
    → a.checkbits idx ≡ true
    → a.data_at idx ≡ elem e
    → ManagedArray.get a idx ≡ some e
unfolding ManagedArray.get ManagedArray.valid
read_elem a idx e below on slot = rw (below, on, slot) refl

-- `get` reads the bound, the bit and the data of the slot.
get_same :
    (a a' : ManagedArray ℕ) (j : ℕ)
    → a'.index ≡ a.index
    → a'.checkbits j ≡ a.checkbits j
    → a'.data_at j ≡ a.data_at j
    → ManagedArray.get a' j ≡ ManagedArray.get a j
unfolding ManagedArray.get ManagedArray.valid
get_same a a' j i c d = rw (i, c, d) refl

pub set-Sets :
    (a : ManagedArray ℕ) (idx e : ℕ) (a' : ManagedArray ℕ)
    → InBounds a
    → ManagedArray.set a idx e ≡ some a'
    → (ManagedArray.clear a idx ≡ true) × Sets idx (some e) a a'
unfolding ManagedArray.set ManagedArray.internal_set
set-Sets a idx e a' v run = elim (Bool-cases (ManagedArray.clear a idx)) [
  | inr full ↦ absurd (ground (arith, full, run))
  | inl free ↦
      let first : ManagedArray ℕ = record a {
        checkbits = update a.checkbits idx true;
        data_at = update a.data_at idx (elem e);
      } in
      let here : some first ≡ some a' = rw free at run in
      (
        free,
        subst (Sets idx (some e) a) (some-injective first a' here) (record {
          bounds = record { within = v.within; small = v.small };
          here =
              read_elem first idx e (clear_parts a idx free).0 (update_self a.checkbits idx true)
                (update_self a.data_at idx (elem e));
          same = λ j other.
              get_same a first j refl (update_ne a.checkbits idx j true other)
                (update_ne a.data_at idx j (elem e) other);
          kept = λ j x lt d other. (lt, update_ne a.data_at idx j (elem e) other ∙ d);
        }),
      )
]

pub invalidate-Sets :
    (a : ManagedArray ℕ) (idx : ℕ) (a' : ManagedArray ℕ)
    → InBounds a
    → ManagedArray.invalidate a idx ≡ some a'
    → Sets idx none a a'
unfolding ManagedArray.invalidate
invalidate-Sets a idx a' v run = elim (Bool-cases (ManagedArray.valid a idx)) [
  | inr off ↦ absurd (ground (arith, off, run))
  | inl on ↦
      let first : ManagedArray ℕ = record a { checkbits = update a.checkbits idx false } in
      let here : some first ≡ some a' = rw on at run in
      subst (Sets idx none a) (some-injective first a' here) (record {
        bounds = record { within = v.within; small = v.small };
        here = not_valid first idx (bit_off first idx (update_self a.checkbits idx false));
        same = λ j other. get_same a first j refl (update_ne a.checkbits idx j false other) refl;
        kept = λ j x lt d other. (lt, d);
      })
]

pub release-Sets :
    (a : ManagedArray ℕ) (idx : ℕ) (a' : ManagedArray ℕ)
    → InBounds a
    → ManagedArray.release a idx ≡ some a'
    → (ManagedArray.get a idx ≡ none) × Sets idx none a a'
unfolding ManagedArray.release ManagedArray.internal_remove
release-Sets a idx a' v run = elim (Bool-cases (ManagedArray.clear a idx)) [
  | inr full ↦ absurd (ground (arith, full, run))
  | inl free ↦
      let first : ManagedArray ℕ = record a {
        data_at = update a.data_at idx (link a.freestack);
        freestack = some idx;
        freecount = add_mword a.freecount 1;
      } in
      let here : some first ≡ some a' = rw free at run in
      let off = (clear_parts a idx free).1 in
      (
        not_valid a idx (bit_off a idx off),
        subst (Sets idx none a) (some-injective first a' here) (record {
          bounds = record { within = v.within; small = v.small };
          here = not_valid first idx (bit_off first idx off);
          same = λ j other.
              get_same a first j refl refl (update_ne a.data_at idx j (link a.freestack) other);
          kept = λ j x lt d other. (lt, update_ne a.data_at idx j (link a.freestack) other ∙ d);
        }),
      )
]

-- The data of the slot stays.
pub invalidate_data :
    (a : ManagedArray ℕ) (idx : ℕ) (a' : ManagedArray ℕ)
    → ManagedArray.invalidate a idx ≡ some a'
    → (a'.data_at ≡ a.data_at) × (a'.index ≡ a.index)
unfolding ManagedArray.invalidate
invalidate_data a idx a' run = elim (Bool-cases (ManagedArray.valid a idx)) [
  | inr off ↦ absurd (ground (arith, off, run))
  | inl on ↦
      let first : ManagedArray ℕ = record a { checkbits = update a.checkbits idx false } in
      let here : some first ≡ some a' = rw on at run in
      let same = some-injective first a' here in
      (
        ap (λ (b : ManagedArray ℕ). b.data_at) (sym same),
        ap (λ (b : ManagedArray ℕ). b.index) (sym same),
      )
]

pub element_slot : (x : Slot ℕ) (e : ℕ) → ManagedArray.as_element x ≡ some e → x ≡ elem e
element_slot raw e h = cc
element_slot (elem d) e h = ap elem (some-injective d e h)
element_slot (link next) e h = cc

-- What `get` reads is in the slot.
pub get_slot :
    (a : ManagedArray ℕ) (idx e : ℕ)
    → ManagedArray.get a idx ≡ some e
    → (idx < a.index) × (a.data_at idx ≡ elem e)
unfolding ManagedArray.get ManagedArray.valid
get_slot a idx e found = elim (Bool-cases (ltb idx a.index && a.checkbits idx)) [
  | inr off ↦ absurd (ground (arith, off, found))
  | inl on ↦ (ground (arith, on), element_slot (a.data_at idx) e (rw on at found))
]
