-- ===== src/ManagedArray.antt =====
-- src/generic/ManagedArray.h: an array whose free slots form a stack, linked through the slots
-- themselves. A pointer into the array is the index of its slot. `none` is a failed assertion, or
-- a read of a slot's bytes at the wrong type.
pub mod Chain
pub mod Invariant
pub mod Store
pub mod Remove
mod Tests
use kos_hspabla.Prelude.{
  ℕ, zero, suc, ◌+◌, ◌-◌, ◌*◌, ◌%◌, Bool, true, false, not, ◌&&◌, ◌==◌, ltb, if◌then◌else◌, update,
  Option, none, some, ◌>>=◌,
}
use kos_hspabla.Basics.{mword_mod, add_mword, sub_mword, limit}

-- What the bytes of a slot hold: nothing yet, an element, or a `Free` with its `next`.
pub data Slot {ℓ} (A : Type ℓ) : Type ℓ where
  raw : Slot A
  elem : A → Slot A
  link : Option ℕ → Slot A

pub record ManagedArray {ℓ} (A : Type ℓ) : Type ℓ where
  pub data_at : ℕ → Slot A
  pub freestack : Option ℕ
  pub index : ℕ
  pub capacity : ℕ
  pub freecount : ℕ
  pub checkbits : ℕ → Bool

unfoldable pub new_capacity : ℕ → ℕ
new_capacity capacity = if capacity == 0 then 1 else capacity * 2 % mword_mod

module _ {ℓ} {A : Type ℓ} where
  abbrev pub as_element : Slot A → Option A
  as_element raw = none
  as_element (elem a) = some a
  as_element (link next) = none

  unfoldable pub init : ℕ → ManagedArray A
  init n = record {
    data_at = λ _. raw;
    freestack = none;
    index = 0;
    capacity = n;
    freecount = 0;
    checkbits = λ _. false;
  }

  unfoldable pub valid : ManagedArray A → ℕ → Bool
  valid a idx = ltb idx a.index && a.checkbits idx

  unfoldable pub clear : ManagedArray A → ℕ → Bool
  clear a idx = ltb idx a.index && not (a.checkbits idx)

  unfoldable pub size : ManagedArray A → ℕ
  size a = sub_mword a.index a.freecount

  unfoldable pub empty : ManagedArray A → Bool
  empty a = size a == 0

  unfoldable pub internal_set : ManagedArray A → ℕ → A → ManagedArray A
  internal_set a idx e = record a {
    checkbits = update a.checkbits idx true;
    data_at = update a.data_at idx (elem e);
  }

  unfoldable pub internal_remove : ManagedArray A → ℕ → ManagedArray A
  internal_remove a idx = record a {
    data_at = update a.data_at idx (link a.freestack);
    freestack = some idx;
    freecount = add_mword a.freecount 1;
  }

  -- `freestack = freestack->next` reads the slot as a `Free`.
  unfoldable pub pop_free : ManagedArray A → ℕ → Slot A → Option (ℕ × ManagedArray A)
  pop_free a idx raw = none
  pop_free a idx (elem e) = none
  pop_free a idx (link next) =
      if a.checkbits idx
      then none
      else some (idx, record a { freestack = next; freecount = sub_mword a.freecount 1 })

  unfoldable pub reserve_fresh : ManagedArray A → Option (ℕ × ManagedArray A)
  reserve_fresh a =
      if a.checkbits a.index then none else some (a.index, record a { index = add_mword a.index 1 })

  -- `checkbits.resize(newCapacity, false)`
  unfoldable pub resize_checkbits : ManagedArray A → ManagedArray A
  resize_checkbits a = record a {
    checkbits = λ i. if ltb i a.capacity then a.checkbits i else false;
  }

  unfoldable pub grow : ManagedArray A → ManagedArray A
  grow a = record (resize_checkbits a) {
    data_at = λ i. if ltb i a.capacity then a.data_at i else raw;
    capacity = new_capacity a.capacity;
  }

  -- `reserveIndex` and its call of itself after growth. `allocate` tells whether the allocator has
  -- memory for that many elements.
  unfoldable pub reserve_on :
      ℕ → (ℕ → Bool) → ManagedArray A → Option ℕ → Option (ℕ × ManagedArray A)
  reserve_on fuel allocate a (some idx) = pop_free a idx (a.data_at idx)
  reserve_on zero allocate a none = if ltb a.index a.capacity then reserve_fresh a else none
  reserve_on (suc fuel) allocate a none =
      let again = reserve_on fuel allocate (grow a) none in
      if ltb a.index a.capacity
      then reserve_fresh a
      else if allocate (new_capacity a.capacity)
      then again
      else some (limit, resize_checkbits a)

  unfoldable pub reserve_index : (ℕ → Bool) → ManagedArray A → Option (ℕ × ManagedArray A)
  reserve_index allocate a = reserve_on 1 allocate a a.freestack

  unfoldable pub set : ManagedArray A → ℕ → A → Option (ManagedArray A)
  set a idx e = if clear a idx then some (internal_set a idx e) else none

  unfoldable pub put : (ℕ → Bool) → ManagedArray A → A → Option (ℕ × ManagedArray A)
  put allocate a e = do (idx, a') ← reserve_index allocate a; some (idx, internal_set a' idx e)

  unfoldable pub get : ManagedArray A → ℕ → Option A
  get a idx = if valid a idx then as_element (a.data_at idx) else none

  unfoldable pub invalidate : ManagedArray A → ℕ → Option (ManagedArray A)
  invalidate a idx =
      if valid a idx then some (record a { checkbits = update a.checkbits idx false }) else none

  unfoldable pub release : ManagedArray A → ℕ → Option (ManagedArray A)
  release a idx = if clear a idx then some (internal_remove a idx) else none

  unfoldable pub remove : ManagedArray A → ℕ → Option (ManagedArray A)
  remove a idx = do a' ← invalidate a idx; some (internal_remove a' idx)

  -- `bool get(size_t idx, T& elem)`: the element, if there is one, and the array.
  unfoldable pub get_out : ManagedArray A → ℕ → Option A × ManagedArray A
  get_out a idx =
      if valid a idx then (as_element (a.data_at idx), internal_remove a idx) else (none, a)
