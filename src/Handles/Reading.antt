-- ===== src/Handles/Reading.antt =====
-- The threads that return from `remove` of src/runtime/SynchronizedArray.h and have yet to read the slot:
-- what the slot holds until then.
use kos_hspabla.Prelude.{
  ℕ, ◌<◌, Bool, true, false, ◌≡◌, ◌≢◌, sym, ◌∙◌, ap, update, update_self, update_ne, ℕ_discrete,
}
use mathlib.Core.Path.{subst}
use kos_hspabla.ManagedArray.{ManagedArray, Slot, raw, elem, link}

pub record IsReading (a : ManagedArray ℕ) (closing returning : ℕ → Bool) : Type 0 where
  pub read :
      (i : ℕ)
      → returning i ≡ true
      → (e : ℕ) × (i < a.index) × (a.data_at i ≡ elem e) × (closing e ≡ true)
  pub apart :
      (i j e : ℕ)
      → returning i ≡ true
      → returning j ≡ true
      → a.data_at i ≡ elem e
      → a.data_at j ≡ elem e
      → i ≡ j

same_elem : (x : Slot ℕ) (d e : ℕ) → x ≡ elem d → x ≡ elem e → d ≡ e
same_elem raw d e h k = cc
same_elem (elem c) d e h k = cc
same_elem (link next) d e h k = cc

module _ {a : ManagedArray ℕ} {closing returning : ℕ → Bool}
    (v : IsReading a closing returning) where
  pub kept-IsReading :
      {a' : ManagedArray ℕ}
      → ((i e : ℕ)
          → returning i ≡ true
          → i < a.index
          → a.data_at i ≡ elem e
          → (i < a'.index) × (a'.data_at i ≡ elem e))
      → IsReading a' closing returning
  kept-IsReading {a'} keep = record {
    read = λ i h.
        let (e, lt, d, c) = v.read i h in
        let (below, slot) = keep i e h lt d in (e, below, slot, c);
    apart = λ i j e hi hj di dj. v.apart i j e hi hj (before i e hi di) (before j e hj dj);
  }
    where
      before : (i e : ℕ) → returning i ≡ true → a'.data_at i ≡ elem e → a.data_at i ≡ elem e
      before i e h d =
          let (x, lt, slot, c) = v.read i h in
          slot ∙ ap elem (same_elem (a'.data_at i) x e (keep i x h lt slot).1 d)

  -- A thread is to return with the element, which nobody else is to delete.
  pub begun-IsReading :
      (idx e : ℕ)
      → idx < a.index
      → a.data_at idx ≡ elem e
      → closing e ≢ true
      → IsReading a (update closing e true) (update returning idx true)
  begun-IsReading idx e lt d first = record {
    read = λ i h. elim (ℕ_discrete idx i) [
      | yes one ↦
          subst
            (λ k.
              (x : ℕ) × (k < a.index) × (a.data_at k ≡ elem x) × (update closing e true x ≡ true))
            one (e, lt, d, update_self closing e true)
      | no one ↦
          let (x, below, slot, c) = v.read i (sym (update_ne returning idx i true one) ∙ h) in
          (x, below, slot, still x c)
    ];
    apart = λ i j x hi hj di dj. elim (ℕ_discrete idx i) [
      | yes one ↦ elim (ℕ_discrete idx j) [
        | yes two ↦ sym one ∙ two
        | no two ↦ absurd (other j x hj two dj (ap a.data_at one ∙ di))
      ]
      | no one ↦ elim (ℕ_discrete idx j) [
        | yes two ↦ absurd (other i x hi one di (ap a.data_at two ∙ dj))
        | no two ↦
            v.apart i j x (sym (update_ne returning idx i true one) ∙ hi)
              (sym (update_ne returning idx j true two) ∙ hj) di dj
      ]
    ];
  }
    where
      still : (x : ℕ) → closing x ≡ true → update closing e true x ≡ true
      still x c = elim (ℕ_discrete e x) [
        | yes same ↦ ap (update closing e true) (sym same) ∙ update_self closing e true
        | no ne ↦ update_ne closing e x true ne ∙ c
      ]

      other :
          (i x : ℕ)
          → update returning idx true i ≡ true
          → idx ≢ i
          → a.data_at i ≡ elem x
          → a.data_at idx ≢ elem x
      other i x h ne di here =
          let (y, lt', slot, c) = v.read i (sym (update_ne returning idx i true ne) ∙ h) in
          let y_x : y ≡ x = same_elem (a.data_at i) y x slot di in
          let e_x : e ≡ x = same_elem (a.data_at idx) e x d here in
          first (ap closing (e_x ∙ sym y_x) ∙ c)

  -- The thread reads the slot and deletes the element.
  pub read-IsReading :
      (idx e : ℕ)
      → returning idx ≡ true
      → a.data_at idx ≡ elem e
      → IsReading a (update closing e false) (update returning idx false)
  read-IsReading idx e on d = record {
    read = λ i h.
        let one = not_idx i h in
        let on_i = sym (update_ne returning idx i false one) ∙ h in
        let (x, lt, slot, c) = v.read i on_i in
        (
          x,
          lt,
          slot,
          update_ne closing e x false
                (λ same. one (v.apart idx i x on on_i (d ∙ ap elem same) slot))
              ∙ c,
        );
    apart = λ i j x hi hj.
        v.apart i j x (sym (update_ne returning idx i false (not_idx i hi)) ∙ hi)
          (sym (update_ne returning idx j false (not_idx j hj)) ∙ hj);
  }
    where
      not_idx : (i : ℕ) → update returning idx false i ≡ true → idx ≢ i
      not_idx i h same =
          false_true
            (sym (update_self returning idx false) ∙ ap (update returning idx false) same ∙ h)
        where
          false_true : false ≢ true
          false_true k = cc
