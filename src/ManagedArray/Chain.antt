-- ===== src/ManagedArray/Chain.antt =====
-- The free stack of src/generic/ManagedArray.h as a list of slots.
use kos_hspabla.Prelude.{
  ℕ, ◌≡◌, ◌≢◌, ◌∙◌, update, update_ne, Option, none, some, List, [], ◌∷◌, All,
}
use kos_hspabla.ManagedArray.{Slot, link}

abbrev pub NotIn : ℕ → List ℕ → Type 0
NotIn i xs = All (λ j. i ≢ j) xs

abbrev pub Distinct : List ℕ → Type 0
Distinct [] = Unit
Distinct (x ∷ xs) = NotIn x xs × Distinct xs

-- From `top` the links lead through the slots of the list, in order, to the null pointer.
pub data Chain {ℓ} {A : Type ℓ} (d : ℕ → Slot A) : Option ℕ → List ℕ → Type ℓ where
  bottom : Chain d none []
  linked :
      (x : ℕ) (next : Option ℕ) (xs : List ℕ)
      → d x ≡ link next
      → Chain d next xs
      → Chain d (some x) (x ∷ xs)

module _ {ℓ} {A : Type ℓ} where
  -- A write to a slot that is not on the stack leaves the stack as it is.
  pub Chain-update :
      (d : ℕ → Slot A) (i : ℕ) (s : Slot A) (top : Option ℕ) (xs : List ℕ)
      → NotIn i xs
      → Chain d top xs
      → Chain (update d i s) top xs
  Chain-update d i s _ _ off bottom = bottom
  Chain-update d i s _ _ off (linked x next xs e c) =
      linked x next xs (update_ne d i x s off.0 ∙ e) (Chain-update d i s next xs off.1 c)
