-- ===== src/Hierarchy/Invariant.antt =====
-- What `class HierarchicalBitmap` of src/generic/Bitmap.h keeps true: a bit of level l + 1 is set
-- exactly if the map of level l that it stands for is not empty.
use mathlib.Core.Path.{subst}
use mathlib.Core.Bool.{false≢true}
use native.Mathlib.Nat.{div-add-mod, mod-lt}
use kos_hspabla.Prelude.{
  ℕ, zero, suc, ◌+◌, ◌*◌, ◌/◌, ◌%◌, ◌<◌, ◌≤◌, Bool, true, false, not, ◌==◌, if◌then◌else◌, ◌≡◌, ◌≢◌,
  sym, ◌∙◌, ap, ap₂, arith, ℕ_discrete, inl, inr, Bool-cases,
}
use kos_hspabla.Bitmanip.Round.{IsWords, bit_at}
use kos_hspabla.Bitmap
use kos_hspabla.Bitmap.{Bitmap}
use kos_hspabla.Bitmap.Whole.{empty_iff}
use kos_hspabla.Hierarchy.{Hierarchy, map_bits, put_map}

-- The position of level k above position `p` of level 0, for maps of `b` bits.
abbrev pub above : ℕ → ℕ → ℕ → ℕ
above b zero p = p
above b (suc k) p = above b k (p / b)

-- Position `s` of level L - k is one of the b ^ k positions of that level.
abbrev pub Fits : ℕ → ℕ → ℕ → Type 0
Fits b k s = above b k s ≡ 0

div_mono : {s t : ℕ} (b : ℕ) → s ≤ t → s / b ≤ t / b
div_mono b h = grind arith

pub above_mono : (b k s t : ℕ) → s ≤ t → above b k s ≤ above b k t
above_mono b zero s t h = h
above_mono b (suc k) s t h = above_mono b k (s / b) (t / b) (div_mono b h)

-- The bit of level `l` at position `p`, in maps of `n` words.
abbrev pub bit : ℕ → Hierarchy → ℕ → ℕ → Bool
bit n h l p = bit_at (h l (p / map_bits n)) (p % map_bits n)

abbrev pub LinkAt : ℕ → Hierarchy → ℕ → ℕ → Type 0
LinkAt n h l s = bit n h (suc l) s ≡ not (Bitmap.empty n (h l s))

pub record IsLinked (n L : ℕ) (h : Hierarchy) : Type 0 where
  pub words : (l s : ℕ) → IsWords (h l s)
  pub linked : (l k s : ℕ) → suc l + suc k ≡ L → Fits (map_bits n) (suc k) s → LinkAt n h l s

-- A write of one map is seen at the positions of that map only.
pub bit-put_map :
    (n : ℕ) (h : Hierarchy) (l q : ℕ) (m : Bitmap) (l' p : ℕ)
    → bit n (put_map h l q m) l' p ≡ (
        if l == l'
        then (if q == p / map_bits n then bit_at m (p % map_bits n) else bit n h l' p)
        else bit n h l' p)
bit-put_map n h l q m l' p = ground (arith, ap h {x = l} {y = l'})

-- A position is its map and its place in it.
pub position : (b p : ℕ) → 0 < b → (p / b * b + p % b ≡ p) × (p % b < b)
position b p h = omega (arith, div-add-mod p b, mod-lt p h)

pub split_position : (b q r : ℕ) → r < b → ((q * b + r) / b ≡ q) × ((q * b + r) % b ≡ r)
split_position b q r h = (grind arith, grind arith)

pub put_map-ne :
    (h : Hierarchy) (l q : ℕ) (m : Bitmap) (l' s : ℕ)
    → (l ≡ l' → q ≢ s)
    → put_map h l q m l' s ≡ h l' s
put_map-ne h l q m l' s apart = elim (ℕ_discrete l l') [
  | yes e ↦ rw e (ground (arith, apart e, ap h e))
  | no ne ↦ ground arith
]

pub put_map_self : (h : Hierarchy) (l q : ℕ) (m : Bitmap) → put_map h l q m l q ≡ m
put_map_self h l q m = ground arith

pub put_map-IsWords :
    (h : Hierarchy) (l q : ℕ) (m : Bitmap) (l' s : ℕ)
    → IsWords m
    → IsWords (h l' s)
    → IsWords (put_map h l q m l' s)
put_map-IsWords h l q m l' s hm hs = elim (ℕ_discrete l l') [
  | yes e ↦ elim (ℕ_discrete q s) [
    | yes here ↦ subst IsWords (sym (put_map_self h l q m) ∙ ap₂ (put_map h l q m) e here) hm
    | no other ↦ subst IsWords (sym (put_map-ne h l q m l' s (λ _. other))) hs
  ]
  | no ne ↦ subst IsWords (sym (put_map-ne h l q m l' s (λ e. absurd (ne e)))) hs
]

same_map : (b i p : ℕ) → i / b ≢ p / b → (i == p) ≡ false
same_map b i p ne = elim (ℕ_discrete i p) [
  | yes e ↦ absurd (ne (ap (λ x. x / b) e))
  | no other ↦ ground arith
]

same_place : (b i p : ℕ) → 0 < b → i / b ≡ p / b → (i % b == p % b) ≡ (i == p)
same_place b i p pos same = elim (ℕ_discrete i p) [
  | yes e ↦ let rest : i % b ≡ p % b = ap (λ x. x % b) e in ground arith
  | no other ↦ elim (ℕ_discrete (i % b) (p % b)) [
    | yes e ↦ absurd (
        other
          (sym (position b i pos).0 ∙ ap₂ (λ (x y : ℕ). x * b + y) same e ∙ (position b p pos).0))
    | no ne ↦ ground arith
  ]
]

-- Where the new map differs from the old one in one bit, so does the level.
pub bit-put_map_one :
    (n : ℕ) (h : Hierarchy) (l idx : ℕ) (m : Bitmap) (v : Bool) (p : ℕ)
    → 0 < n
    → ((j : ℕ)
        → bit_at m j ≡ (if idx % map_bits n == j then v else bit_at (h l (idx / map_bits n)) j))
    → bit n (put_map h l (idx / map_bits n) m) l p ≡ (if idx == p then v else bit n h l p)
bit-put_map_one n h l idx m v p pos hm = elim (ℕ_discrete (idx / map_bits n) (p / map_bits n)) [
  | yes same ↦
      let here : put_map h l (idx / map_bits n) m l (p / map_bits n) ≡ m = written same in
      ap (λ (a : Bitmap). bit_at a (p % map_bits n)) here
      ∙ hm (p % map_bits n)
      ∙ ap (λ q. if idx % map_bits n == p % map_bits n then v else bit_at (h l q) (p % map_bits n))
          same
      ∙ ap (λ b. if b then v else bit n h l p) (same_place (map_bits n) idx p (omega arith) same)
  | no other ↦
      let apart : (idx == p) ≡ false = same_map (map_bits n) idx p other in
      ap (λ (a : Bitmap). bit_at a (p % map_bits n))
        (put_map-ne h l (idx / map_bits n) m l (p / map_bits n) (λ _. other))
      ∙ rw apart
]
  where
    written :
        idx / map_bits n ≡ p / map_bits n → put_map h l (idx / map_bits n) m l (p / map_bits n) ≡ m
    written e =
        ap (λ s. put_map h l (idx / map_bits n) m l s) (sym e)
        ∙ put_map_self h l (idx / map_bits n) m

-- A map with a bit is not empty, and a map that is not empty has one.
pub empty-false :
    (n : ℕ) (m : Bitmap) (j : ℕ)
    → 0 < n
    → IsWords m
    → j < map_bits n
    → bit_at m j ≡ true
    → Bitmap.empty n m ≡ false
empty-false n m j pos h hj on = elim (Bool-cases (Bitmap.empty n m)) [
  | inl e ↦ absurd (false≢true (sym ((empty_iff n m pos h).0.0 e j hj) ∙ on))
  | inr e ↦ e
]
