-- ===== src/FrameManager/Counts.antt =====
-- How often a frame is counted by the maps of src/kernel/FrameManager.h, as free or to be zeroed, on its own
-- level or in a larger frame of a level above.
use native.Mathlib.Nat.{div-lt_iff_lt-mul, pow-suc, pow-zero}
use kos_hspabla.Prelude.{
  ℕ, zero, suc, ◌+◌, ◌-◌, ◌/◌, ◌^◌, ◌<◌, ◌≤◌, ◌==◌, Bool, true, false, ◌≡◌, sym, ◌∙◌, ap, arith,
  List, [], ◌∷◌, some, dec_lt,
}
use kos_hspabla.Prelude.Search.{find_up, find_up-IsFirst}
use kos_hspabla.Basics.{mword_mod, limit}
use kos_hspabla.Hierarchy
use kos_hspabla.Hierarchy.{Hierarchy}
use kos_hspabla.Hierarchy.Invariant.{Fits, bit, IsLinked}
use kos_hspabla.Hierarchy.Search.{find-first, find-none}
use kos_hspabla.FrameManager.{FrameLevel, FrameMap, table_words, ptentries}

abbrev pub one_if : Bool → ℕ
one_if true = 1
one_if false = 0

pub one_if-le : (b : Bool) → one_if b ≤ 1
one_if-le true = omega arith
one_if-le false = omega arith

abbrev pub free_at : FrameLevel → ℕ → ℕ
free_at f p = one_if (bit table_words f.frames 0 p)

abbrev pub dirty_at : FrameLevel → ℕ → ℕ
dirty_at f p = one_if (bit table_words f.tozero 0 p)

-- How often frame `p` of the lowest level is there.
abbrev pub copies : FrameMap → ℕ → ℕ
copies [] p = 0
copies (f ∷ up) p = free_at f p + dirty_at f p + copies up (p / ptentries)

pub record IsLevel (f : FrameLevel) : Type 0 where
  pub some_levels : 0 < f.height
  pub few_levels : f.height ≤ 7
  pub free_linked : IsLinked table_words f.height f.frames
  pub dirty_linked : IsLinked table_words f.height f.tozero

-- The map of the level above has one bit for each bottom map of this one.
abbrev pub Under : ℕ → FrameMap → Type 0
Under height [] = Unit
Under height (g ∷ up) = height ≡ suc g.height

abbrev pub IsMaps : FrameMap → Type 0
IsMaps [] = Unit
IsMaps (f ∷ up) = IsLevel f × Under f.height up × IsMaps up

abbrev pub heights : FrameMap → List ℕ
heights [] = []
heights (f ∷ up) = f.height ∷ heights up

pub heights-Under :
    (height : ℕ) (up up' : FrameMap) → heights up' ≡ heights up → Under height up → Under height up'
heights-Under height [] [] e u = u
heights-Under height (g ∷ up) (g' ∷ up') e u =
    let same : g'.height ≡ g.height = cc in u ∙ ap suc (sym same)
heights-Under height [] (g' ∷ up') e u = cc
heights-Under height (g ∷ up) [] e u = cc

abbrev pub Managed : FrameMap → ℕ → Type 0
Managed [] p = ⊥
Managed (f ∷ up) p = Fits ptentries f.height p

abbrev pub Once : FrameMap → Type 0
Once maps = (p : ℕ) → copies maps p ≤ 1

-- The positions in range are those below a power.
pub Fits-lt : (b k p : ℕ) → 0 < b → Fits b k p → p < b ^ k
Fits-lt b zero p pos h = omega (arith, h, pow-zero b)
Fits-lt b (suc k) p pos h = omega (
  arith,
  (div-lt_iff_lt-mul {k = b} {x = p} {y = b ^ k} pos).0 (Fits-lt b k (p / b) pos h),
  pow-suc b k,
)

pub lt-Fits : (b k p : ℕ) → 0 < b → p < b ^ k → Fits b k p
lt-Fits b zero p pos h = omega (arith, h, pow-zero b)
lt-Fits b (suc k) p pos h =
    lt-Fits b k (p / b) pos
      ((div-lt_iff_lt-mul {k = b} {x = p} {y = b ^ k} pos).1 (omega (arith, h, pow-suc b k)))

pow_more : (k j : ℕ) → ptentries ^ k ≤ ptentries ^ (j + k)
pow_more k zero =
    let same : ptentries ^ k ≡ ptentries ^ (zero + k) =
      ap (λ (m : ℕ). ptentries ^ m) {y = zero + k} (omega arith) in
    omega (arith, same)
pow_more k (suc j) =
    let next : ptentries ^ (suc j + k) ≡ ptentries ^ suc (j + k) =
      ap (λ (m : ℕ). ptentries ^ m) {y = suc (j + k)} (omega arith) in
    omega (arith, pow_more k j, next, pow-suc ptentries (j + k))

pub pow_small : (k : ℕ) → k ≤ 7 → ptentries ^ k < mword_mod
pow_small k h =
    let e : ptentries ^ (7 - k + k) ≡ ptentries ^ 7 =
      ap (λ (m : ℕ). ptentries ^ m) {y = 7} (omega arith) in
    omega (arith, pow_more k (7 - k), e)

pub Fits-lt-mword :
    (f : FrameLevel) (p : ℕ) → IsLevel f → Fits ptentries f.height p → p + 1 < mword_mod
Fits-lt-mword f p v h =
    omega (arith, Fits-lt ptentries f.height p (omega arith) h, pow_small f.height v.few_levels)

-- `find` from the top level, whatever the map holds.
pub data Finds (k : ℕ) (h : Hierarchy) : Type 0 where
  finds :
      (p : ℕ)
      → Hierarchy.find table_words k h true ≡ some p
      → (p == limit) ≡ false
      → Fits ptentries k p
      → bit table_words h 0 p ≡ true
      → ((j : ℕ) → j < p → bit table_words h 0 j ≡ false)
      → Finds k h
  finds_none :
      Hierarchy.find table_words k h true ≡ some limit
      → ((j : ℕ) → Fits ptentries k j → bit table_words h 0 j ≡ false)
      → Finds k h

pub find-Finds : (k : ℕ) (h : Hierarchy) → 0 < k → k ≤ 7 → IsLinked table_words k h → Finds k h
find-Finds k h pos few v =
    let total = ptentries ^ k in
    let r = find_up (bit table_words h 0) total 0 in
    let first = find_up-IsFirst (bit table_words h 0) total 0 total (omega arith) in
    elim (dec_lt r total) [
      | yes lt ↦
          let fits = lt-Fits ptentries k r (omega arith) lt in
          finds r
            (find-first table_words k (omega arith) (omega arith) r v pos
              (omega (arith, lt, pow_small k few)) fits (first.found lt)
              (λ j h. first.skipped j (omega arith) h))
            (ground (arith, lt, pow_small k few)) fits (first.found lt)
            (λ j h. first.skipped j (omega arith) h)
      | no ge ↦
          let clear : (j : ℕ) → Fits ptentries k j → bit table_words h 0 j ≡ false = λ j f.
            first.skipped j (omega arith)
              (omega (arith, ge, Fits-lt ptentries k j (omega arith) f)) in
          finds_none (find-none table_words k (omega arith) (omega arith) v pos clear) clear
    ]
