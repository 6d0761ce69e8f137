-- ===== src/Hierarchy/Tests.antt =====
-- `class HierarchicalBitmap` of src/generic/Bitmap.h with two levels of maps of one word.
use kos_hspabla.Prelude.{
  ℕ, zero, suc, ◌+◌, ◌/◌, ◌%◌, ◌<◌, Bool, true, false, not, ◌==◌, if◌then◌else◌, ◌≡◌, refl, sym,
  ◌∙◌, ap, arith, ℕ_discrete, some,
}
use kos_hspabla.Prelude.Testbit.{testbit, zero-testbit}
use kos_hspabla.Basics.{limit}
use kos_hspabla.Bitmap
use kos_hspabla.Bitmap.{Bitmap}
use kos_hspabla.Bitmanip.Words.{testbit-shl_one}
use kos_hspabla.Hierarchy
use kos_hspabla.Hierarchy.{Hierarchy}
use kos_hspabla.Hierarchy.Invariant.{Fits, LinkAt, bit, IsLinked}
use kos_hspabla.Hierarchy.Update.{set_lem, clr_lem}
use kos_hspabla.Hierarchy.Blocks.{blockset-blockclr}
use kos_hspabla.Hierarchy.Search.{find_after-first, find-first, find-none}

abbrev blank : Hierarchy
blank l s i = 0

-- Bit 69 of level 0.
abbrev marked : Hierarchy
marked l s i = if l == 0 then (if s == 1 then 32 else 0) else 2

blank-empty : Bitmap.empty 1 (blank 0 0) ≡ true
unfolding Bitmap.empty Bitmap.empty_helper
blank-empty = refl

blank-IsLinked : IsLinked 1 2 blank
blank-IsLinked = record {
  words = λ l s i. omega arith;
  linked = λ l k s e fits. zero-testbit (s % 64 % 64) ∙ sym (ap not blank-empty);
}

marked_map : (s : ℕ) → Bitmap.empty 1 (marked 0 s) ≡ not (1 == s)
unfolding Bitmap.empty Bitmap.empty_helper
marked_map s = ground arith

marked_link : (s : ℕ) → s / 64 ≡ 0 → LinkAt 1 marked 0 s
marked_link s fits =
    let top : (s / 64 == 1) ≡ false = ground arith in
    let low : s % 64 % 64 ≡ s = grind arith in
    ap (testbit 2) low
    ∙ testbit-shl_one 1 s (omega arith)
    ∙ sym (not-not (1 == s))
    ∙ sym (ap not (marked_map s))
  where
    not-not : (b : Bool) → not (not b) ≡ b
    not-not true = refl
    not-not false = refl

marked-IsLinked : IsLinked 1 2 marked
marked-IsLinked = record {
  words = λ l s i. ground arith;
  linked = λ l k s e fits. only l k s e fits;
}
  where
    only : (l k s : ℕ) → suc l + suc k ≡ 2 → Fits 64 (suc k) s → LinkAt 1 marked l s
    only zero zero s e fits = marked_link s fits
    only zero (suc k) s e fits = absurd (omega arith)
    only (suc l) k s e fits = absurd (omega arith)

set_lem_example :
    (h' : Hierarchy) × (Hierarchy.set 1 2 marked 130 0 ≡ some h')
    × IsLinked 1 2 h'
    × ((p : ℕ) → bit 1 h' 0 p ≡ (if 130 == p then true else bit 1 marked 0 p))
set_lem_example = set_lem 1 2 (omega arith) marked 130 marked-IsLinked (omega arith) refl

clr_lem_example :
    (h' : Hierarchy) × (Hierarchy.clr 1 2 marked 69 0 ≡ some h')
    × IsLinked 1 2 h'
    × ((p : ℕ) → bit 1 h' 0 p ≡ (if 69 == p then false else bit 1 marked 0 p))
clr_lem_example = clr_lem 1 2 (omega arith) marked 69 marked-IsLinked (omega arith) refl

blockset-blockclr_example : record {
  set :
      (h' : Hierarchy) × (Hierarchy.blockset 1 2 marked 70 ≡ some h')
      × IsLinked 1 2 h'
      × ((p : ℕ) → bit 1 h' 0 p ≡ (if 70 / 64 == p / 64 then true else bit 1 marked 0 p));
  clr :
      (h' : Hierarchy) × (Hierarchy.blockclr 1 2 marked 70 ≡ some h')
      × IsLinked 1 2 h'
      × ((p : ℕ) → bit 1 h' 0 p ≡ (if 70 / 64 == p / 64 then false else bit 1 marked 0 p));
}
blockset-blockclr_example =
    blockset-blockclr 1 2 (omega arith) marked 70 marked-IsLinked (omega arith) refl

marked-on : bit 1 marked 0 69 ≡ true
marked-on = refl

marked-below : (j : ℕ) → j < 69 → bit 1 marked 0 j ≡ false
marked-below j lt = elim (ℕ_discrete (j / 64) 1) [
  | yes e ↦
      let hit : (j / 64 == 1) ≡ true = ground arith in
      let place : (5 == j % 64 % 64) ≡ false = grind arith in
      ap (λ (b : Bool). testbit (if b then 32 else 0) (j % 64 % 64)) hit
      ∙ testbit-shl_one 5 (j % 64 % 64) (grind arith)
      ∙ place
  | no ne ↦
      let other : (j / 64 == 1) ≡ false = ground arith in
      ap (λ (b : Bool). testbit (if b then 32 else 0) (j % 64 % 64)) other
      ∙ zero-testbit (j % 64 % 64)
]

find_after-first_example : Hierarchy.find_after 1 2 marked 3 true ≡ some 69
find_after-first_example =
    find_after-first 1 2 (omega arith) (omega arith) 3 69 marked-IsLinked (omega arith)
      (omega arith) (omega arith) refl marked-on (λ j a b. marked-below j b)

find-first_example : Hierarchy.find 1 2 marked true ≡ some 69
find-first_example =
    find-first 1 2 (omega arith) (omega arith) 69 marked-IsLinked (omega arith) (omega arith) refl
      marked-on marked-below

find-none_example : Hierarchy.find 1 2 blank true ≡ some limit
find-none_example =
    find-none 1 2 (omega arith) (omega arith) blank-IsLinked (omega arith)
      (λ j fits. zero-testbit (j % 64 % 64))
