-- ===== src/FrameManager/Tests.antt =====
-- Runs of the frame manager, and the theorems at concrete inputs: two levels of smaller bitmaps, with one
-- large frame free.

use kos_hspabla.Prelude.{
  ℕ, ◌+◌, ◌/◌, ◌%◌, true, false, not, ◌==◌, ◌&&◌, if◌then◌else◌, ◌≡◌, refl, sym, ◌∙◌, ap, arith, [],
  ◌∷◌, some, none, ◌⊎◌,
}
use kos_hspabla.Prelude.Testbit.{zero-testbit}
use kos_hspabla.Bitmap
use kos_hspabla.Hierarchy.{Hierarchy}
use kos_hspabla.Hierarchy.Invariant.{bit, IsLinked}
use kos_hspabla.FrameManager.{FrameLevel, FrameMap, release_internal, release, alloc}
use kos_hspabla.FrameManager.Counts.{one_if, one_if-le, copies, IsMaps, Once, Managed}
use kos_hspabla.FrameManager.Release.{Released, release_internal_lem}
use kos_hspabla.FrameManager.Alloc.{Allocated, alloc_lem}
use kos_hspabla.FrameManager.Ranges.{Marks, Absent}
use kos_hspabla.FrameManager.Marking.{release-Marks}
use kos_hspabla.FrameManager.Owners.{unused, exclusive_frames}

abbrev blank : Hierarchy
blank l s i = 0

-- Bit 3 of level 0.
abbrev third : Hierarchy
third l s i = if (l == 0) && (s == 0) && (i == 0) then 8 else 0

abbrev small_level : FrameLevel
small_level = record { height = 2; frames = blank; tozero = blank }

abbrev large_level : FrameLevel
large_level = record { height = 1; frames = third; tozero = blank }

abbrev one_large : FrameMap
one_large = small_level ∷ large_level ∷ []

blank-empty : Bitmap.empty 8 (blank 0 0) ≡ true
unfolding Bitmap.empty Bitmap.empty_helper
blank-empty = refl

blank-IsLinked : (k : ℕ) → IsLinked 8 k blank
blank-IsLinked k = record {
  words = λ l s i. omega arith;
  linked = λ l k s e fits. zero-testbit (s % 512 % 64) ∙ sym (ap not blank-empty);
}

third-IsLinked : IsLinked 8 1 third
third-IsLinked = record {
  words = λ l s i. ground arith;
  linked = λ l k s e fits. absurd (omega arith);
}

one_large-IsMaps : IsMaps one_large
one_large-IsMaps = (
  record {
    some_levels = omega arith;
    few_levels = omega arith;
    free_linked = blank-IsLinked 2;
    dirty_linked = blank-IsLinked 2;
  },
  refl,
  (
    record {
      some_levels = omega arith;
      few_levels = omega arith;
      free_linked = third-IsLinked;
      dirty_linked = blank-IsLinked 1;
    },
    record {},
    record {},
  ),
)

blank_count : (p : ℕ) → one_if (bit 8 blank 0 p) ≡ 0
blank_count p = ap one_if (zero-testbit (p % 512 % 64))

large_count : (p : ℕ) → copies one_large p ≡ one_if (bit 8 third 0 (p / 512))
large_count p = omega (arith, blank_count p, blank_count (p / 512))

one_large-Once : Once one_large
one_large-Once p = omega (arith, large_count p, one_if-le (bit 8 third 0 (p / 512)))

not_there : Absent one_large 0 5
not_there p lo hi =
    large_count p ∙ ap (λ q. one_if (bit 8 third 0 q)) {x = p / 512} {y = 0} (omega (arith, hi))

release_internal_lem_example :
    (f' : FrameLevel) × (up' : FrameMap) × (release_internal one_large 4 ≡ some (true, f' ∷ up'))
    × Released small_level (large_level ∷ []) 4 f' up'
release_internal_lem_example =
    release_internal_lem small_level (large_level ∷ []) 4 one_large-IsMaps refl
      (not_there 4 (omega arith) (omega arith))

alloc_lem_example :
    ((idx : ℕ) × (maps' : FrameMap) × (alloc 2 one_large ≡ some (idx, maps'))
      × Allocated one_large idx maps'
      × Once maps'
      × (copies maps' idx ≡ 0))
    ⊎ ((alloc 2 one_large ≡ none) × ((p : ℕ) → Managed one_large p → copies one_large p ≡ 0))
alloc_lem_example = alloc_lem one_large one_large-IsMaps one_large-Once

release-Marks_example : Marks one_large 0 5 (release 2 one_large 0 5)
release-Marks_example =
    release-Marks 2 one_large 0 5 one_large-IsMaps (omega arith) (omega arith) not_there

exclusive_frames_example :
    ((p : ℕ) → copies one_large p + 0 ≡ copies one_large p)
    × (((idx : ℕ) × (maps' : FrameMap) × (alloc 2 one_large ≡ some (idx, maps'))
          × (false ≡ false)
          × (copies one_large idx ≡ 1))
        ⊎ ((alloc 2 one_large ≡ none) × ((p : ℕ) → Managed one_large p → copies one_large p ≡ 0)))
exclusive_frames_example =
    exclusive_frames one_large one_large-IsMaps one_large-Once
      (record { maps = one_large; owned = λ p. false }) unused
