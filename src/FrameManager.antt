-- ===== src/FrameManager.antt =====
-- `class FrameMap` and `class FrameManager` of src/kernel/FrameManager.h: physical frames by page level,
-- smallest first; each level keeps the free frames and those that must be zeroed first, and a list of
-- levels stands for the classes FrameMap<PL> up to FrameMap<kernelpl + 1>, the empty list. A level's lock is
-- held throughout, also while a frame is zeroed. `none` is a failed assertion or a KABORT.
pub mod Counts
pub mod Release
pub mod Zero
pub mod Alloc
pub mod Ranges
pub mod Marking
pub mod Owners
mod Tests
use kos_hspabla.Prelude.{
  ℕ, zero, suc, ◌+◌, ◌-◌, ◌*◌, ◌/◌, ◌%◌, ◌^◌, ◌==◌, leb, Bool, true, false, not, ◌&&◌,
  if◌then◌else◌, Option, none, some, ◌>>=◌, List, [], ◌∷◌,
}
use kos_hspabla.Basics.{mword_mod, limit, sub_mword, add_mword, aligned, align_down}
use kos_hspabla.Hierarchy
use kos_hspabla.Hierarchy.{Hierarchy}

-- `ptentries`, in words and in bits.
abbrev pub table_words : ℕ
table_words = 8

abbrev pub ptentries : ℕ
ptentries = 512

pub record FrameLevel : Type 0 where
  -- `Levels` of the two bitmaps.
  pub height : ℕ
  pub frames : Hierarchy
  pub tozero : Hierarchy

abbrev pub FrameMap : Type 0
FrameMap = List FrameLevel

-- Also `releaseDirect`.
unfoldable pub release_internal : FrameMap → ℕ → Option (Bool × FrameMap)
release_internal [] idx = some (false, [])
release_internal (f ∷ up) idx =
    let above = release_internal up (idx / ptentries) in
    do
      frames ← Hierarchy.set table_words f.height f.frames idx 0
      if not (Hierarchy.blockfull table_words f.height frames idx)
          then some (true, record f { frames = frames } ∷ up)
          else do
            direct ← above
            cleared ←
                if direct.0 then Hierarchy.blockclr table_words f.height frames idx else some frames
            some (true, record f { frames = cleared } ∷ direct.1)

-- `zeroInternal` and `zeroLocked`.
unfoldable pub zero_internal : FrameMap → Option (Bool × FrameMap)
zero_internal [] = some (false, [])
zero_internal (f ∷ up) = do
  idx ← Hierarchy.find table_words f.height f.tozero true
  if idx == limit then some (false, f ∷ up) else do
    tozero ← Hierarchy.clr table_words f.height f.tozero idx 0
    released ← release_internal (record f { tozero = tozero } ∷ up) idx
    some (true, released.1)

-- `FrameMap::zero`; what returns false has changed nothing.
unfoldable pub zero_any : FrameMap → Option (Bool × FrameMap)
zero_any [] = some (false, [])
zero_any (f ∷ up) =
    let above = zero_any up in
    do
      here ← zero_internal (f ∷ up)
      if here.0 then some here else above >>= λ r. some (r.0, f ∷ r.1)

-- A round of the loop of `release` in the else branch.
unfoldable pub mark_dirty : FrameLevel → ℕ → Option FrameLevel
mark_dirty f idx = Hierarchy.set table_words f.height f.tozero idx 0 >>= λ tozero.
    some (record f { tozero = tozero })

-- The loop of `release`, on fuel, with `release` of the level above.
unfoldable pub release_loop :
    (FrameMap → ℕ → ℕ → Option (Bool × FrameMap))
    → ℕ
    → FrameLevel
    → FrameMap
    → ℕ
    → ℕ
    → Option (Bool × FrameMap)
release_loop above zero f up idx cnt = none
release_loop above (suc fuel) f up idx cnt =
    let one = λ (up' : FrameMap).
      mark_dirty f idx >>= λ f'. release_loop above fuel f' up' (add_mword idx 1) (cnt - 1) in
    let whole = align_down cnt ptentries in
    let many = above up (idx / ptentries) (cnt / ptentries) >>= λ r.
    if r.0 then release_loop above fuel f r.1 (add_mword idx whole) (cnt - whole) else one r.1 in
    if cnt == 0
    then some (true, f ∷ up)
    else if aligned idx ptentries && leb ptentries cnt
    then many
    else one up

-- With the number of levels.
unfoldable pub release : ℕ → FrameMap → ℕ → ℕ → Option (Bool × FrameMap)
release zero maps idx cnt = some (false, maps)
release (suc r) [] idx cnt = some (false, [])
release (suc r) (f ∷ up) idx cnt = release_loop (release r) (cnt + 1) f up idx cnt

unfoldable pub alloc_here : FrameLevel → FrameMap → ℕ → Option (ℕ × FrameMap)
alloc_here f up idx = Hierarchy.clr table_words f.height f.frames idx 0 >>= λ frames.
    some (idx, record f { frames = frames } ∷ up)

-- A frame of the level above becomes free frames of this one, the first of which is taken.
unfoldable pub split_frame : FrameLevel → ℕ × FrameMap → Option (ℕ × FrameMap)
split_frame f (q, up) =
    let idx = q * ptentries % mword_mod in
    Hierarchy.blockset table_words f.height f.frames idx >>= λ frames.
    alloc_here (record f { frames = frames }) up idx

-- The loop of `alloc`, on fuel, with `alloc` of the level above.
unfoldable pub alloc_loop :
    (FrameMap → Option (ℕ × FrameMap)) → ℕ → FrameMap → Option (ℕ × FrameMap)
alloc_loop above zero maps = none
alloc_loop above (suc fuel) [] = none
alloc_loop above (suc fuel) (f ∷ up) =
    let split = above up >>= split_frame f in
    do
      idx ← Hierarchy.find table_words f.height f.frames true
      if not (idx == limit) then alloc_here f up idx else do
        zeroed ← zero_internal (f ∷ up)
        if zeroed.0 then alloc_loop above fuel zeroed.1 else split

-- As many rounds as there are frames, and one more.
abbrev pub alloc_fuel : FrameMap → ℕ
alloc_fuel [] = 1
alloc_fuel (f ∷ up) = ptentries ^ f.height + 1

unfoldable pub alloc : ℕ → FrameMap → Option (ℕ × FrameMap)
alloc zero maps = none
alloc (suc r) maps = alloc_loop (alloc r) (alloc_fuel maps) maps
