-- ===== src/AddressSpace.antt =====
-- `class BaseAddressSpace` of src/kernel/AddressSpace.h: ranges of virtual addresses, and pages that are
-- unmapped now and reclaimed when no processor can have them in its TLB. Intrusive lists are lists, the
-- set of unmapped ranges is a list in its order, and a processor stands for its AddressSpaceMarker. An
-- UnmapDescriptor takes the place of a MemoryDescriptor, so both have its address `at` in memory; the set
-- is one of pointers, which std::less compares. `none` is a failed assertion.
pub mod Ranges
pub mod Epochs
pub mod Reclaim
pub mod Shootdown
pub mod Leaving
pub mod Reaches
pub mod Reserve
mod Tests
use mathlib.Core.List.{reverse}
use kos_hspabla.Prelude.{
  ℕ, ◌+◌, ◌-◌, ◌%◌, ◌^◌, ◌==◌, ltb, leb, Bool, true, false, not, ◌&&◌, if◌then◌else◌, Option, none,
  some, ◌>>=◌, List, [], ◌∷◌, ◌++◌,
}
use kos_hspabla.Basics.{add_mword, sub_mword, align_up, align_down}

pub record Descriptor : Type 0 where
  pub at : ℕ
  pub vma : ℕ
  pub pma : ℕ
  pub size : ℕ
  pub alloc : Bool

-- `UnmapDescriptor`
pub record Range : Type 0 where
  pub at : ℕ
  pub start : ℕ
  pub end : ℕ

pub record Marker : Type 0 where
  pub cpu : ℕ
  pub enter_epoch : ℕ

-- What `vlock` protects, with the set of unmapped ranges.
pub record VmRange : Type 0 where
  pub map_bottom : ℕ
  pub map_start : ℕ
  pub map_top : ℕ
  pub unmap_set : List Range

pub record AddressSpace : Type 0 where
  pub unmap_epoch : ℕ
  pub memory_list : List Descriptor
  pub marker_list : List Marker
  pub vm : VmRange

unfoldable pub setup : VmRange → ℕ → ℕ → VmRange
setup vm bot top = record vm { map_bottom = bot; map_start = top; map_top = top }

-- For pages of `page` bytes: the start of the range, its size, and the break moved down.
unfoldable pub get_vm_range : VmRange → ℕ → ℕ → ℕ → Option (ℕ × ℕ × VmRange)
get_vm_range vm page addr size =
    let end =
      if leb vm.map_bottom addr
      then align_up (add_mword addr size) page
      else align_down vm.map_start page in
    let start = align_down (sub_mword end size) page in
    let lower = if ltb start vm.map_start then record vm { map_start = start } else vm in
    if not (ltb vm.map_bottom vm.map_top)
    then none
    else if ltb start vm.map_bottom
    then none
    else some (start, sub_mword end start, lower)

-- `unmapSet.insert`, which changes nothing for a pointer that is in the set.
unfoldable pub set_insert : Range → List Range → List Range
set_insert r [] = r ∷ []
set_insert r (x ∷ set) =
    let rest = set_insert r set in
    if ltb r.at x.at then r ∷ x ∷ set else if r.at == x.at then x ∷ set else x ∷ rest

-- The loop of `putVmRange`: the break and the set.
unfoldable pub move_break : ℕ → List Range → Option (ℕ × List Range)
move_break map_start [] = some (map_start, [])
move_break map_start (ud ∷ set) =
    let rest = move_break ud.end set in
    if ltb map_start ud.start
    then some (map_start, ud ∷ set)
    else if not (ud.start == map_start)
    then none
    else if not (ltb map_start ud.end)
    then none
    else rest

-- `new (md) UnmapDescriptor(md->vma, md->vma + md->size)`
abbrev pub range_of : Descriptor → Range
range_of md = record { at = md.at; start = md.vma; end = add_mword md.vma md.size }

unfoldable pub put_vm_range : VmRange → Descriptor → Option VmRange
put_vm_range vm md = move_break vm.map_start (set_insert (range_of md) vm.unmap_set) >>= λ moved.
    some (record vm { map_start = moved.0; unmap_set = moved.1 })

-- `e > 0` of a difference of two epochs, which are signed.
abbrev pub positive : ℕ → Bool
positive e = ltb 0 e && ltb e (2 ^ 63)

unfoldable pub enter : AddressSpace → ℕ → AddressSpace
enter s cpu = record s {
  marker_list = s.marker_list ++ (record { cpu = cpu; enter_epoch = s.unmap_epoch } ∷ []);
}

-- The part of `unmapRegion` under the lock.
unfoldable pub post_unmap : AddressSpace → Descriptor → AddressSpace
post_unmap s md = record s {
  memory_list = s.memory_list ++ (md ∷ []);
  unmap_epoch = add_mword s.unmap_epoch 1;
}

-- The first loop of `leave`, over the list backwards: the addresses that are flushed.
unfoldable pub invalidate_from : ℕ → ℕ → List Descriptor → Option (List ℕ)
invalidate_from e enter_epoch [] = if positive (sub_mword e enter_epoch) then none else some []
invalidate_from e enter_epoch (md ∷ back) =
    let more =
      invalidate_from (sub_mword e 1) enter_epoch back >>= λ flushed. some (md.vma ∷ flushed) in
    if positive (sub_mword e enter_epoch) then more else some []

pub record Reclaimed : Type 0 where
  pub vm : VmRange
  pub memory_list : List Descriptor
  -- The frames given back, with their sizes.
  pub released : List (ℕ × ℕ)

abbrev pub release_if : Bool → Descriptor → Reclaimed → Reclaimed
release_if false md r = r
release_if true md r = record r { released = (md.pma, md.size) ∷ r.released }

-- The second loop.
unfoldable pub reclaim_from : ℕ → ℕ → VmRange → List Descriptor → Option Reclaimed
reclaim_from e end vm [] =
    if positive (sub_mword end e)
    then none
    else some (record { vm = vm; memory_list = []; released = [] })
reclaim_from e end vm (md ∷ list) =
    let more = put_vm_range vm md >>= λ vm'.
    reclaim_from (add_mword e 1) end vm' list >>= λ r. some (release_if md.alloc md r) in
    if positive (sub_mword end e)
    then more
    else some (record { vm = vm; memory_list = md ∷ list; released = [] })

-- `IntrusiveList::remove`: the marker and the others. Its assertion fails if it is not on the list.
unfoldable pub remove_marker : ℕ → List Marker → Option (Marker × List Marker)
remove_marker cpu [] = none
remove_marker cpu (m ∷ markers) =
    let later = remove_marker cpu markers >>= λ r. some (r.0, m ∷ r.1) in
    if m.cpu == cpu then some (m, markers) else later

abbrev pub is_front : ℕ → List Marker → Bool
is_front cpu [] = false
is_front cpu (m ∷ markers) = m.cpu == cpu

-- `markerList.empty() ? unmapEpoch : markerList.front()->enterEpoch`
abbrev pub oldest_epoch : ℕ → List Marker → ℕ
oldest_epoch epoch [] = epoch
oldest_epoch epoch (m ∷ markers) = m.enter_epoch

pub record Left : Type 0 where
  pub space : AddressSpace
  pub flushed : List ℕ
  pub released : List (ℕ × ℕ)

unfoldable pub leave_with : Bool → Bool → AddressSpace → Marker → List Marker → Option Left
leave_with invalidate front s m markers = do
  flushed ←
      if invalidate
      then invalidate_from s.unmap_epoch m.enter_epoch (reverse s.memory_list)
      else some []
  r ←
      if front
      then reclaim_from m.enter_epoch (oldest_epoch s.unmap_epoch markers) s.vm s.memory_list
      else some (record { vm = s.vm; memory_list = s.memory_list; released = [] })
  some (record {
    space = record s { memory_list = r.memory_list; marker_list = markers; vm = r.vm };
    flushed = flushed;
    released = r.released;
  })

unfoldable pub leave : Bool → AddressSpace → ℕ → Option Left
leave invalidate s cpu = remove_marker cpu s.marker_list >>= λ found.
    leave_with invalidate (is_front cpu s.marker_list) s found.0 found.1

-- `KernelAddressSpace::runInvalidation`
unfoldable pub run_invalidation : AddressSpace → ℕ → Option Left
run_invalidation s cpu = leave true s cpu >>= λ l. some (record l { space = enter l.space cpu })

unfoldable pub init_invalidation : AddressSpace → ℕ → Option AddressSpace
init_invalidation s cpu =
    let first = leave true (enter s cpu) cpu >>= λ l. some (enter l.space cpu) in
    elim s.marker_list [ [] ↦ first | m ∷ markers ↦ some (enter s cpu) ]
