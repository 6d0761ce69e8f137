-- ===== src/AddressSpace/Shootdown.antt =====
-- An address space of src/kernel/AddressSpace.h under any order of its operations, with, for each
-- processor on `markerList`, the pages that were unmapped since it entered and that its TLB may still have.
use mathlib.Core.List.{reverse}
use kos_hspabla.Prelude.{
  ℕ, ◌+◌, ◌^◌, ◌<◌, ◌==◌, Bool, if◌then◌else◌, ◌≡◌, some, List, [], ◌∷◌, ◌++◌, map, length, All,
}
use kos_hspabla.Basics.{mword_mod}
use kos_hspabla.AddressSpace.{
  AddressSpace, Descriptor, Marker, VmRange, Left, get_vm_range, range_of, enter, post_unmap,
  remove_marker, leave,
}
use kos_hspabla.AddressSpace.Ranges.{Fits, IsClear}
use kos_hspabla.AddressSpace.Epochs.{Tracks, IsExact, one_more}
use kos_hspabla.AddressSpace.Reclaim.{ApartFrom, Pending, frames_of}

-- The pages that a processor's TLB may have, and those of the others.
abbrev pub own_pages : ℕ → List Marker → List (List Descriptor) → List Descriptor
own_pages cpu [] stale = []
own_pages cpu (m ∷ markers) [] = []
own_pages cpu (m ∷ markers) (t ∷ stale) = if m.cpu == cpu then t else own_pages cpu markers stale

abbrev pub drop_own : ℕ → List Marker → List (List Descriptor) → List (List Descriptor)
drop_own cpu [] stale = stale
drop_own cpu (m ∷ markers) [] = []
drop_own cpu (m ∷ markers) (t ∷ stale) =
    if m.cpu == cpu then stale else t ∷ drop_own cpu markers stale

pub record System : Type 0 where
  pub space : AddressSpace
  pub stale : List (List Descriptor)

abbrev pub left : System → ℕ → Left → System
left s cpu l = record { space = l.space; stale = drop_own cpu s.space.marker_list s.stale }

-- The processor that unmaps is one of the address space, and the page is mapped once, above the break.
pub data SpaceStep (s : System) : System → Type 0 where
  enters :
      (cpu : ℕ) → SpaceStep s (record { space = enter s.space cpu; stale = s.stale ++ ([] ∷ []) })
  reserves :
      (page addr size start n : ℕ) (vm : VmRange)
      → get_vm_range s.space.vm page addr size ≡ some (start, n, vm)
      → SpaceStep s (record { space = record s.space { vm = vm }; stale = s.stale })
  unmaps :
      (cpu : ℕ) (m : Marker) (markers : List Marker) (md : Descriptor)
      → remove_marker cpu s.space.marker_list ≡ some (m, markers)
      → Fits s.space.vm.map_start s.space.vm.unmap_set (range_of md)
      → ApartFrom md s.space.memory_list
      → length s.space.memory_list + 1 < 2 ^ 63
      → SpaceStep s (record { space = post_unmap s.space md; stale = one_more md s.stale })
  leaves :
      (cpu : ℕ) (invalidate : Bool) (l : Left)
      → leave invalidate s.space cpu ≡ some l
      → SpaceStep s (left s cpu l)

-- From an address space that nothing was unmapped from and no processor has entered.
pub data SpaceReachable : System → Type 0 where
  fresh :
      (epoch : ℕ) (vm : VmRange)
      → epoch < mword_mod
      → vm.unmap_set ≡ []
      → SpaceReachable (record {
        space = record { unmap_epoch = epoch; memory_list = []; marker_list = []; vm = vm };
        stale = [];
      })
  later : (s s' : System) → SpaceReachable s → SpaceStep s s' → SpaceReachable s'

pub record IsSound (s : System) : Type 0 where
  pub below : s.space.unmap_epoch < mword_mod
  pub small : length s.space.memory_list < 2 ^ 63
  pub tracks : Tracks s.space.unmap_epoch s.space.memory_list s.space.marker_list s.stale
  pub exact : IsExact s.space.memory_list s.stale
  pub clear : IsClear s.space.vm.map_start s.space.vm.unmap_set
  pub pending : Pending s.space.vm s.space.memory_list

-- What `leave` does: it flushes the processor's own pages, takes pages from the front of the list, gives
-- their frames back, and leaves on it all pages that another processor may have.
pub record Leaves (s : System) (invalidate : Bool) (cpu : ℕ) (l : Left) : Type 0 where
  pub gone : List Descriptor
  pub flushes : l.flushed ≡ (
      if invalidate
      then map (λ md. md.vma) (reverse (own_pages cpu s.space.marker_list s.stale))
      else [])
  pub takes : s.space.memory_list ≡ gone ++ l.space.memory_list
  pub releases : l.released ≡ frames_of gone
  pub keeps :
      All (λ t. (older : List Descriptor) × (l.space.memory_list ≡ older ++ t)) (left s cpu l).stale
  pub sound : IsSound (left s cpu l)
