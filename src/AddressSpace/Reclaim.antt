-- ===== src/AddressSpace/Reclaim.antt =====
-- The second loop of `leave` in src/kernel/AddressSpace.h: pages leave the list, their frames go back to
-- the frame manager, and their addresses to the break.
use kos_hspabla.Prelude.{
  ℕ, ◌^◌, ◌<◌, Bool, true, false, ◌≡◌, refl, ap, arith, some, List, [], ◌∷◌, ◌++◌, length, All,
}
use kos_hspabla.Basics.{mword_mod, add_mword, sub_mword}
use kos_hspabla.AddressSpace.{
  Descriptor, VmRange, range_of, positive, Reclaimed, release_if, reclaim_from,
}
use kos_hspabla.AddressSpace.Ranges.{Apart, Fits, IsClear, PutBack, put_vm_range-PutBack}

abbrev pub frame_if : Bool → Descriptor → List (ℕ × ℕ) → List (ℕ × ℕ)
frame_if false md frames = frames
frame_if true md frames = (md.pma, md.size) ∷ frames

-- The frames of the pages that were allocated with them.
abbrev pub frames_of : List Descriptor → List (ℕ × ℕ)
frames_of [] = []
frames_of (md ∷ list) = frame_if md.alloc md (frames_of list)

abbrev pub ApartFrom : Descriptor → List Descriptor → Type 0
ApartFrom md list = All (λ d. Apart (range_of d) (range_of md)) list

-- Pages that wait: apart from each other, from the set, and above the break.
abbrev pub Pending : VmRange → List Descriptor → Type 0
Pending vm [] = Unit
Pending vm (md ∷ list) =
    Fits vm.map_start vm.unmap_set (range_of md) × ApartFrom md list × Pending vm list

Pending-PutBack :
    (vm vm' : VmRange) (md : Descriptor) (list : List Descriptor)
    → PutBack vm (range_of md) vm'
    → ApartFrom md list
    → Pending vm list
    → Pending vm' list
Pending-PutBack vm vm' md [] b a p = record {}
Pending-PutBack vm vm' md (d ∷ list) b (first, rest) (f, apart, p) =
    (b.others (range_of d) f first, apart, Pending-PutBack vm vm' md list b rest p)

-- What the loop leaves.
pub record Reclaims (frames : List (ℕ × ℕ)) (rest : List Descriptor) (r : Reclaimed) : Type 0 where
  pub remaining : r.memory_list ≡ rest
  pub given_back : r.released ≡ frames
  pub clear : IsClear r.vm.map_start r.vm.unmap_set
  pub pending : Pending r.vm rest

one_more_page :
    (b : Bool) (md : Descriptor) (frames : List (ℕ × ℕ)) (rest : List Descriptor) (r : Reclaimed)
    → Reclaims frames rest r
    → Reclaims (frame_if b md frames) rest (release_if b md r)
one_more_page false md frames rest r c = c
one_more_page true md frames rest r c = record {
  remaining = c.remaining;
  given_back = ap (λ l. (md.pma, md.size) ∷ l) c.given_back;
  clear = c.clear;
  pending = c.pending;
}

pub reclaim_from-Reclaims :
    (e end : ℕ) (vm : VmRange) (gone rest : List Descriptor)
    → e < mword_mod
    → end < mword_mod
    → sub_mword end e ≡ length gone
    → length gone < 2 ^ 63
    → IsClear vm.map_start vm.unmap_set
    → Pending vm (gone ++ rest)
    → (r : Reclaimed) × (reclaim_from e end vm (gone ++ rest) ≡ some r)
      × Reclaims (frames_of gone) rest r
unfolding reclaim_from
reclaim_from-Reclaims e end vm [] [] le le' d small c p =
    let over : positive (sub_mword end e) ≡ false = ap positive d in
    (
      record { vm = vm; memory_list = []; released = [] },
      rw over refl,
      record { remaining = refl; given_back = refl; clear = c; pending = p },
    )
reclaim_from-Reclaims e end vm [] (md ∷ rest) le le' d small c p =
    let over : positive (sub_mword end e) ≡ false = ap positive d in
    (
      record { vm = vm; memory_list = md ∷ rest; released = [] },
      rw over refl,
      record { remaining = refl; given_back = refl; clear = c; pending = p },
    )
reclaim_from-Reclaims e end vm (md ∷ gone) rest le le' d small c (f, apart, p) =
    let more : positive (sub_mword end e) ≡ true = ground (arith, d, small) in
    let (vm', put, b) = put_vm_range-PutBack vm md c f in
    let (r, run, reclaims) =
      reclaim_from-Reclaims (add_mword e 1) end vm' gone rest (omega arith) le'
        (omega (arith, le, le', d, small)) (omega (arith, small)) b.clear
        (Pending-PutBack vm vm' md (gone ++ rest) b apart p) in
    (
      release_if md.alloc md r,
      rw (more, put, run) refl,
      one_more_page md.alloc md (frames_of gone) rest r reclaims,
    )
