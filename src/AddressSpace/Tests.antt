-- ===== src/AddressSpace/Tests.antt =====
-- Runs of the address space, and the theorems at concrete inputs.
use kos_hspabla.Prelude.{ℕ, ◌+◌, ◌<◌, true, false, ◌≡◌, refl, arith, none, some, List, [], ◌∷◌, ◌⊎◌}
use mathlib.Core.Option
use kos_hspabla.Basics.{align_down}
use kos_hspabla.AddressSpace.{
  Descriptor, Marker, VmRange, Left, get_vm_range, set_insert, move_break, range_of, put_vm_range,
  enter, post_unmap, remove_marker, leave, leave_with, invalidate_from, reclaim_from,
  init_invalidation,
}
use kos_hspabla.AddressSpace.Ranges.{PutBack, put_vm_range-PutBack}
use kos_hspabla.AddressSpace.Shootdown.{
  System, SpaceReachable, fresh, later, enters, unmaps, Leaves,
}
use kos_hspabla.AddressSpace.Reaches.{shootdown}
use kos_hspabla.AddressSpace.Reserve.{Reserves, get_vm_range-Reserves}

abbrev range : VmRange
range = record { map_bottom = 4096; map_start = 40960; map_top = 65536; unmap_set = [] }

-- Two pages at the break and above it.
abbrev low_page : Descriptor
low_page = record { at = 80; vma = 40960; pma = 8192; size = 4096; alloc = true }

abbrev high_page : Descriptor
high_page = record { at = 160; vma = 45056; pma = 16384; size = 4096; alloc = false }

-- A page above the break waits in the set until the one below is given back.
later_page :
    put_vm_range range high_page ≡ some (record range { unmap_set = range_of high_page ∷ [] })
unfolding put_vm_range set_insert move_break
later_page = refl

both_pages :
    put_vm_range (record range { unmap_set = range_of high_page ∷ [] }) low_page
    ≡ some (record range { map_start = 49152 })
unfolding put_vm_range set_insert move_break
both_pages = refl

-- The set is in the order of the descriptors in memory: the page at the break is not found when its
-- descriptor stands above the other's.
stuck_break :
    put_vm_range
      (record range { unmap_set = range_of (record high_page { at = 40 }) ∷ [] })
      low_page
    ≡ some (record range {
      unmap_set = range_of (record high_page { at = 40 }) ∷ range_of low_page ∷ [];
    })
unfolding put_vm_range set_insert move_break
stuck_break = refl

-- A range below the break cannot be given back.
below_break : put_vm_range range (record low_page { vma = 8192 }) ≡ none
unfolding put_vm_range set_insert move_break
below_break = refl

-- A size above the break wraps, and the result passes the test of the bottom.
wrapped_range : Option.map (λ r. r.0) (get_vm_range range 4096 0 65536) ≡ some 18446744073709527040
unfolding get_vm_range align_down
wrapped_range = refl

put_vm_range-PutBack_example :
    (vm' : VmRange) × (put_vm_range range low_page ≡ some vm')
    × PutBack range (range_of low_page) vm'
put_vm_range-PutBack_example =
    put_vm_range-PutBack range low_page (record {})
      (record { above = omega arith; some_room = omega arith; apart = record {} })

get_vm_range-Reserves_example :
    ((start : ℕ) × (n : ℕ) × (vm' : VmRange) × (get_vm_range range 4096 0 5000
        ≡ some (start, n, vm'))
      × Reserves range 4096 5000 start n vm')
    ⊎ ((get_vm_range range 4096 0 5000 ≡ none) × (40960 < 4096 + 5000 + 4096 + 4096))
get_vm_range-Reserves_example =
    get_vm_range-Reserves 12 range 0 5000 (omega arith) (omega arith) (omega arith) (omega arith)
      (omega arith)

-- Processor 0 enters, a page is unmapped, processor 1 enters.
abbrev start_system : System
start_system = record {
  space = record { unmap_epoch = 0; memory_list = []; marker_list = []; vm = range };
  stale = [];
}

abbrev marker_0 : Marker
marker_0 = record { cpu = 0; enter_epoch = 0 }

abbrev entered : System
entered = record {
  space = record { unmap_epoch = 0; memory_list = []; marker_list = marker_0 ∷ []; vm = range };
  stale = [] ∷ [];
}

abbrev one_unmapped : System
one_unmapped = record {
  space = record {
    unmap_epoch = 1;
    memory_list = low_page ∷ [];
    marker_list = marker_0 ∷ [];
    vm = range;
  };
  stale = (low_page ∷ []) ∷ [];
}

abbrev two_processors : System
two_processors = record {
  space = record {
    unmap_epoch = 1;
    memory_list = low_page ∷ [];
    marker_list = marker_0 ∷ record { cpu = 1; enter_epoch = 1 } ∷ [];
    vm = range;
  };
  stale = (low_page ∷ []) ∷ [] ∷ [];
}

reached : SpaceReachable two_processors
unfolding enter post_unmap remove_marker
reached =
    later one_unmapped two_processors
      (later entered one_unmapped
        (later start_system entered (fresh 0 range (omega arith) refl) (enters 0))
        (unmaps 0 marker_0 [] low_page refl
          (record { above = omega arith; some_room = omega arith; apart = record {} }) (record {})
          (omega arith)))
      (enters 1)

shootdown_example :
    (l : Left) × (leave true two_processors.space 0 ≡ some l) × Leaves two_processors true 0 l
unfolding remove_marker
shootdown_example =
    shootdown two_processors reached true 0 marker_0 (record { cpu = 1; enter_epoch = 1 } ∷ []) refl

-- What processor 0 flushes and gives back, and what processor 1 does.
leaves_first :
    Option.map {B = List ℕ × List (ℕ × ℕ) × ℕ}
      (λ l. (l.flushed, l.released, l.space.vm.map_start))
      (leave true two_processors.space 0)
    ≡ some (40960 ∷ [], (8192, 4096) ∷ [], 45056)
unfolding leave leave_with remove_marker invalidate_from reclaim_from put_vm_range set_insert
    move_break
leaves_first = refl

leaves_second :
    Option.map {B = List ℕ × List (ℕ × ℕ) × ℕ}
      (λ l. (l.flushed, l.released, l.space.vm.map_start))
      (leave true two_processors.space 1)
    ≡ some ([], [], 40960)
unfolding leave leave_with remove_marker invalidate_from reclaim_from put_vm_range set_insert
    move_break
leaves_second = refl

-- The first processor's entering and leaving changes nothing: pages unmapped before stay on the list.
first_processor :
    init_invalidation (post_unmap start_system.space low_page) 0
    ≡ some (enter (post_unmap start_system.space low_page) 0)
unfolding init_invalidation enter post_unmap leave leave_with remove_marker invalidate_from
    reclaim_from
first_processor = refl
