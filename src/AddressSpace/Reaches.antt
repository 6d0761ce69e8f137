-- ===== src/AddressSpace/Reaches.antt =====
-- The address space of src/kernel/AddressSpace.h after any sequence of steps.
use mathlib.Core.Path.{subst}
use mathlib.Core.Option.{some-injective}
use kos_hspabla.Prelude.{
  ℕ, ◌≤◌, Bool, ◌≡◌, refl, sym, ◌∙◌, ap, arith, some, List, [], ◌∷◌, ◌++◌, length-append, inl, inr,
  Option-cases,
}
use kos_hspabla.AddressSpace.{
  Descriptor, Marker, VmRange, Left, Range, get_vm_range, range_of, remove_marker, leave, enter,
  post_unmap,
}
use kos_hspabla.AddressSpace.Ranges.{Fits, IsClear, swap_sides}
use kos_hspabla.AddressSpace.Epochs.{Tracks, IsExact, one_more, Tracks-one_more, Tracks-enter}
use kos_hspabla.AddressSpace.Reclaim.{ApartFrom, Pending}
use kos_hspabla.AddressSpace.Shootdown.{
  System, left, SpaceStep, enters, reserves, unmaps, leaves, SpaceReachable, fresh, later, IsSound,
  Leaves,
}
use kos_hspabla.AddressSpace.Leaving.{leave-IsSound}

-- The break only goes down when a range is reserved.
record Lowers (vm vm' : VmRange) : Type 0 where
  down : vm'.map_start ≤ vm.map_start
  same_set : vm'.unmap_set ≡ vm.unmap_set

get_vm_range-Lowers :
    (page addr size start n : ℕ) (vm vm' : VmRange)
    → get_vm_range vm page addr size ≡ some (start, n, vm')
    → Lowers vm vm'
unfolding get_vm_range
get_vm_range-Lowers page addr size start n vm vm' e = ground arith

lower-Fits : (b b' : ℕ) (set : List Range) (r : Range) → b' ≤ b → Fits b set r → Fits b' set r
lower-Fits b b' set r le f = record {
  above = omega (arith, f.above, le);
  some_room = f.some_room;
  apart = f.apart;
}

lower-IsClear : (b b' : ℕ) (set : List Range) → b' ≤ b → IsClear b set → IsClear b' set
lower-IsClear b b' [] le c = record {}
lower-IsClear b b' (r ∷ set) le (f, c) = (lower-Fits b b' set r le f, lower-IsClear b b' set le c)

lower-Pending :
    (vm vm' : VmRange) (list : List Descriptor) → Lowers vm vm' → Pending vm list → Pending vm' list
lower-Pending vm vm' [] h p = record {}
lower-Pending vm vm' (d ∷ list) h (f, apart, p) = (
  subst (λ set. Fits vm'.map_start set (range_of d)) (sym h.same_set)
      (lower-Fits vm.map_start vm'.map_start vm.unmap_set (range_of d) h.down f),
  apart,
  lower-Pending vm vm' list h p,
)

-- One more page waits.
apart_last :
    (d md : Descriptor) (list : List Descriptor)
    → ApartFrom d list
    → ApartFrom md (d ∷ list)
    → ApartFrom d (list ++ (md ∷ []))
apart_last d md [] a (b, bs) = (swap_sides (range_of d) (range_of md) b, record {})
apart_last d md (x ∷ list) (a, more) (b, (b', bs)) = (a, apart_last d md list more (b, bs))

waits_last :
    (vm : VmRange) (md : Descriptor) (list : List Descriptor)
    → Fits vm.map_start vm.unmap_set (range_of md)
    → ApartFrom md list
    → Pending vm list
    → Pending vm (list ++ (md ∷ []))
waits_last vm md [] f a p = (f, record {}, record {})
waits_last vm md (d ∷ list) f (a, more) (g, apart, p) =
    (g, apart_last d md list apart (a, more), waits_last vm md list f more p)

IsExact-enter :
    (epoch : ℕ) (pages : List Descriptor) (markers : List Marker) (stale : List (List Descriptor))
    → IsExact pages stale
    → IsExact pages (stale ++ ([] ∷ []))
IsExact-enter epoch pages markers [] h = sym h
IsExact-enter epoch pages markers (t ∷ stale) h = h

IsExact-one_more :
    (epoch cpu : ℕ) (pages : List Descriptor) (markers : List Marker)
    (stale : List (List Descriptor)) (md : Descriptor) (m : Marker) (others : List Marker)
    → remove_marker cpu markers ≡ some (m, others)
    → Tracks epoch pages markers stale
    → IsExact pages stale
    → IsExact (pages ++ (md ∷ [])) (one_more md stale)
unfolding remove_marker
IsExact-one_more epoch cpu pages [] stale md m others e h x = cc
IsExact-one_more epoch cpu pages (n ∷ markers) [] md m others e h x = absurd h
IsExact-one_more epoch cpu pages (n ∷ markers) (t ∷ stale) md m others e h x =
    ap (λ l. l ++ (md ∷ [])) x

SpaceStep-IsSound : (s s' : System) → SpaceStep s s' → IsSound s → IsSound s'
unfolding enter post_unmap leave
SpaceStep-IsSound s _ (enters cpu) v = record {
  below = v.below;
  small = v.small;
  tracks =
      Tracks-enter s.space.unmap_epoch cpu s.space.memory_list s.space.marker_list s.stale v.below
        v.tracks;
  exact = IsExact-enter s.space.unmap_epoch s.space.memory_list s.space.marker_list s.stale v.exact;
  clear = v.clear;
  pending = v.pending;
}
SpaceStep-IsSound s _ (reserves page addr size start n vm e) v =
    let h = get_vm_range-Lowers page addr size start n s.space.vm vm e in
    record {
      below = v.below;
      small = v.small;
      tracks = v.tracks;
      exact = v.exact;
      clear =
          subst (IsClear vm.map_start) (sym h.same_set)
            (lower-IsClear s.space.vm.map_start vm.map_start s.space.vm.unmap_set h.down v.clear);
      pending = lower-Pending s.space.vm vm s.space.memory_list h v.pending;
    }
SpaceStep-IsSound s _ (unmaps cpu m others md active fits apart room) v = record {
  below = omega arith;
  small = omega (arith, room, length-append s.space.memory_list (md ∷ []));
  tracks =
      Tracks-one_more s.space.unmap_epoch s.space.memory_list s.space.marker_list s.stale md v.below
        room v.tracks;
  exact =
      IsExact-one_more s.space.unmap_epoch cpu s.space.memory_list s.space.marker_list s.stale md m
        others active v.tracks v.exact;
  clear = v.clear;
  pending = waits_last s.space.vm md s.space.memory_list fits apart v.pending;
}
SpaceStep-IsSound s _ (leaves cpu invalidate l e) v =
    elim (Option-cases (remove_marker cpu s.space.marker_list)) [
      | inl nowhere ↦ absurd (ground (arith, nowhere, e))
      | inr (found, run) ↦
          let (l', e', h) = leave-IsSound s invalidate cpu found.0 found.1 v run in
          subst (λ x. IsSound (left s cpu x)) (some-injective l' l (sym e' ∙ e)) h.sound
    ]

reachable-IsSound : (s : System) → SpaceReachable s → IsSound s
reachable-IsSound _ (fresh epoch vm lt e) = record {
  below = lt;
  small = omega arith;
  tracks = record {};
  exact = refl;
  clear = subst (IsClear vm.map_start) (sym e) (record {});
  pending = record {};
}
reachable-IsSound _ (later s s' r step) = SpaceStep-IsSound s s' step (reachable-IsSound s r)

-- In every address space that is reachable, from one without pages and processors, by processors
-- entering and leaving, ranges being reserved, and pages being unmapped by a processor in it,
-- each page once and above the break with fewer than 2 ^ 63 waiting, a processor that is in it
-- leaves without a failed assertion: if it invalidates, it flushes exactly the pages unmapped
-- since it entered, the last first; the pages that leave the list are a front part of it, the
-- frames given back are those of these pages that were allocated, and the pages unmapped since
-- any other processor entered are all still on the list.
pub shootdown :
    (s : System)
    → SpaceReachable s
    → (invalidate : Bool) (cpu : ℕ) (m : Marker) (others : List Marker)
    → remove_marker cpu s.space.marker_list ≡ some (m, others)
    → (l : Left) × (leave invalidate s.space cpu ≡ some l) × Leaves s invalidate cpu l
shootdown s r invalidate cpu m others active =
    leave-IsSound s invalidate cpu m others (reachable-IsSound s r) active
