-- ===== src/AddressSpace/Leaving.antt =====
-- `leave` of src/kernel/AddressSpace.h in every state that an address space can be in.
use mathlib.Core.Path.{subst}
use mathlib.Core.List.{reverse, append_assoc, append-nil}
use mathlib.Core.Option.{some-injective}
use kos_hspabla.Prelude.{
  ℕ, ◌+◌, ◌^◌, ◌<◌, ◌==◌, Bool, true, false, if◌then◌else◌, ◌≡◌, refl, sym, ◌∙◌, ap, arith, some,
  List, [], ◌∷◌, ◌++◌, map, length, length-append, All, Bool-cases, inl, inr, Option-cases,
}
use kos_hspabla.Basics.{mword_mod, sub_mword}
use kos_hspabla.AddressSpace.{
  Descriptor, Marker, Left, Reclaimed, remove_marker, is_front, oldest_epoch, leave_with, leave,
  reclaim_from, invalidate_from,
}
use kos_hspabla.AddressSpace.Ranges.{IsClear}
use kos_hspabla.AddressSpace.Epochs.{Tracks, IsExact, invalidate_reverse}
use kos_hspabla.AddressSpace.Reclaim.{Pending, frames_of, reclaim_from-Reclaims}
use kos_hspabla.AddressSpace.Shootdown.{own_pages, drop_own, System, IsSound, Leaves}

-- More pages wait in front.
widen :
    (epoch : ℕ) (older gone t : List Descriptor) (markers : List Marker)
    (stale : List (List Descriptor))
    → older ≡ gone ++ t
    → Tracks epoch t markers stale
    → Tracks epoch older markers stale
widen epoch older gone t [] [] e h = record {}
widen epoch older gone t (m ∷ markers) [] e h = absurd h
widen epoch older gone t [] (u ∷ stale) e h = absurd h
widen epoch older gone t (m ∷ markers) (u ∷ stale) e ((g, e'), below, d, rest) =
    ((gone ++ g, e ∙ ap (λ l. gone ++ l) e' ∙ sym (append_assoc gone g u)), below, d, rest)

-- Every processor's pages wait on the list.
suffixes_wait :
    (epoch : ℕ) (older : List Descriptor) (markers : List Marker) (stale : List (List Descriptor))
    → Tracks epoch older markers stale
    → All (λ t. (gone : List Descriptor) × (older ≡ gone ++ t)) stale
suffixes_wait epoch older [] [] h = record {}
suffixes_wait epoch older (m ∷ markers) [] h = absurd h
suffixes_wait epoch older [] (t ∷ stale) h = absurd h
suffixes_wait epoch older (m ∷ markers) (t ∷ stale) (e, below, d, rest) =
    (e, suffixes_wait epoch older markers stale (widen epoch older e.0 t markers stale e.1 rest))

-- The processor's own entry, and the others'.
record Own (epoch : ℕ) (older : List Descriptor) (m : Marker) (t : List Descriptor) : Type 0 where
  waits : (gone : List Descriptor) × (older ≡ gone ++ t)
  entered : m.enter_epoch < mword_mod
  since : sub_mword epoch m.enter_epoch ≡ length t

remove_marker-Own :
    (epoch cpu : ℕ) (older : List Descriptor) (markers : List Marker)
    (stale : List (List Descriptor)) (m : Marker) (others : List Marker)
    → Tracks epoch older markers stale
    → remove_marker cpu markers ≡ some (m, others)
    → Own epoch older m (own_pages cpu markers stale)
      × Tracks epoch older others (drop_own cpu markers stale)
unfolding remove_marker
remove_marker-Own epoch cpu older [] stale m others h e = cc
remove_marker-Own epoch cpu older (x ∷ markers) [] m others h e = absurd h
remove_marker-Own epoch cpu older (x ∷ markers) (t ∷ stale) m others (w, below, d, rest) e =
    elim (Bool-cases (x.cpu == cpu)) [
      | inl same ↦
          let here : some (x, markers) ≡ some (m, others) = rw same at e in
          let found = some-injective _ _ here in
          rw same (
            subst
              (λ (p : Marker × List Marker). Own epoch older p.0 t × Tracks epoch older p.1 stale)
              found
              (
                record { waits = w; entered = below; since = d },
                widen epoch older w.0 t markers stale w.1 rest,
              ))
      | inr other ↦ elim (Option-cases (remove_marker cpu markers)) [
        | inl nowhere ↦ absurd (ground (arith, other, nowhere, e))
        | inr (found, run) ↦
            let first : Marker × List Marker = (found.0, x ∷ found.1) in
            let there : some first ≡ some (m, others) = rw (other, run) at e in
            let same = some-injective first (m, others) there in
            let (o, more) = remove_marker-Own epoch cpu t markers stale found.0 found.1 rest run in
            rw other (
              subst
                (λ (p : Marker × List Marker).
                  Own epoch older p.0 (own_pages cpu markers stale)
                  × Tracks epoch older p.1 (t ∷ drop_own cpu markers stale))
                same
                (
                  record {
                    waits = (
                      w.0 ++ o.waits.0,
                      w.1
                          ∙ ap (λ l. w.0 ++ l) o.waits.1
                          ∙ sym (append_assoc w.0 o.waits.0 (own_pages cpu markers stale)),
                    );
                    entered = o.entered;
                    since = o.since;
                  },
                  (w, below, d, more),
                ))
      ]
    ]

-- The pages that the first processor alone may have.
record Oldest (epoch : ℕ) (pages : List Descriptor) (m : Marker) (others : List Marker)
    (stale : List (List Descriptor)) : Type 0 where
  gone : List Descriptor
  rest : List Descriptor
  split : pages ≡ gone ++ rest
  count : sub_mword (oldest_epoch epoch others) m.enter_epoch ≡ length gone
  in_range : oldest_epoch epoch others < mword_mod
  tracks : Tracks epoch rest others stale
  exact : IsExact rest stale

front-Oldest :
    (epoch : ℕ) (pages t : List Descriptor) (m : Marker) (others : List Marker)
    (stale : List (List Descriptor))
    → epoch < mword_mod
    → length pages < 2 ^ 63
    → t ≡ pages
    → Tracks epoch pages (m ∷ others) (t ∷ stale)
    → Oldest epoch pages m others stale
front-Oldest epoch pages t m [] [] lt small exact (w, below, d, rest) = record {
  gone = t;
  rest = [];
  split = sym exact ∙ sym (append-nil t);
  count = d;
  in_range = lt;
  tracks = record {};
  exact = refl;
}
front-Oldest epoch pages t m (n ∷ others) [] lt small exact (w, below, d, rest) = absurd rest
front-Oldest epoch pages t m [] (u ∷ stale) lt small exact (w, below, d, rest) = absurd rest
front-Oldest epoch pages t m (n ∷ others) (u ∷ stale) lt small exact
      (w, below, d, ((gone, e), below', d', rest)) =
    let size : length t ≡ length gone + length u = ap length e ∙ length-append gone u in
    record {
      gone = gone;
      rest = u;
      split = sym exact ∙ e;
      count = omega (arith, lt, below, below', d, d', size, small, ap length exact);
      in_range = below';
      tracks = (([], refl), below', d', rest);
      exact = refl;
    }

-- Only the first processor's leaving reclaims pages.
record Frees (s : System) (m : Marker) (others : List Marker) (stale : List (List Descriptor))
    (front : Bool) : Type 0 where
  gone : List Descriptor
  result : Reclaimed
  run :
      (if front
        then reclaim_from m.enter_epoch
            (oldest_epoch s.space.unmap_epoch others)
            s.space.vm
            s.space.memory_list
        else some (record { vm = s.space.vm; memory_list = s.space.memory_list; released = [] }))
      ≡ some result
  takes : s.space.memory_list ≡ gone ++ result.memory_list
  releases : result.released ≡ frames_of gone
  tracks : Tracks s.space.unmap_epoch result.memory_list others stale
  exact : IsExact result.memory_list stale
  clear : IsClear result.vm.map_start result.vm.unmap_set
  pending : Pending result.vm result.memory_list

front-Frees :
    (s : System) (m : Marker) (others : List Marker) (stale : List (List Descriptor))
    → IsSound s
    → m.enter_epoch < mword_mod
    → Oldest s.space.unmap_epoch s.space.memory_list m others stale
    → Frees s m others stale true
front-Frees s m others stale v below o =
    let (r, run, c) =
      reclaim_from-Reclaims m.enter_epoch (oldest_epoch s.space.unmap_epoch others) s.space.vm
        o.gone o.rest below o.in_range o.count
        (omega (arith, v.small, ap length o.split, length-append o.gone o.rest)) v.clear
        (subst (Pending s.space.vm) o.split v.pending) in
    record {
      gone = o.gone;
      result = r;
      run =
          ap (reclaim_from m.enter_epoch (oldest_epoch s.space.unmap_epoch others) s.space.vm)
            o.split
          ∙ run;
      takes = o.split ∙ ap (λ l. o.gone ++ l) (sym c.remaining);
      releases = c.given_back;
      tracks = subst (λ l. Tracks s.space.unmap_epoch l others stale) (sym c.remaining) o.tracks;
      exact = subst (λ l. IsExact l stale) (sym c.remaining) o.exact;
      clear = c.clear;
      pending = subst (Pending r.vm) (sym c.remaining) c.pending;
    }

other-Frees :
    (s : System) (m : Marker) (others : List Marker) (stale : List (List Descriptor))
    → IsSound s
    → Tracks s.space.unmap_epoch s.space.memory_list others stale
    → IsExact s.space.memory_list stale
    → Frees s m others stale false
other-Frees s m others stale v tracks exact = record {
  gone = [];
  result = record { vm = s.space.vm; memory_list = s.space.memory_list; released = [] };
  run = refl;
  takes = refl;
  releases = refl;
  tracks = tracks;
  exact = exact;
  clear = v.clear;
  pending = v.pending;
}

front-drop :
    (epoch cpu : ℕ) (pages : List Descriptor) (markers : List Marker)
    (stale : List (List Descriptor)) (m : Marker) (others : List Marker)
    → epoch < mword_mod
    → length pages < 2 ^ 63
    → IsExact pages stale
    → Tracks epoch pages markers stale
    → remove_marker cpu markers ≡ some (m, others)
    → is_front cpu markers ≡ true
    → Oldest epoch pages m others (drop_own cpu markers stale)
unfolding remove_marker
front-drop epoch cpu pages [] stale m others lt small exact h e front = cc
front-drop epoch cpu pages (x ∷ markers) [] m others lt small exact h e front = absurd h
front-drop epoch cpu pages (x ∷ markers) (t ∷ stale) m others lt small exact h e front =
    let here : some (x, markers) ≡ some (m, others) = rw front at e in
    rw front (
      subst (λ (p : Marker × List Marker). Oldest epoch pages p.0 p.1 stale)
        (some-injective _ _ here) (front-Oldest epoch pages t x markers stale lt small exact h))

other-drop :
    (cpu : ℕ) (pages : List Descriptor) (markers : List Marker) (stale : List (List Descriptor))
    → IsExact pages stale
    → is_front cpu markers ≡ false
    → IsExact pages (drop_own cpu markers stale)
other-drop cpu pages [] stale exact front = exact
other-drop cpu pages (x ∷ markers) [] exact front = exact
other-drop cpu pages (x ∷ markers) (t ∷ stale) exact front = rw front exact

flush_pages :
    (invalidate : Bool) (epoch : ℕ) (pages : List Descriptor) (m : Marker) (own : List Descriptor)
    → epoch < mword_mod
    → length pages < 2 ^ 63
    → Own epoch pages m own
    → (if invalidate then invalidate_from epoch m.enter_epoch (reverse pages) else some [])
      ≡ some (if invalidate then map (λ md. md.vma) (reverse own) else [])
flush_pages false epoch pages m own lt small o = refl
flush_pages true epoch pages m own lt small o =
    ap (λ l. invalidate_from epoch m.enter_epoch (reverse l)) o.waits.1
    ∙ invalidate_reverse epoch m.enter_epoch o.waits.0 own lt o.entered o.since
        (omega (arith, small, ap length o.waits.1, length-append o.waits.0 own))

leave-Frees :
    (s : System) (invalidate : Bool) (cpu : ℕ) (m : Marker) (others : List Marker)
    → IsSound s
    → remove_marker cpu s.space.marker_list ≡ some (m, others)
    → Own s.space.unmap_epoch s.space.memory_list m (own_pages cpu s.space.marker_list s.stale)
    → Frees s m others (drop_own cpu s.space.marker_list s.stale) (is_front cpu s.space.marker_list)
    → (l : Left) × (leave invalidate s.space cpu ≡ some l) × Leaves s invalidate cpu l
unfolding leave leave_with
leave-Frees s invalidate cpu m others v found o f =
    let flushed : List ℕ =
      if invalidate
      then map (λ md. md.vma) (reverse (own_pages cpu s.space.marker_list s.stale))
      else [] in
    let flush =
      flush_pages invalidate s.space.unmap_epoch s.space.memory_list m
        (own_pages cpu s.space.marker_list s.stale) v.below v.small o in
    let l : Left = record {
      space = record s.space {
        memory_list = f.result.memory_list;
        marker_list = others;
        vm = f.result.vm;
      };
      flushed = flushed;
      released = f.result.released;
    } in
    (
      l,
      rw (found, flush, f.run) refl,
      record {
        gone = f.gone;
        flushes = refl;
        takes = f.takes;
        releases = f.releases;
        keeps =
            suffixes_wait s.space.unmap_epoch f.result.memory_list others
              (drop_own cpu s.space.marker_list s.stale) f.tracks;
        sound = record {
          below = v.below;
          small =
              omega (arith, v.small, ap length f.takes, length-append f.gone f.result.memory_list);
          tracks = f.tracks;
          exact = f.exact;
          clear = f.clear;
          pending = f.pending;
        };
      },
    )

pub leave-IsSound :
    (s : System) (invalidate : Bool) (cpu : ℕ) (m : Marker) (others : List Marker)
    → IsSound s
    → remove_marker cpu s.space.marker_list ≡ some (m, others)
    → (l : Left) × (leave invalidate s.space cpu ≡ some l) × Leaves s invalidate cpu l
leave-IsSound s invalidate cpu m others v found =
    let (o, tracks) =
      remove_marker-Own s.space.unmap_epoch cpu s.space.memory_list s.space.marker_list s.stale m
        others v.tracks found in
    leave-Frees s invalidate cpu m others v found o
      (elim (Bool-cases (is_front cpu s.space.marker_list)) [
        | inl front ↦
            subst (Frees s m others (drop_own cpu s.space.marker_list s.stale)) (sym front) (
              front-Frees s m others (drop_own cpu s.space.marker_list s.stale) v o.entered (
                front-drop s.space.unmap_epoch cpu s.space.memory_list s.space.marker_list s.stale m
                  others v.below v.small v.exact v.tracks found front))
        | inr behind ↦
            subst (Frees s m others (drop_own cpu s.space.marker_list s.stale)) (sym behind) (
              other-Frees s m others (drop_own cpu s.space.marker_list s.stale) v tracks
                (other-drop cpu s.space.memory_list s.space.marker_list s.stale v.exact behind))
      ])
