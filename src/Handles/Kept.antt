-- ===== src/Handles/Kept.antt =====
-- Every step of the users of src/runtime/SynchronizedArray.h keeps what `IsOpened` says.
use mathlib.Core.Path.{subst}
use mathlib.Core.Option.{some-injective}
use kos_hspabla.Prelude.{
  ℕ, ◌+◌, true, false, ◌≡◌, ◌≢◌, refl, sym, ◌∙◌, ap, arith, update, none, some, ℕ_discrete,
}
use kos_hspabla.Sync.{disarm, cancel_event}
use kos_hspabla.ManagedArray
use kos_hspabla.ManagedArray.{ManagedArray}
use kos_hspabla.Handles.{Handles, Removal, absent, waits, refused, removed, returned, release}
use kos_hspabla.Handles.Changes.{release-Sets, element_slot}
use kos_hspabla.Handles.Calls.{Stored, store-Stored, access-Accessed, bind_some}
use kos_hspabla.Handles.Endings.{done-Ended, Removes, remove-Removes}
use kos_hspabla.Handles.Fair.{
  put_use, IsFair, same-IsFair, deleted-IsFair, opened-IsFair, begun-IsFair,
}
use kos_hspabla.Handles.Reading.{kept-IsReading, read-IsReading}
use kos_hspabla.Handles.Steps.{
  Opened, constructed, with_waiting, HandleStep, opens, begins, ends, asks, removes, disarms,
  unqueues, deletes, releases, HandleReachable, no_handles, handles_later,
}
use kos_hspabla.Handles.Closing.{IsOpened, null_free, kept_table, removed-IsOpened, Ended-IsOpened}

opened-IsOpened :
    (o : Opened) (idx e : ℕ) (s' : Handles)
    → IsOpened o
    → e ≢ 0
    → o.closing e ≡ false
    → ((j : ℕ) → ManagedArray.get o.handles.table j ≢ some e)
    → Stored (constructed o.handles e) e idx s'
    → IsOpened (record o { handles = s' })
opened-IsOpened o idx e s' v present closing fresh r = record {
  bounds = r.sets.bounds;
  fair =
      subst (λ c. IsFair (ManagedArray.get s'.table) c o.uses o.closing) (sym r.same_count)
        (opened-IsFair v.fair idx e r.vacant fresh closing r.sets.here r.sets.same);
  no_null =
      null_free idx (some e) o.handles.table s'.table r.sets (λ k. present (some-injective e 0 k))
        v.no_null;
  reading = kept-IsReading v.reading (λ i x on lt d. r.sets.kept i x lt d (r.unread i x lt d));
}

-- A `remove` that does not remove.
asked-IsOpened :
    (o : Opened) (idx : ℕ) (r : Removal) (s' : Handles)
    → IsOpened o
    → r ≢ removed
    → Removes o.handles idx r s'
    → IsOpened (record o { handles = s' })
asked-IsOpened o idx absent s' v ne (same, count) =
    kept_table o s' o.handles.count o.uses v same count v.fair
asked-IsOpened o idx waits s' v ne (same, count) =
    kept_table o s' o.handles.count o.uses v same count v.fair
asked-IsOpened o idx refused s' v ne (same, count) =
    kept_table o s' o.handles.count o.uses v same count v.fair
asked-IsOpened o idx removed s' v ne h = absurd (ne refl)

-- A `remove` that does.
done_at_once-IsOpened :
    (o : Opened) (idx e : ℕ) (s' : Handles)
    → IsOpened o
    → ManagedArray.get o.handles.table idx ≡ some e
    → Removes o.handles idx removed s'
    → IsOpened (record o {
      handles = s';
      closing = update o.closing e true;
      returning = update o.returning idx true;
    })
done_at_once-IsOpened o idx e s' v here (x, found, unused, count, m) =
    let same : x ≡ e = some-injective x e (sym found ∙ here) in
    removed-IsOpened o idx e s' o.uses o.handles.count v here v.fair
      (sym (v.fair.counted idx e here) ∙ ap o.handles.count (sym same) ∙ unused) count m

read-IsOpened :
    (o : Opened) (idx e : ℕ)
    → IsOpened o
    → o.returning idx ≡ true
    → returned o.handles idx ≡ some e
    → IsOpened
        (record o { closing = update o.closing e false; returning = update o.returning idx false })
unfolding returned
read-IsOpened o idx e v on found = record {
  bounds = v.bounds;
  fair = deleted-IsFair v.fair e;
  no_null = v.no_null;
  reading = read-IsReading v.reading idx e on (element_slot (o.handles.table.data_at idx) e found);
}

released-IsOpened :
    (o : Opened) (idx : ℕ) (table : ManagedArray ℕ)
    → IsOpened o
    → o.returning idx ≡ false
    → ManagedArray.release o.handles.table idx ≡ some table
    → IsOpened (record o { handles = record o.handles { table = table } })
released-IsOpened o idx table v free run =
    let (vacant, sets) = release-Sets o.handles.table idx table v.bounds run in
    let same : (j : ℕ) → ManagedArray.get table j ≡ ManagedArray.get o.handles.table j = λ j.
      elim (ℕ_discrete idx j) [
        | yes one ↦
            ap (ManagedArray.get table) (sym one)
            ∙ sets.here
            ∙ sym vacant
            ∙ ap (ManagedArray.get o.handles.table) one
        | no one ↦ sets.same j one
      ] in
    record {
      bounds = sets.bounds;
      fair = same-IsFair v.fair same;
      no_null = λ i k. v.no_null i (sym (same i) ∙ k);
      reading = kept-IsReading v.reading (λ i x on lt d.
          sets.kept i x lt d (λ one. true_false (sym on ∙ ap o.returning (sym one) ∙ free)));
    }
  where
    true_false : true ≢ false
    true_false k = cc

HandleStep-IsOpened : (o o' : Opened) → HandleStep o o' → IsOpened o → IsOpened o'
unfolding release
HandleStep-IsOpened o _ (opens allocate idx e s' present closing fresh room run) v =
    opened-IsOpened o idx e s' v present closing fresh (
      store-Stored allocate (constructed o.handles e) e idx s' v.bounds (ground (arith, present))
        run)
HandleStep-IsOpened o _ (begins idx e s' run) v =
    let a = access-Accessed o.handles idx e s' run in
    kept_table o s' (update o.handles.count e (o.handles.count e + 1))
      (put_use o.uses idx e (o.uses idx e + 1)) v a.same_table a.more
      (begun-IsFair v.fair idx e a.found)
HandleStep-IsOpened o _ (ends idx e woken s' on run) v =
    Ended-IsOpened o idx e woken s' v on
      (done-Ended o.handles idx e woken s' v.bounds (v.fair.used idx e on) run)
HandleStep-IsOpened o _ (asks idx t r s' ne run) v =
    asked-IsOpened o idx r s' v ne (remove-Removes o.handles idx t false r s' v.bounds run)
HandleStep-IsOpened o _ (removes idx t e s' here run) v =
    done_at_once-IsOpened o idx e s' v here
      (remove-Removes o.handles idx t false removed s' v.bounds run)
HandleStep-IsOpened o _ (disarms t e) v =
    kept_table o (with_waiting o.handles e (disarm t (o.handles.waiting e))) o.handles.count o.uses
      v refl refl v.fair
HandleStep-IsOpened o _ (unqueues t e) v =
    kept_table o (with_waiting o.handles e (cancel_event t (o.handles.waiting e))) o.handles.count
      o.uses v refl refl v.fair
HandleStep-IsOpened o _ (deletes idx e on found) v = read-IsOpened o idx e v on found
HandleStep-IsOpened o _ (releases idx s' free run) v =
    let (table, freed, end) =
      bind_some (ManagedArray.release o.handles.table idx)
        (λ tb. some (record o.handles { table = tb })) s' run in
    subst (λ h. IsOpened (record o { handles = h }))
      (some-injective (record o.handles { table = table }) s' end)
      (released-IsOpened o idx table v free freed)

pub reachable-IsOpened : (o : Opened) → HandleReachable o → IsOpened o
reachable-IsOpened _ (no_handles s bounds empty) = record {
  bounds = bounds;
  fair = record {
    used = λ i e h. absurd (omega arith);
    counted = λ i e h. absurd (some_none (sym (empty i) ∙ h));
    distinct = λ i j e h k. absurd (some_none (sym (empty i) ∙ h));
    closed = λ i e c h. some_none (sym (empty i) ∙ h);
  };
  no_null = λ i h. some_none (sym (empty i) ∙ h);
  reading = record {
    read = λ i h. absurd (false_true h);
    apart = λ i j e hi. absurd (false_true hi);
  };
}
  where
    some_none : {x : ℕ} → none ≢ some x
    some_none h = cc

    false_true : false ≢ true
    false_true h = cc
reachable-IsOpened _ (handles_later o o' r step) =
    HandleStep-IsOpened o o' step (reachable-IsOpened o r)
