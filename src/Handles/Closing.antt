-- ===== src/Handles/Closing.antt =====
-- What holds between the handles of src/runtime/SynchronizedArray.h and their users, and what keeps it.
use mathlib.Core.Path.{subst}
use kos_hspabla.Prelude.{
  ℕ, ◌-◌, ◌<◌, true, ◌≡◌, ◌≢◌, sym, ◌∙◌, ap, arith, update, Option, none, some, inl, inr,
  ℕ_discrete, Option-cases,
}
use kos_hspabla.ManagedArray
use kos_hspabla.ManagedArray.{ManagedArray, elem}
use kos_hspabla.Handles.{Handles}
use kos_hspabla.Handles.Steps.{Opened, marked_by}
use kos_hspabla.Handles.Slots.{InBounds}
use kos_hspabla.Handles.Changes.{Sets, get_slot}
use kos_hspabla.Handles.Endings.{Ended, Vacates}
use kos_hspabla.Handles.Fair.{
  Uses, put_use, put_use_self, IsFair, ended-IsFair, vacated-IsFair, closing-IsFair,
}
use kos_hspabla.Handles.Reading.{IsReading, kept-IsReading, begun-IsReading}

pub record IsOpened (o : Opened) : Type 0 where
  pub bounds : InBounds o.handles.table
  pub fair : IsFair (ManagedArray.get o.handles.table) o.handles.count o.uses o.closing
  pub no_null : (i : ℕ) → ManagedArray.get o.handles.table i ≢ some 0
  pub reading : IsReading o.handles.table o.closing o.returning

pub null_free :
    (idx : ℕ) (r : Option ℕ) (a a' : ManagedArray ℕ)
    → Sets idx r a a'
    → r ≢ some 0
    → ((i : ℕ) → ManagedArray.get a i ≢ some 0)
    → (i : ℕ) → ManagedArray.get a' i ≢ some 0
null_free idx r a a' v ne h i k = elim (ℕ_discrete idx i) [
  | yes one ↦ ne (sym v.here ∙ ap (ManagedArray.get a') one ∙ k)
  | no one ↦ h i (sym (v.same i one) ∙ k)
]

-- Calls that leave the slots as they are.
pub kept_table :
    (o : Opened) (s' : Handles) (count : ℕ → ℕ) (uses : Uses)
    → IsOpened o
    → s'.table ≡ o.handles.table
    → s'.count ≡ count
    → IsFair (ManagedArray.get o.handles.table) count uses o.closing
    → IsOpened (record o { handles = s'; uses = uses })
kept_table o s' count uses v same more f = record {
  bounds = subst InBounds (sym same) v.bounds;
  fair =
      subst (λ c. IsFair (ManagedArray.get s'.table) c uses o.closing) (sym more)
        (subst (λ a. IsFair (ManagedArray.get a) count uses o.closing) (sym same) f);
  no_null = λ i. subst (λ a. ManagedArray.get a i ≢ some 0) (sym same) (v.no_null i);
  reading = subst (λ a. IsReading a o.closing o.returning) (sym same) v.reading;
}

-- A slot that holds an element that nobody uses becomes invalid.
pub vacated-IsOpened :
    (o : Opened) (idx e : ℕ) (s' : Handles) (uses : Uses) (count : ℕ → ℕ)
    → IsOpened o
    → ManagedArray.get o.handles.table idx ≡ some e
    → IsFair (ManagedArray.get o.handles.table) count uses o.closing
    → uses idx e ≡ 0
    → s'.count ≡ count
    → Vacates idx o.handles.table s'.table
    → IsOpened (record o { handles = s'; uses = uses })
vacated-IsOpened o idx e s' uses count v here f unused same m = record {
  bounds = m.sets.bounds;
  fair =
      subst (λ c. IsFair (ManagedArray.get s'.table) c uses o.closing) (sym same)
        (vacated-IsFair f idx e here unused m.sets.here m.sets.same);
  no_null = null_free idx none o.handles.table s'.table m.sets (λ k. cc) v.no_null;
  reading =
      kept-IsReading v.reading
        (λ i x on lt d. (subst (λ n. i < n) (sym m.same_index) lt, ap (λ f. f i) m.same_data ∙ d));
}

-- A thread is then to return with the element.
pub marked-IsOpened :
    (o : Opened) (idx e : ℕ)
    → IsOpened o
    → ((i : ℕ) → ManagedArray.get o.handles.table i ≢ some e)
    → o.closing e ≢ true
    → idx < o.handles.table.index
    → o.handles.table.data_at idx ≡ elem e
    → IsOpened
        (record o { closing = update o.closing e true; returning = update o.returning idx true })
marked-IsOpened o idx e v nowhere first lt d = record {
  bounds = v.bounds;
  fair = closing-IsFair v.fair e nowhere;
  no_null = v.no_null;
  reading = begun-IsReading v.reading idx e lt d first;
}

-- Both at once.
pub removed-IsOpened :
    (o : Opened) (idx e : ℕ) (s' : Handles) (uses : Uses) (count : ℕ → ℕ)
    → IsOpened o
    → ManagedArray.get o.handles.table idx ≡ some e
    → IsFair (ManagedArray.get o.handles.table) count uses o.closing
    → uses idx e ≡ 0
    → s'.count ≡ count
    → Vacates idx o.handles.table s'.table
    → IsOpened (record {
      handles = s';
      uses = uses;
      closing = update o.closing e true;
      returning = update o.returning idx true;
    })
removed-IsOpened o idx e s' uses count v here f unused same m =
    let (lt, d) = get_slot o.handles.table idx e here in
    marked-IsOpened (record o { handles = s'; uses = uses }) idx e
      (vacated-IsOpened o idx e s' uses count v here f unused same m) nowhere
      (λ c. f.closed idx e c here) (subst (λ n. idx < n) (sym m.same_index) lt)
      (ap (λ f. f idx) m.same_data ∙ d)
  where
    nowhere : (i : ℕ) → ManagedArray.get s'.table i ≢ some e
    nowhere i h = elim (ℕ_discrete idx i) [
      | yes one ↦ absurd (none_some (sym m.sets.here ∙ ap (ManagedArray.get s'.table) one ∙ h))
      | no one ↦ one (f.distinct idx i e here (sym (m.sets.same i one) ∙ h))
    ]
      where
        none_some : none ≢ some e
        none_some k = cc

pub Ended-IsOpened :
    (o : Opened) (idx e : ℕ) (woken : Option ℕ) (s' : Handles)
    → IsOpened o
    → 0 < o.uses idx e
    → Ended o.handles idx e woken s'
    → IsOpened (record {
      handles = s';
      uses = put_use o.uses idx e (o.uses idx e - 1);
      closing = marked_by woken e o.closing;
      returning = marked_by woken idx o.returning;
    })
Ended-IsOpened o idx e woken s' v on end =
    let here = v.fair.used idx e on in
    let count = update o.handles.count e (o.handles.count e - 1) in
    let uses = put_use o.uses idx e (o.uses idx e - 1) in
    let f = ended-IsFair v.fair idx e here in
    elim end.slot [
      | inl (asleep, same, rest) ↦
          nobody_woken (sym asleep) (kept_table o s' count uses v same end.less f)
      | inr (queue, last, signalled, m) ↦
          let unused : put_use o.uses idx e (o.uses idx e - 1) idx e ≡ 0 =
            put_use_self o.uses idx e (o.uses idx e - 1)
            ∙ omega (arith, last, v.fair.counted idx e here) in
          elim (Option-cases woken) [
            | inl asleep ↦
                nobody_woken (sym asleep)
                  (vacated-IsOpened o idx e s' uses count v here f unused end.less m)
            | inr (t, awake) ↦
                subst (λ w. IsOpened (after w)) (sym awake)
                  (removed-IsOpened o idx e s' uses count v here f unused end.less m)
          ]
    ]
  where
    after : Option ℕ → Opened
    after w = record {
      handles = s';
      uses = put_use o.uses idx e (o.uses idx e - 1);
      closing = marked_by w e o.closing;
      returning = marked_by w idx o.returning;
    }

    nobody_woken : none ≡ woken → IsOpened (after none) → IsOpened (after woken)
    nobody_woken e h = subst (λ w. IsOpened (after w)) e h
