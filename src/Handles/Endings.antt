-- ===== src/Handles/Endings.antt =====
-- The results of `done` and `remove` of src/runtime/SynchronizedArray.h.
use mathlib.Core.Option.{some-injective}
use mathlib.Core.Path.{subst}
use kos_hspabla.Prelude.{
  ℕ, ◌-◌, ◌<◌, ◌≤◌, ◌==◌, ltb, ltb→lt, Bool, false, if◌then◌else◌, ◌≡◌, ◌≢◌, refl, sym, ◌∙◌, ap,
  arith, update, update_self, Option, none, some, List, [], ◌∷◌, Bool-cases, ◌⊎◌, inl, inr, ==_iff,
}
use kos_hspabla.Sync.{Waiter}
use kos_hspabla.Sync.Locks.{condition_block, condition_signal}
use kos_hspabla.ManagedArray
use kos_hspabla.ManagedArray.{ManagedArray}
use kos_hspabla.Handles.{
  Handles, done, done_with, Removal, absent, waits, refused, removed, wait_with, remove,
  remove_element,
}
use kos_hspabla.Handles.Slots.{InBounds}
use kos_hspabla.Handles.Changes.{Sets, invalidate-Sets, invalidate_data}
use kos_hspabla.Handles.Calls.{bind_some}

-- The slot of an element that goes out of use.
pub record Vacates (idx : ℕ) (a a' : ManagedArray ℕ) : Type 0 where
  pub sets : Sets idx none a a'
  pub same_data : a'.data_at ≡ a.data_at
  pub same_index : a'.index ≡ a.index

vacates :
    (a : ManagedArray ℕ) (idx : ℕ) (a' : ManagedArray ℕ)
    → InBounds a
    → ManagedArray.invalidate a idx ≡ some a'
    → Vacates idx a a'
vacates a idx a' v run =
    let (slots, bound) = invalidate_data a idx a' run in
    record { sets = invalidate-Sets a idx a' v run; same_data = slots; same_index = bound }

-- The element is in use once less. If threads are on its queue, the last user makes the slot invalid and
-- wakes the first of them that is armed, or nobody if none is.
pub record Ended (s : Handles) (idx e : ℕ) (woken : Option ℕ) (s' : Handles) : Type 0 where
  pub less : s'.count ≡ update s.count e (s.count e - 1)
  pub slot :
      ((woken ≡ none) × (s'.table ≡ s.table) × ((s.waiting e ≡ []) ⊎ (1 < s.count e)))
      ⊎ ((s.waiting e ≢ [])
          × (s.count e ≤ 1)
          × (woken ≡ (condition_signal (s.waiting e)).1)
          × Vacates idx s.table s'.table)

ended :
    (s : Handles) (idx e : ℕ) (queue : List Waiter) (woken : Option ℕ) (s' : Handles)
    → InBounds s.table
    → s.waiting e ≡ queue
    → 0 < s.count e
    → done_with (record s { count = update s.count e (s.count e - 1) }) idx e queue
      ≡ some (woken, s')
    → Ended s idx e woken s'
ended s idx e [] woken s' v on used run =
    let first : Option ℕ × Handles =
      (none, record s { count = update s.count e (s.count e - 1) }) in
    subst (λ (p : Option ℕ × Handles). Ended s idx e p.0 p.1) (some-injective first (woken, s') run)
      (record { less = refl; slot = inl (refl, refl, inl on) })
ended s idx e (w ∷ queue) woken s' v on used run =
    let counted : update s.count e (s.count e - 1) e ≡ s.count e - 1 =
      update_self s.count e (s.count e - 1) in
    elim (Bool-cases (update s.count e (s.count e - 1) e == 0)) [
      | inr some_left ↦
          let first : Option ℕ × Handles =
            (none, record s { count = update s.count e (s.count e - 1) }) in
          let end : some first ≡ some (woken, s') = rw some_left at run in
          let more : 1 < s.count e = still_used (s.count e) (rw counted at some_left) used in
          subst (λ (p : Option ℕ × Handles). Ended s idx e p.0 p.1)
            (some-injective first (woken, s') end)
            (record { less = refl; slot = inl (refl, refl, inr more) })
      | inl last ↦
          let signalled = condition_signal (w ∷ queue) in
          let (table, off, rest) =
            bind_some (ManagedArray.invalidate s.table idx)
              (λ (tb : ManagedArray ℕ). some (
                signalled.1,
                record s {
                  table = tb;
                  count = update s.count e (s.count e - 1);
                  waiting = update s.waiting e signalled.0;
                },
              ))
              (woken, s') (rw last at run) in
          let first : Option ℕ × Handles = (
            signalled.1,
            record s {
              table = table;
              count = update s.count e (s.count e - 1);
              waiting = update s.waiting e signalled.0;
            },
          ) in
          let none_left : s.count e - 1 ≡ 0 =
            sym counted ∙ (==_iff (update s.count e (s.count e - 1) e) 0).0 last in
          subst (λ (p : Option ℕ × Handles). Ended s idx e p.0 p.1)
            (some-injective first (woken, s') rest)
            (record {
              less = refl;
              slot = inr (
                λ none_waits. cons_nil (sym on ∙ none_waits),
                omega (arith, none_left),
                ap (λ q. (condition_signal q).1) (sym on),
                vacates s.table idx table v off,
              );
            })
    ]
  where
    cons_nil : (w ∷ queue) ≢ []
    cons_nil h = cc

    still_used : (n : ℕ) → (n - 1 == 0) ≡ false → 0 < n → 1 < n
    still_used n h pos = ground (arith, h, pos)

pub done-Ended :
    (s : Handles) (idx e : ℕ) (woken : Option ℕ) (s' : Handles)
    → InBounds s.table
    → ManagedArray.get s.table idx ≡ some e
    → done s idx ≡ some (woken, s')
    → Ended s idx e woken s'
unfolding done
done-Ended s idx e woken s' v found run = elim (Bool-cases (e == 0)) [
  | inl null ↦ absurd (ground (arith, found, null, run))
  | inr present ↦ elim (Bool-cases (ltb 0 (s.count e))) [
    | inr unused ↦ absurd (ground (arith, found, present, unused, run))
    | inl used ↦
        ended s idx e (s.waiting e) woken s' v refl (ltb→lt _ _ used)
          (rw (found, present, used) at run)
  ]
]

-- What `remove` does.
abbrev pub Removes : Handles → ℕ → Removal → Handles → Type 0
Removes s idx absent s' = (s'.table ≡ s.table) × (s'.count ≡ s.count)
Removes s idx waits s' = (s'.table ≡ s.table) × (s'.count ≡ s.count)
Removes s idx refused s' = (s'.table ≡ s.table) × (s'.count ≡ s.count)
Removes s idx removed s' =
    (e : ℕ) × (ManagedArray.get s.table idx ≡ some e)
    × (s.count e ≡ 0)
    × (s'.count ≡ s.count)
    × Vacates idx s.table s'.table

wait_with-Removes :
    (s : Handles) (idx e : ℕ) (o : Option (List Waiter)) (r : Removal) (s' : Handles)
    → some (wait_with s e o) ≡ some (r, s')
    → Removes s idx r s'
wait_with-Removes s idx e none r s' run =
    subst (λ (p : Removal × Handles). Removes s idx p.0 p.1)
      (some-injective (wait_with s e none) (r, s') run) (refl, refl)
wait_with-Removes s idx e (some queue) r s' run =
    subst (λ (p : Removal × Handles). Removes s idx p.0 p.1)
      (some-injective (wait_with s e (some queue)) (r, s') run) (refl, refl)

remove_element-Removes :
    (s : Handles) (idx t : ℕ) (cancelled : Bool) (e : ℕ) (r : Removal) (s' : Handles)
    → InBounds s.table
    → ManagedArray.get s.table idx ≡ some e
    → remove_element s idx t cancelled e ≡ some (r, s')
    → Removes s idx r s'
remove_element-Removes s idx t cancelled e r s' v found run =
    elim (Bool-cases (ltb 0 (s.count e))) [
      | inl used ↦
          wait_with-Removes s idx e (condition_block (s.waiting e) t cancelled) r s'
            (rw used at run)
      | inr unused ↦
          let (table, off, rest) =
            bind_some (ManagedArray.invalidate s.table idx)
              (λ (tb : ManagedArray ℕ). some (removed, record s { table = tb })) (r, s')
              (rw unused at run) in
          let first : Removal × Handles = (removed, record s { table = table }) in
          subst (λ (p : Removal × Handles). Removes s idx p.0 p.1)
            (some-injective first (r, s') rest)
            (e, found, ground (arith, unused), refl, vacates s.table idx table v off)
    ]

pub remove-Removes :
    (s : Handles) (idx t : ℕ) (cancelled : Bool) (r : Removal) (s' : Handles)
    → InBounds s.table
    → remove s idx t cancelled ≡ some (r, s')
    → Removes s idx r s'
unfolding remove
remove-Removes s idx t cancelled r s' v run = elim (Bool-cases (ManagedArray.valid s.table idx)) [
  | inr off ↦
      let first : Removal × Handles = (absent, s) in
      let end : some first ≡ some (r, s') = rw off at run in
      subst (λ (p : Removal × Handles). Removes s idx p.0 p.1) (some-injective first (r, s') end)
        (refl, refl)
  | inl on ↦
      let (e, found, rest) =
        bind_some (ManagedArray.get s.table idx)
          (λ x. if x == 0 then none else remove_element s idx t cancelled x) (r, s')
          (rw on at run) in
      elim (Bool-cases (e == 0)) [
        | inl null ↦ absurd (ground (arith, null, rest))
        | inr present ↦ remove_element-Removes s idx t cancelled e r s' v found (rw present at rest)
      ]
]
