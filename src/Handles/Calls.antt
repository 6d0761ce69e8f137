-- ===== src/Handles/Calls.antt =====
-- The results of `store`, `access`, `done` and `remove` of src/runtime/SynchronizedArray.h, one by one.
use mathlib.Core.Option.{some-injective}
use kos_hspabla.Prelude.{
  ℕ, ◌+◌, ◌<◌, ◌==◌, ◌≢◌, Bool, true, false, if◌then◌else◌, ◌≡◌, refl, sym, ◌∙◌, ap, arith, update,
  Option, none, some, ◌>>=◌, List, [], ◌∷◌, Bool-cases, inl, inr,
}
use mathlib.Core.Path.{subst}
use kos_hspabla.Sync.{Waiter}
use kos_hspabla.ManagedArray
use kos_hspabla.ManagedArray.{ManagedArray, elem}
use kos_hspabla.Handles.{Handles, store, access, access_with}
use kos_hspabla.Handles.Slots.{InBounds, reserve_index-SameBut}
use kos_hspabla.Handles.Changes.{Sets, set-Sets}

pub bind_some :
    {A B : Type 0} (m : Option A) (f : A → Option B) (b : B)
    → (m >>= f) ≡ some b
    → (a : A) × (m ≡ some a) × (f a ≡ some b)
bind_some none f b h = cc
bind_some (some a) f b h = (a, refl, h)

set_clear :
    (a : ManagedArray ℕ) (idx e : ℕ) (a' : ManagedArray ℕ)
    → ManagedArray.set a idx e ≡ some a'
    → ManagedArray.clear a idx ≡ true
unfolding ManagedArray.set
set_clear a idx e a' run = elim (Bool-cases (ManagedArray.clear a idx)) [
  | inl free ↦ free
  | inr full ↦ absurd (ground (arith, full, run))
]

-- The new element's slot.
pub record Stored (s : Handles) (e idx : ℕ) (s' : Handles) : Type 0 where
  pub sets : Sets idx (some e) s.table s'.table
  pub vacant : ManagedArray.get s.table idx ≡ none
  pub unread : (j x : ℕ) → j < s.table.index → s.table.data_at j ≡ elem x → idx ≢ j
  pub same_count : s'.count ≡ s.count
  pub same_waiting : s'.waiting ≡ s.waiting

stored :
    (allocate : ℕ → Bool) (s : Handles) (e idx : ℕ) (table written : ManagedArray ℕ)
    → InBounds s.table
    → ManagedArray.reserve_index allocate s.table ≡ some (idx, table)
    → ManagedArray.set table idx e ≡ some written
    → Stored s e idx (record s { table = written })
stored allocate s e idx table written v r w =
    let free = set_clear table idx e written w in
    let but = reserve_index-SameBut allocate s.table idx table v r free in
    let sets = (set-Sets table idx e written but.bounds w).1 in
    record {
      sets = record {
        bounds = sets.bounds;
        here = sets.here;
        same = λ j other. sets.same j other ∙ but.same j other;
        kept = λ j x lt d other. sets.kept j x (but.kept j x lt d).1 (but.kept j x lt d).2 other;
      };
      vacant = but.vacant;
      unread = λ j x lt d. (but.kept j x lt d).0;
      same_count = refl;
      same_waiting = refl;
    }

not_null :
    (s : Handles) (e idx : ℕ) (r : ℕ × Handles) (written : ManagedArray ℕ)
    → (e == 0) ≡ false
    → ((if e == 0 then ManagedArray.invalidate written idx else some written) >>= λ kept.
        some (idx, record s { table = kept }))
      ≡ some r
    → some (idx, record s { table = written }) ≡ some r
not_null s e idx r written present run = rw present at run

pub store-Stored :
    (allocate : ℕ → Bool) (s : Handles) (e idx : ℕ) (s' : Handles)
    → InBounds s.table
    → (e == 0) ≡ false
    → store allocate s e ≡ some (idx, s')
    → Stored s e idx s'
unfolding store
store-Stored allocate s e idx s' v present run =
    let (reserved, r, run₁) =
      bind_some (ManagedArray.reserve_index allocate s.table) _ (idx, s') run in
    let (written, w, run₂) =
      bind_some (ManagedArray.set reserved.1 reserved.0 e) _ (idx, s') run₁ in
    let first : ℕ × Handles = (reserved.0, record s { table = written }) in
    let last : ((if e == 0 then ManagedArray.invalidate written reserved.0 else some written)
          >>= λ kept. some (reserved.0, record s { table = kept }))
        ≡ some (idx, s') =
      run₂ in
    let end : some first ≡ some (idx, s') =
      not_null s e reserved.0 (idx, s') written present last in
    let same = some-injective first (idx, s') end in
    subst (λ (p : ℕ × Handles). Stored s e p.0 p.1) same
      (stored allocate s e reserved.0 reserved.1 written v r w)

-- The element is in use once more.
pub record Accessed (s : Handles) (idx e : ℕ) (s' : Handles) : Type 0 where
  pub found : ManagedArray.get s.table idx ≡ some e
  pub same_table : s'.table ≡ s.table
  pub more : s'.count ≡ update s.count e (s.count e + 1)

accessed :
    (s : Handles) (idx e e' : ℕ) (s' : Handles) (queue : List Waiter)
    → ManagedArray.get s.table idx ≡ some e'
    → access_with s e' queue ≡ some (some e, s')
    → Accessed s idx e s'
accessed s idx e e' s' (t ∷ queue) found run =
    let first : Option ℕ × Handles = (none, s) in
    let same : first.0 ≡ some e =
      ap (λ (p : Option ℕ × Handles). p.0) (some-injective first (some e, s') run) in
    cc
accessed s idx e e' s' [] found run =
    let first : Option ℕ × Handles =
      (some e', record s { count = update s.count e' (s.count e' + 1) }) in
    let same = some-injective first (some e, s') run in
    let same_e : e' ≡ e = some-injective e' e (ap (λ (p : Option ℕ × Handles). p.0) same) in
    record {
      found = found ∙ ap some same_e;
      same_table = ap (λ (p : Option ℕ × Handles). p.1.table) (sym same);
      more =
          ap (λ (p : Option ℕ × Handles). p.1.count) (sym same)
          ∙ ap (λ x. update s.count x (s.count x + 1)) same_e;
    }

pub access-Accessed :
    (s : Handles) (idx e : ℕ) (s' : Handles)
    → access s idx ≡ some (some e, s')
    → Accessed s idx e s'
unfolding access
access-Accessed s idx e s' run = elim (Bool-cases (ManagedArray.valid s.table idx)) [
  | inr off ↦
      let first : Option ℕ × Handles = (none, s) in
      let end : some first ≡ some (some e, s') = rw off at run in
      let same : first.0 ≡ some e =
        ap (λ (p : Option ℕ × Handles). p.0) (some-injective first (some e, s') end) in
      cc
  | inl on ↦
      let (e', found, rest) =
        bind_some (ManagedArray.get s.table idx)
          (λ x. if x == 0 then none else access_with s x (s.waiting x)) (some e, s')
          (rw on at run) in
      elim (Bool-cases (e' == 0)) [
        | inl null ↦ absurd (ground (arith, null, rest))
        | inr present ↦ accessed s idx e e' s' (s.waiting e') found (rw present at rest)
      ]
]
