-- ===== src/Intrusive/Change.antt =====
-- What `remove` and the operations built on it do to a list of src/generic/IntrusiveContainers.h.
use mathlib.Core.Path.{subst}
use mathlib.Core.List.{append-nil}
use mathlib.Core.Option.{some-injective}
use kos_hspabla.Prelude.{
  ℕ, ◌==◌, true, false, ◌≡◌, ◌≢◌, refl, sym, ◌∙◌, arith, update, update_self, update_ne, none, some,
  List, [], ◌∷◌, ◌++◌, All, ◌⊎◌, inl, inr,
}
use kos_hspabla.Intrusive.{Links, on_list, list_empty, remove_elem, pop_front}
use kos_hspabla.Intrusive.Chain.{
  Linked, Apart, Distinct, IsList, All-append, All-map, All-both, Distinct-append, Distinct-drop,
  Apart-swap, Linked-split, Linked-join, Linked-frame, before_end, retarget,
}

module _ (s : Links) (x q n : ℕ) where
  abbrev without : Links
  without = record {
    prev = update (update s.prev n (some q)) x none;
    next = update (update s.next q (some n)) x none;
  }

  remove_elem-without :
      s.prev x ≡ some q → s.next x ≡ some n → x ≢ q → remove_elem s x ≡ some without
  unfolding remove_elem on_list
  remove_elem-without before behind ne =
      let other : (q == x) ≡ false = ground (arith, ne) in rw (before, behind, other) refl

  next-same : (z : ℕ) → z ≢ q → x ≢ z → without.next z ≡ s.next z
  next-same z ne ne' =
      update_ne (update s.next q (some n)) x z none ne'
      ∙ update_ne s.next q z (some n) (λ e. ne (sym e))

  prev-same : (z : ℕ) → n ≢ z → x ≢ z → without.prev z ≡ s.prev z
  prev-same z ne ne' =
      update_ne (update s.prev n (some q)) x z none ne' ∙ update_ne s.prev n z (some q) ne

  next-here : x ≢ q → without.next q ≡ some n
  next-here ne = update_ne (update s.next q (some n)) x q none ne ∙ update_self s.next q (some n)

  prev-here : x ≢ n → without.prev n ≡ some q
  prev-here ne = update_ne (update s.prev n (some q)) x n none ne ∙ update_self s.prev n (some q)

pub prev-end : (s : Links) (p e : ℕ) (xs : List ℕ) → Linked s p xs e → (q : ℕ) × (s.prev e ≡ some q)
prev-end s p e [] (a, b) = (p, b)
prev-end s p e (x ∷ xs) (a, b, c) = prev-end s x e xs c

-- The chain without `x`, whose neighbours are `q` and `n`.
bridged :
    (s : Links) (a x q n : ℕ) (xs : List ℕ)
    → Linked s a xs x
    → Distinct (a ∷ xs)
    → s.prev x ≡ some q
    → Apart x (a ∷ xs)
    → x ≢ n
    → Apart n xs
    → Linked (without s x q n) a xs n
bridged s a x q n xs l d last apart ne away =
    let x_not_q = before_end s a q x x xs l last apart in
    retarget s (without s x q n) a q x n xs l d last (next-here s x q n x_not_q)
      (prev-here s x q n ne) (All-map (a ∷ xs) (λ z ne' not_q. next-same s x q n z not_q ne') apart)
      (All-both xs (λ z not_n not_x. prev-same s x q n z not_n not_x) away apart.1)

-- The rest of the list after `x`.
removed :
    (s : Links) (a x : ℕ) (xs ys : List ℕ)
    → Linked s a xs x
    → Linked s x ys a
    → Distinct (a ∷ (xs ++ (x ∷ ys)))
    → (q n : ℕ) × (s.prev x ≡ some q)
      × (s.next x ≡ some n)
      × (x ≢ q)
      × Linked (without s x q n) a (xs ++ ys) a
removed s a x xs [] l (at, from) (apart, d) =
    let (q, last) = prev-end s a x xs l in
    let (dx, dy, cross) = Distinct-append xs (x ∷ []) d in
    let (a_xs, a_x) = All-append _ xs (x ∷ []) apart in
    let x_apart : Apart x (a ∷ xs) =
      (λ e. a_x.0 (sym e), All-map xs (λ z h e. h.0 (sym e)) cross) in
    (
      q,
      a,
      last,
      at,
      before_end s a q x x xs l last x_apart,
      subst (λ zs. Linked (without s x q a) a zs a) (sym (append-nil xs))
          (bridged s a x q a xs l (a_xs, dx) last x_apart (λ e. a_x.0 (sym e)) a_xs),
    )
removed s a x xs (n ∷ ys) l (at, from, r) (apart, d) =
    let (q, last) = prev-end s a x xs l in
    let (dx, dy, cross) = Distinct-append xs (x ∷ n ∷ ys) d in
    let (a_xs, a_ys) = All-append _ xs (x ∷ n ∷ ys) apart in
    let x_apart : Apart x (a ∷ xs) =
      (λ e. a_ys.0 (sym e), All-map xs (λ z h e. h.0 (sym e)) cross) in
    let away : All (λ z. Apart z (a ∷ xs)) (n ∷ ys) =
      Apart-swap (a ∷ xs) (n ∷ ys) (a_ys.1, All-map xs (λ z h. h.1) cross) in
    let not_q = All-map (n ∷ ys) (λ z h. before_end s a q z x xs l last h) away in
    let s' = without s x q n in
    (
      q,
      n,
      last,
      at,
      before_end s a q x x xs l last x_apart,
      Linked-join s' a n a xs ys (bridged s a x q n xs l (a_xs, dx) last x_apart dy.0.0 away.0.1) (
          Linked-frame s s' n a ys
            (All-both (n ∷ ys) (λ z ne ne'. next-same s x q n z ne ne') not_q dy.0)
            (All-both ys (λ z ne ne'. prev-same s x q n z ne ne') dy.1.0 dy.0.1)
            (prev-same s x q n a away.0.0 (λ e. a_ys.0 (sym e))) r),
    )

after_start :
    (s : Links) (p n z e : ℕ) (ys : List ℕ)
    → Linked s p ys e
    → s.next p ≡ some n
    → Apart z ys
    → z ≢ e
    → z ≢ n
after_start s p n z e [] (a, b) h out ne same = ne (same ∙ some-injective _ _ (sym h ∙ a))
after_start s p n z e (y ∷ ys) (a, b, c) h (first, rest) ne same =
    first (same ∙ some-injective _ _ (sym h ∙ a))

-- For a list whose links run from the anchor over distinct elements and back, in both directions,
-- `remove` of an element anywhere in it fails no assertion, leaves the list of the others in
-- their order, sets both links of the element to null, and changes no link of anything that is
-- not in the list.
pub remove_elem_lem :
    (s : Links) (a x : ℕ) (xs ys : List ℕ)
    → IsList s a (xs ++ (x ∷ ys))
    → (s' : Links) × (remove_elem s x ≡ some s')
      × IsList s' a (xs ++ ys)
      × (s'.prev x ≡ none)
      × (s'.next x ≡ none)
      × ((z : ℕ) → Apart z (a ∷ (xs ++ (x ∷ ys))) → (s'.prev z ≡ s.prev z) × (s'.next z ≡ s.next z))
remove_elem_lem s a x xs ys v =
    let (l, r) = Linked-split s a x a xs ys v.linked in
    let (q, n, before, behind, ne, linked) = removed s a x xs ys l r v.distinct in
    (
      without s x q n,
      remove_elem-without s x q n before behind ne,
      record { linked = linked; distinct = Distinct-drop (a ∷ xs) ys x v.distinct },
      update_self (update s.prev n (some q)) x none,
      update_self (update s.next q (some n)) x none,
      λ z out.
          let (front, back) = All-append _ (a ∷ xs) (x ∷ ys) out in
          let not_x : x ≢ z = λ e. back.0 (sym e) in
          (
            prev-same s x q n z (λ e. after_start s x n z a ys r behind back.1 front.0 (sym e))
                not_x,
            next-same s x q n z (before_end s a q z x xs l before front) not_x,
          ),
    )

-- The first element is taken.
pub pop_front_lem :
    (s : Links) (a : ℕ) (xs : List ℕ)
    → IsList s a xs
    → ((xs ≡ []) × (pop_front s a ≡ none))
      ⊎ ((x : ℕ) × (rest : List ℕ) × (s' : Links) × (xs ≡ x ∷ rest)
          × (pop_front s a ≡ some (s', x))
          × IsList s' a rest)
unfolding pop_front list_empty
pop_front_lem s a [] v =
    let itself : (a == a) ≡ true = ground arith in inl (refl, rw (v.linked.0, itself) refl)
pop_front_lem s a (x ∷ rest) v =
    let (s', run, list, before, behind, others) = remove_elem_lem s a x [] rest v in
    let other : (x == a) ≡ false = ground (arith, v.distinct.0.0) in
    inr (x, rest, s', refl, rw (v.linked.0, other, run) refl, list)
