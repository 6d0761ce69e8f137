-- ===== src/Intrusive/Insert.antt =====
-- What `push_back` does to a list of src/generic/IntrusiveContainers.h.
use mathlib.Core.Option.{some-injective}
use kos_hspabla.Prelude.{
  ℕ, ◌≡◌, refl, sym, ◌∙◌, ap, update, update_self, update_ne, none, some, List, [], ◌∷◌, ◌++◌,
}
use kos_hspabla.Intrusive.{Links, on_list, insert_after, push_back}
use kos_hspabla.Intrusive.Chain.{
  Linked, Apart, Distinct, IsList, All-map, All-both, append-All, Linked-join, before_end, retarget,
}
use kos_hspabla.Intrusive.Change.{prev-end}

-- The element before the end points at it, and is linked backwards if the start is.
last-links :
    (s : Links) (p q e r : ℕ) (xs : List ℕ)
    → Linked s p xs e
    → s.prev e ≡ some q
    → s.prev p ≡ some r
    → (s.next q ≡ some e) × (r' : ℕ) × (s.prev q ≡ some r')
last-links s p q e r [] (a, b) h back =
    let same : q ≡ p = some-injective _ _ (sym h ∙ b) in
    (ap s.next same ∙ a, r, ap s.prev same ∙ back)
last-links s p q e r (x ∷ xs) (a, b, c) h back = last-links s x q e p xs c h b

module _ (s : Links) (a e b : ℕ) where
  abbrev appended : Links
  appended = record {
    prev = update (update s.prev a (some e)) e (some b);
    next = update (update s.next e (some a)) b (some e);
  }

  push_back-appended :
      (r : ℕ)
      → s.prev a ≡ some b
      → s.next b ≡ some a
      → s.prev b ≡ some r
      → s.prev e ≡ none
      → s.next e ≡ none
      → push_back s a e ≡ some appended
  unfolding push_back insert_after on_list
  push_back-appended r last to back off off' = rw (last, off, off', back, to) refl

Distinct-snoc : (xs : List ℕ) (e : ℕ) → Distinct xs → Apart e xs → Distinct (xs ++ (e ∷ []))
Distinct-snoc [] e d out = (record {}, record {})
Distinct-snoc (x ∷ xs) e (apart, d) (first, out) =
    (append-All _ xs (e ∷ []) apart (λ same. first (sym same), record {}), Distinct-snoc xs e d out)

-- For such a list and an element that is not in it and has both links null, `push_back` fails no
-- assertion and leaves the list with the element at its end.
pub push_back_lem :
    (s : Links) (a e : ℕ) (xs : List ℕ)
    → IsList s a xs
    → s.prev e ≡ none
    → s.next e ≡ none
    → Apart e (a ∷ xs)
    → (s' : Links) × (push_back s a e ≡ some s') × IsList s' a (xs ++ (e ∷ []))
push_back_lem s a e xs v off off' out =
    let (b, last) = prev-end s a a xs v.linked in
    let (to, r, back) = last-links s a b a b xs v.linked last last in
    let s' = appended s a e b in
    let e_not_b = before_end s a b e a xs v.linked last out in
    (
      s',
      push_back-appended s a e b r last to back off off',
      record {
        linked =
            Linked-join s' a e a xs []
              (retarget s s' a b a e xs v.linked v.distinct last
                (update_self (update s.next e (some a)) b (some e))
                (update_self (update s.prev a (some e)) e (some b))
                (All-map (a ∷ xs)
                  (λ z ne not_b.
                    update_ne (update s.next e (some a)) b z (some e) (λ h. not_b (sym h))
                    ∙ update_ne s.next e z (some a) ne)
                  out)
                (All-both xs
                  (λ z ne ne'.
                    update_ne (update s.prev a (some e)) e z (some b) ne'
                    ∙ update_ne s.prev a z (some e) ne)
                  v.distinct.0 out.1))
              (
                update_ne (update s.next e (some a)) b e (some e) (λ h. e_not_b (sym h))
                    ∙ update_self s.next e (some a),
                update_ne (update s.prev a (some e)) e a (some b) out.0
                    ∙ update_self s.prev a (some e),
              );
        distinct = Distinct-snoc (a ∷ xs) e v.distinct out;
      },
    )
