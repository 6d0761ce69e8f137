-- ===== src/Intrusive/Chain.antt =====
-- Chains of links in src/generic/IntrusiveContainers.h: what the links of a list say, and how much of them a
-- change elsewhere leaves alone.
use mathlib.Core.Option.{some-injective}
use kos_hspabla.Prelude.{ℕ, ◌≡◌, ◌≢◌, sym, ◌∙◌, ap, some, List, [], ◌∷◌, ◌++◌, All}
use kos_hspabla.Intrusive.{Links}

-- From `p` over the elements to `e`.
abbrev pub Linked : Links → ℕ → List ℕ → ℕ → Type 0
Linked s p [] e = (s.next p ≡ some e) × (s.prev e ≡ some p)
Linked s p (x ∷ xs) e = (s.next p ≡ some x) × (s.prev x ≡ some p) × Linked s x xs e

abbrev pub Apart : ℕ → List ℕ → Type 0
Apart x ys = All (λ y. x ≢ y) ys

abbrev pub Distinct : List ℕ → Type 0
Distinct [] = Unit
Distinct (x ∷ xs) = Apart x xs × Distinct xs

-- The list at `anchor` has these elements.
pub record IsList (s : Links) (anchor : ℕ) (xs : List ℕ) : Type 0 where
  pub linked : Linked s anchor xs anchor
  pub distinct : Distinct (anchor ∷ xs)

pub All-append {κ} : (P : ℕ → Type κ) (xs ys : List ℕ) → All P (xs ++ ys) → All P xs × All P ys
All-append P [] ys h = (record {}, h)
All-append P (x ∷ xs) ys (first, rest) =
    let (left, right) = All-append P xs ys rest in ((first, left), right)

pub append-All {κ} : (P : ℕ → Type κ) (xs ys : List ℕ) → All P xs → All P ys → All P (xs ++ ys)
append-All P [] ys h g = g
append-All P (x ∷ xs) ys (first, rest) g = (first, append-All P xs ys rest g)

pub Distinct-append :
    (xs ys : List ℕ) → Distinct (xs ++ ys) → Distinct xs × Distinct ys × All (λ x. Apart x ys) xs
Distinct-append [] ys h = (record {}, h, record {})
Distinct-append (x ∷ xs) ys (apart, rest) =
    let (left, right) = All-append _ xs ys apart in
    let (dx, dy, cross) = Distinct-append xs ys rest in ((left, dx), dy, (right, cross))

pub Linked-split :
    (s : Links) (p x e : ℕ) (xs ys : List ℕ)
    → Linked s p (xs ++ (x ∷ ys)) e
    → Linked s p xs x × Linked s x ys e
Linked-split s p x e [] ys (a, b, c) = ((a, b), c)
Linked-split s p x e (y ∷ xs) ys (a, b, c) =
    let (l, r) = Linked-split s y x e xs ys c in ((a, b, l), r)

pub Linked-join :
    (s : Links) (p x e : ℕ) (xs ys : List ℕ)
    → Linked s p xs x
    → Linked s x ys e
    → Linked s p (xs ++ (x ∷ ys)) e
Linked-join s p x e [] ys (a, b) r = (a, b, r)
Linked-join s p x e (y ∷ xs) ys (a, b, l) r = (a, b, Linked-join s y x e xs ys l r)

-- Without an element in the middle.
pub All-drop {κ} :
    (P : ℕ → Type κ) (xs ys : List ℕ) (x : ℕ) → All P (xs ++ (x ∷ ys)) → All P (xs ++ ys)
All-drop P [] ys x (first, rest) = rest
All-drop P (y ∷ xs) ys x (first, rest) = (first, All-drop P xs ys x rest)

pub Distinct-drop : (xs ys : List ℕ) (x : ℕ) → Distinct (xs ++ (x ∷ ys)) → Distinct (xs ++ ys)
Distinct-drop [] ys x (apart, d) = d
Distinct-drop (y ∷ xs) ys x (apart, d) = (All-drop _ xs ys x apart, Distinct-drop xs ys x d)

pub All-map {κ μ} :
    {P : ℕ → Type κ} {Q : ℕ → Type μ} (xs : List ℕ) → ((z : ℕ) → P z → Q z) → All P xs → All Q xs
All-map [] f h = record {}
All-map (x ∷ xs) f (first, rest) = (f x first, All-map xs f rest)

pub All-both {κ μ ν} :
    {P : ℕ → Type κ} {Q : ℕ → Type μ} {R : ℕ → Type ν} (xs : List ℕ)
    → ((z : ℕ) → P z → Q z → R z)
    → All P xs
    → All Q xs
    → All R xs
All-both [] f h g = record {}
All-both (x ∷ xs) f (p, ps) (q, qs) = (f x p q, All-both xs f ps qs)

-- Each element of one list is apart from the other list.
pub Apart-swap : (xs ys : List ℕ) → All (λ x. Apart x ys) xs → All (λ y. Apart y xs) ys
Apart-swap [] ys h = All-all ys
  where
    All-all : (zs : List ℕ) → All (λ y. Apart y []) zs
    All-all [] = record {}
    All-all (z ∷ zs) = (record {}, All-all zs)
Apart-swap (x ∷ xs) ys (apart, rest) =
    All-both ys (λ y ne away. (λ e. ne (sym e), away)) apart (Apart-swap xs ys rest)

-- The links of a chain are the same.
pub Linked-frame :
    (s s' : Links) (p e : ℕ) (xs : List ℕ)
    → All (λ z. s'.next z ≡ s.next z) (p ∷ xs)
    → All (λ z. s'.prev z ≡ s.prev z) xs
    → s'.prev e ≡ s.prev e
    → Linked s p xs e
    → Linked s' p xs e
Linked-frame s s' p e [] (n, ns) ps pe (a, b) = (n ∙ a, pe ∙ b)
Linked-frame s s' p e (x ∷ xs) (n, ns) (q, qs) pe (a, b, c) =
    (n ∙ a, q ∙ b, Linked-frame s s' x e xs ns qs pe c)

-- The element before the end is in the chain.
pub before_end :
    (s : Links) (p q x e : ℕ) (xs : List ℕ)
    → Linked s p xs e
    → s.prev e ≡ some q
    → Apart x (p ∷ xs)
    → x ≢ q
before_end s p q x e [] (a, b) h (first, rest) same = first (same ∙ some-injective _ _ (sym h ∙ b))
before_end s p q x e (y ∷ xs) (a, b, c) h (first, rest) same = before_end s y q x e xs c h rest same

-- The chain ends elsewhere: its last element `q` gets another next element.
pub retarget :
    (s s' : Links) (p q x n : ℕ) (xs : List ℕ)
    → Linked s p xs x
    → Distinct (p ∷ xs)
    → s.prev x ≡ some q
    → s'.next q ≡ some n
    → s'.prev n ≡ some q
    → All (λ z. z ≢ q → s'.next z ≡ s.next z) (p ∷ xs)
    → All (λ z. s'.prev z ≡ s.prev z) xs
    → Linked s' p xs n
retarget s s' p q x n [] (a, b) d last to from nexts prevs =
    let same : q ≡ p = some-injective _ _ (sym last ∙ b) in
    (ap s'.next (sym same) ∙ to, from ∙ ap (λ z. some z) same)
retarget s s' p q x n (y ∷ xs) (a, b, c) (apart, d) last to from (next, nexts) (prev, prevs) = (
  next (before_end s y q p x xs c last apart) ∙ a,
  prev ∙ b,
  retarget s s' y q x n xs c d last to from nexts prevs,
)
