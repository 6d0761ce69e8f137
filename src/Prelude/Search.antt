-- ===== src/Prelude/Search.antt =====
-- Linear search, the reference that the word scans are measured against.
use kos_hspabla.Prelude.{
  ℕ, zero, suc, ◌+◌, ◌<◌, ◌≤◌, Bool, true, false, leb, ◌&&◌, ◌≡◌, arith, if◌then◌else◌, Bool-cases,
  inl, inr, dec_lt, refl,
}

-- `r` is the first position of [lo, hi) at which `p` holds, or `hi` if there is none.
pub record IsFirst (p : ℕ → Bool) (lo hi r : ℕ) : Type 0 where
  pub above : lo ≤ r
  pub below : r ≤ hi
  pub skipped : (j : ℕ) → lo ≤ j → j < r → p j ≡ false
  pub found : r < hi → p r ≡ true

unfoldable pub find_up : (ℕ → Bool) → ℕ → ℕ → ℕ
find_up p zero lo = lo
find_up p (suc n) lo = if p lo then lo else find_up p n (suc lo)

pub find_up-IsFirst : (p : ℕ → Bool) (n lo hi : ℕ) → lo + n ≡ hi → IsFirst p lo hi (find_up p n lo)
unfolding find_up
find_up-IsFirst p zero lo hi e = record {
  above = omega arith;
  below = omega arith;
  skipped = λ j a b. absurd (omega arith);
  found = λ h. absurd (omega arith);
}
find_up-IsFirst p (suc n) lo hi e = elim (Bool-cases (p lo)) [
  | inl here ↦ rw here (record {
    above = omega arith;
    below = omega arith;
    skipped = λ j a b. absurd (omega arith);
    found = λ h. here;
  })
  | inr past ↦ rw past (
      let rest : IsFirst p (suc lo) hi (find_up p n (suc lo)) =
        find_up-IsFirst p n (suc lo) hi (omega arith) in
      record {
        above = omega (arith, rest.above);
        below = rest.below;
        skipped = λ j a b. elim (dec_lt lo j) [
          | yes q ↦ rest.skipped j q b
          | no q ↦ let here : j ≡ lo = omega arith in rw here past
        ];
        found = rest.found;
      })
]

-- The position is determined.
pub IsFirst-unique : {p : ℕ → Bool} {lo hi r s : ℕ} → IsFirst p lo hi r → IsFirst p lo hi s → r ≡ s
IsFirst-unique {p} {lo} {hi} {r} {s} a b = ground (arith, b.skipped r, a.skipped s)

-- A search that starts early and skips what lies below `idx` is the search from `idx`.
pub IsFirst-from :
    (p : ℕ → Bool) (base idx hi r : ℕ)
    → base ≤ idx
    → idx < hi
    → IsFirst (λ j. p j && leb idx j) base hi r
    → IsFirst p idx hi r
IsFirst-from p base idx hi r low inside w = record {
  above = elim (dec_lt r hi) [ yes q ↦ ground (arith, w.found q) | no q ↦ omega arith ];
  below = w.below;
  skipped = λ j a b. ground (arith, w.skipped j (omega arith) b);
  found = λ q. ground (arith, w.found q);
}

-- The last position below n at which `p` holds, or 0.
unfoldable pub find_down : (ℕ → Bool) → ℕ → ℕ
find_down p zero = 0
find_down p (suc n) = if p n then n else find_down p n

-- `r` is the last position below `hi` at which `p` holds.
pub record IsLast (p : ℕ → Bool) (hi r : ℕ) : Type 0 where
  pub below : r < hi
  pub found : p r ≡ true
  pub skipped : (j : ℕ) → r < j → j < hi → p j ≡ false

pub find_down-IsLast : (p : ℕ → Bool) (n j : ℕ) → j < n → p j ≡ true → IsLast p n (find_down p n)
unfolding find_down
find_down-IsLast p zero j lt e = absurd (omega arith)
find_down-IsLast p (suc n) j lt e = elim (Bool-cases (p n)) [
  | inl here ↦
      rw here
        (record { below = omega arith; found = here; skipped = λ i a b. absurd (omega arith) })
  | inr past ↦ rw past (
      let lt' : j < n = ground arith in
      let rest : IsLast p n (find_down p n) = find_down-IsLast p n j lt' e in
      record {
        below = omega (arith, rest.below);
        found = rest.found;
        skipped = λ i a b. elim (dec_lt i n) [
          | yes q ↦ rest.skipped i a q
          | no q ↦ let top : i ≡ n = omega arith in rw top past
        ];
      })
]

pub find_down-none : (p : ℕ → Bool) (n : ℕ) → ((j : ℕ) → j < n → p j ≡ false) → find_down p n ≡ 0
unfolding find_down
find_down-none p zero h = refl
find_down-none p (suc n) h = rw (h n (omega arith)) (find_down-none p n (λ j lt. h j (omega arith)))
