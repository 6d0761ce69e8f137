-- ===== src/RegionSet/Retrieve.antt =====
-- `retrieve_front` of src/generic/RegionSet.h: the first aligned block that a region has room for.
use mathlib.Core.Bool.{false≢true}
use native.Mathlib.Nat.{div-add-mod, mod-lt}
use kos_hspabla.Prelude.{
  ℕ, suc, ◌+◌, ◌*◌, ◌/◌, ◌^◌, ◌%◌, ◌<◌, ◌≤◌, Bool, true, false, not, ◌&&◌, leb, if◌then◌else◌, ◌≡◌,
  refl, sym, ◌∙◌, arith, dec_le, ◌⊎◌, inl, inr, Option, none, some, List, [], ◌∷◌, All,
}
use kos_hspabla.Prelude.Bits.{pow_pos}
use kos_hspabla.Basics.{mword_mod, add_mword, align_up, limit}
use kos_hspabla.Basics.Align.{align_up_least}
use kos_hspabla.RegionSet.{Region, retrieve_front_from, retrieve_front}
use kos_hspabla.RegionSet.Order.{Apart, inside, has}
use kos_hspabla.RegionSet.Change.{remove_lem}

-- The block of `s` addresses at `a`.
abbrev pub block : ℕ → ℕ → Region
block a s = record { start = a; end = a + s }

next_multiple : (x s : ℕ) → 0 < s → x ≤ suc (x / s) * s
next_multiple x s pos = omega (arith, div-add-mod x s, mod-lt x pos)

next_bound : (x s : ℕ) → 0 < s → suc (x / s) * s ≤ x + s
next_bound x s pos = omega (arith, div-add-mod x s)

-- No aligned block of size `s` lies in the region.
abbrev pub TooSmall : ℕ → Region → Type 0
TooSmall s x = (m : ℕ) → x.start ≤ m * s → x.end < m * s + s

module _ (fault : Bool) (k : ℕ) (small : k < 64) (set : List Region) (a : Apart 0 set) where
  abbrev pub Taken : Option (ℕ × List Region) → Type 0
  Taken result =
      (at : ℕ) × (left : List Region) × (result ≡ some (at, left))
      × (at % 2 ^ k ≡ 0)
      × ((p : ℕ) → inside (block at (2 ^ k)) p ≡ true → has set p ≡ true)
      × Apart 0 left
      × ((p : ℕ) → has left p ≡ (has set p && not (inside (block at (2 ^ k)) p)))

  front_from :
      (rest : List Region)
      → ((p : ℕ) → has rest p ≡ true → has set p ≡ true)
      → All (λ x. x.end + 2 ^ k + 2 ^ k ≤ mword_mod) rest
      → All (λ x. x.start < x.end) rest
      → Taken (retrieve_front_from fault (2 ^ k) set rest)
        ⊎ ((retrieve_front_from fault (2 ^ k) set rest
              ≡ (if fault then some (limit, set) else none))
            × All (TooSmall (2 ^ k)) rest)
  unfolding retrieve_front_from
  front_from [] sub room full = inr (refl, tt)
  front_from (x ∷ rest) sub room full =
      let s = 2 ^ k in
      let pos : 0 < 2 ^ k = pow_pos k in
      let (above, multiple, least) =
        align_up_least x.start k small (omega (arith, room.0, full.0)) in
      elim (dec_le (align_up x.start s + s) x.end) [
        | yes fits ↦
            let sum : add_mword (align_up x.start s) s ≡ align_up x.start s + s =
              omega (arith, room.0) in
            let test : leb (align_up x.start s + s) x.end ≡ true = ground arith in
            let part : (p : ℕ) → inside (block (align_up x.start s) s) p ≡ true → has set p ≡ true =
              λ p on. sub p (ground arith) in
            elim (remove_lem false (block (align_up x.start s) s) set (omega arith) a) [
              | inl (ys, e, apart, addresses) ↦
                  inl (
                    align_up x.start s,
                    ys,
                    rw (sum, test, e) refl,
                    multiple,
                    part,
                    apart,
                    addresses,
                  )
              | inr (e, p, hit, miss) ↦ absurd (false≢true (sym miss ∙ part p hit))
            ]
        | no tight ↦
            let near : align_up x.start s ≤ x.start + s = omega (
              arith,
              least (suc (x.start / s)) (next_multiple x.start s pos),
              next_bound x.start s pos,
            ) in
            let sum : add_mword (align_up x.start s) s ≡ align_up x.start s + s =
              omega (arith, near, room.0, full.0) in
            let test : leb (align_up x.start s + s) x.end ≡ false = ground arith in
            let none_here : TooSmall s x = λ m le. omega (arith, least m le) in
            elim (front_from rest (λ p on. sub p (ground arith)) room.1 full.1) [
              | inl (at, left, e, multiple', part, apart, addresses) ↦
                  inl (at, left, rw (sum, test) e, multiple', part, apart, addresses)
              | inr (e, others) ↦ inr (rw (sum, test) e, (none_here, others))
            ]
      ]

-- For k < 64 and regions that are not empty, are apart and end at least 2 ^ (k + 1) below 2 ^ 64,
-- `retrieve_front` for 2 ^ k either returns an address that is a multiple of 2 ^ k such that all
-- 2 ^ k addresses from it on were in the set, and takes exactly these out, with the regions left
-- so; or no region contains an aligned block of 2 ^ k addresses, and it returns `limit` with the
-- same set if `fault` is set and fails its assertion if not.
pub retrieve_front_lem :
    (fault : Bool) (k : ℕ) (set : List Region)
    → k < 64
    → Apart 0 set
    → All (λ x. x.end + 2 ^ k + 2 ^ k ≤ mword_mod) set
    → ((at : ℕ) × (left : List Region) × (retrieve_front fault (2 ^ k) set ≡ some (at, left))
        × (at % 2 ^ k ≡ 0)
        × ((p : ℕ) → inside (block at (2 ^ k)) p ≡ true → has set p ≡ true)
        × Apart 0 left
        × ((p : ℕ) → has left p ≡ (has set p && not (inside (block at (2 ^ k)) p))))
      ⊎ ((retrieve_front fault (2 ^ k) set ≡ (if fault then some (limit, set) else none))
          × All (TooSmall (2 ^ k)) set)
unfolding retrieve_front
retrieve_front_lem fault k set small a room =
    front_from fault k small set a set (λ p on. on) room (not_empty 0 set a)
  where
    not_empty : (lo : ℕ) (xs : List Region) → Apart lo xs → All (λ x. x.start < x.end) xs
    not_empty lo [] h = tt
    not_empty lo (x ∷ xs) h = (h.1, not_empty (suc x.end) xs h.2)
