-- ===== src/Bitmap/Laws.antt =====
-- `class Bitmap` of src/generic/Bitmap.h, bit by bit.
use kos_hspabla.Prelude.{
  ℕ, ◌/◌, ◌%◌, ◌<◌, Bool, true, false, not, ◌≡◌, refl, ◌∙◌, ap, arith, ◌==◌, if◌then◌else◌, update,
  update_ne, ℕ_discrete,
}
use kos_hspabla.Prelude.Testbit.{testbit}
use kos_hspabla.Basics.{mword_mod}
use kos_hspabla.Bitmanip.{bit_set, bit_clr, bit_flp}
use kos_hspabla.Bitmanip.Words.{
  bit_and-shl_one, testbit-bit_set, testbit-bit_clr, testbit-bit_flp, bit_set-lt, bit_clr-lt,
  bit_flp-lt,
}
use kos_hspabla.Bitmanip.Round.{IsWords, bit_at}
use kos_hspabla.Bitmap.{Bitmap, set, clr, flp, test}

-- The test of the code reads the bit.
pub test-eq : (bits : Bitmap) (j : ℕ) → IsWords bits → test bits j ≡ bit_at bits j
unfolding test
test-eq bits j h =
    ap not (bit_and-shl_one (bits (j / 64)) (j % 64) (h (j / 64)) (omega arith))
    ∙ twice (bit_at bits j)
  where
    twice : (b : Bool) → not (not b) ≡ b
    twice true = refl
    twice false = refl

update-IsWords :
    {bits : Bitmap} (i v : ℕ) → IsWords bits → v < mword_mod → IsWords (update bits i v)
update-IsWords i v h hv j = ground (arith, h j)

pub set-IsWords : {bits : Bitmap} (idx : ℕ) → IsWords bits → IsWords (set bits idx)
unfolding set
set-IsWords {bits} idx h =
    update-IsWords (idx / 64) _ h (bit_set-lt (bits (idx / 64)) (idx % 64) (h (idx / 64)))

pub clr-IsWords : {bits : Bitmap} (idx : ℕ) → IsWords bits → IsWords (clr bits idx)
unfolding clr
clr-IsWords {bits} idx h =
    update-IsWords (idx / 64) _ h (bit_clr-lt (bits (idx / 64)) (idx % 64) (h (idx / 64)))

pub flp-IsWords : {bits : Bitmap} (idx : ℕ) → IsWords bits → IsWords (flp bits idx)
unfolding flp
flp-IsWords {bits} idx h =
    update-IsWords (idx / 64) _ h (bit_flp-lt (bits (idx / 64)) (idx % 64) (h (idx / 64)))

-- One bit of one word changes: `g` is what becomes of it.
bit_at-update :
    (g : Bool → Bool) (bits : Bitmap) (idx j w : ℕ)
    → ((i : ℕ)
        → i < 64
        → testbit w i ≡ (
            if idx % 64 == i then g (testbit (bits (idx / 64)) i) else testbit (bits (idx / 64)) i))
    → bit_at (update bits (idx / 64) w) j ≡ (if idx == j then g (bit_at bits j) else bit_at bits j)
bit_at-update g bits idx j w h = elim (ℕ_discrete (idx / 64) (j / 64)) [
  | yes same ↦
      let written : update bits (idx / 64) w (j / 64) ≡ w = update_at (idx / 64) (j / 64) w same in
      let bit : Bool = testbit (bits (j / 64)) (j % 64) in
      let place : (idx % 64 == j % 64) ≡ (idx == j) = ground arith in
      ap (λ v. testbit v (j % 64)) written
      ∙ h (j % 64) (omega arith)
      ∙ ap
          (λ q.
            if idx % 64 == j % 64 then g (testbit (bits q) (j % 64)) else testbit (bits q) (j % 64))
          same
      ∙ ap (λ b. if b then g bit else bit) place
  | no other ↦
      let apart : (idx == j) ≡ false = ground arith in
      ap (λ v. testbit v (j % 64)) (update_ne bits (idx / 64) (j / 64) w other) ∙ rw apart
]
  where
    update_at : (i k v : ℕ) → i ≡ k → update bits i v k ≡ v
    update_at i k v e = ground arith

pub bit_at-set :
    (bits : Bitmap) (idx j : ℕ)
    → bit_at (set bits idx) j ≡ (if idx == j then true else bit_at bits j)
unfolding set
bit_at-set bits idx j =
    bit_at-update (λ _. true) bits idx j (bit_set (bits (idx / 64)) (idx % 64))
      λ i hi. testbit-bit_set (bits (idx / 64)) (idx % 64) i (omega arith)

pub bit_at-clr :
    (bits : Bitmap) (idx j : ℕ)
    → bit_at (clr bits idx) j ≡ (if idx == j then false else bit_at bits j)
unfolding clr
bit_at-clr bits idx j =
    bit_at-update (λ _. false) bits idx j (bit_clr (bits (idx / 64)) (idx % 64))
      λ i hi. testbit-bit_clr (bits (idx / 64)) (idx % 64) i (omega arith) hi

bit_at-flp :
    (bits : Bitmap) (idx j : ℕ)
    → bit_at (flp bits idx) j ≡ (if idx == j then not (bit_at bits j) else bit_at bits j)
unfolding flp
bit_at-flp bits idx j =
    bit_at-update not bits idx j (bit_flp (bits (idx / 64)) (idx % 64))
      λ i hi. testbit-bit_flp (bits (idx / 64)) (idx % 64) i (omega arith)

-- For a map of words, after `set`, `clr` or `flp` at an index, `test` reads true, false or the
-- opposite at that index, and at any other index what it read before.
pub test-set-clr-flp :
    (bits : Bitmap) (idx j : ℕ)
    → IsWords bits
    → (test (set bits idx) j ≡ (if idx == j then true else test bits j))
      × (test (clr bits idx) j ≡ (if idx == j then false else test bits j))
      × (test (flp bits idx) j ≡ (if idx == j then not (test bits j) else test bits j))
test-set-clr-flp bits idx j h = rw (test-eq bits j h) (
  test-eq (set bits idx) j (set-IsWords idx h) ∙ bit_at-set bits idx j,
  test-eq (clr bits idx) j (clr-IsWords idx h) ∙ bit_at-clr bits idx j,
  test-eq (flp bits idx) j (flp-IsWords idx h) ∙ bit_at-flp bits idx j,
)
