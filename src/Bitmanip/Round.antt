-- ===== src/Bitmanip/Round.antt =====
-- One round of the scans of src/generic/bitmanip.h: the word under the asm block against a search
-- over its bits.
use Prim.Native.Nat.{bit_and}
use mathlib.Core.Path.{subst}
use kos_hspabla.Prelude.{
  ℕ, ◌+◌, ◌-◌, ◌*◌, ◌/◌, ◌%◌, ◌<◌, ◌≤◌, Bool, true, false, not, ◌≡◌, ◌≢◌, refl, sym, ◌∙◌, ap, ap₂,
  arith, ◌==◌, if◌then◌else◌, dec_lt, ℕ_discrete,
}
use kos_hspabla.Prelude.Bits.{bit_and_low, bit_and-zero}
use kos_hspabla.Prelude.Testbit.{testbit, zero-testbit, eq-zero_of_testbit}
use kos_hspabla.Prelude.Search.{IsFirst, find_up-IsFirst}
use kos_hspabla.Basics.{mword_mod, not_mword, limit, add_mword}
use kos_hspabla.Bitmanip.{word_bits, ctz, Scan, datafield, scan_word}
use kos_hspabla.Bitmanip.Words.{testbit-not_mword}

-- Every word of an array is an mword.
abbrev pub IsWords : (ℕ → ℕ) → Type 0
IsWords bits = (i : ℕ) → bits i < mword_mod

-- Bit `j` of an array of words, and whether a scan for `findset` stops there.
abbrev pub bit_at : (ℕ → ℕ) → ℕ → Bool
bit_at bits j = testbit (bits (j / 64)) (j % 64)

abbrev pub wanted : Bool → (ℕ → ℕ) → ℕ → Bool
wanted findset bits j = if findset then bit_at bits j else not (bit_at bits j)

pub datafield-lt : (f : Bool) {bits : ℕ → ℕ} (i : ℕ) → IsWords bits → datafield f bits i < mword_mod
unfolding datafield
datafield-lt true i h = h i
datafield-lt false i h = omega arith

pub testbit-datafield :
    (f : Bool) {bits : ℕ → ℕ} (i j : ℕ)
    → IsWords bits
    → j < 64
    → testbit (datafield f bits i) j ≡ wanted f bits (i * 64 + j)
unfolding datafield
testbit-datafield f {bits} i j h hj =
    let word : (i * 64 + j) / 64 ≡ i = omega arith in
    let place : (i * 64 + j) % 64 ≡ j = omega arith in rw (word, place) (pick f)
  where
    pick :
        (f : Bool)
        → testbit (if f then bits i else not_mword (bits i)) j
          ≡ (if f then testbit (bits i) j else not (testbit (bits i) j))
    pick true = refl
    pick false = testbit-not_mword (bits i) j (h i) hj

pub ctz-IsFirst : (field : ℕ) → IsFirst (testbit field) 0 64 (ctz field)
unfolding ctz
ctz-IsFirst field = find_up-IsFirst (testbit field) 64 0 64 refl

-- bsf of a word that is not zero finds a bit.
pub ctz-lt : (field : ℕ) → field < mword_mod → field ≢ 0 → ctz field < 64
ctz-lt field h ne = elim (dec_lt (ctz field) 64) [
  | yes p ↦ p
  | no p ↦ absurd (
      ne (
        eq-zero_of_testbit 64 field h
          (λ i hi. scan.skipped i (omega arith) (omega (arith, scan.below)))))
]
  where
    scan : IsFirst (testbit field) 0 64 (ctz field)
    scan = ctz-IsFirst field

-- What the scans know before the word at `base`: the first position of [lo, base) is found and the
-- mask is down, or there is none and the mask is up.
pub record Scanned (p : ℕ → Bool) (lo base : ℕ) (s : Scan) : Type 0 where
  pub first : IsFirst p lo base s.result
  pub waiting : s.result ≡ base → s.mask ≡ limit
  pub settled : s.result < base → s.mask ≡ 0

pub Scanned-at :
    {p : ℕ → Bool} {lo hi : ℕ} (s : Scan) (r : ℕ)
    → s.result ≡ r
    → IsFirst p lo hi r
    → (r ≡ hi → s.mask ≡ limit)
    → (r < hi → s.mask ≡ 0)
    → Scanned p lo hi s
Scanned-at {p} {lo} {hi} s r e f w d = record {
  first = subst (IsFirst p lo hi) (sym e) f;
  waiting = λ h. w (sym e ∙ h);
  settled = λ h. d (subst (λ x. x < hi) e h);
}

pub keep_all : (x : ℕ) → x ≤ 64 → bit_and x limit ≡ x
keep_all x h = bit_and_low 64 x ∙ omega arith

abbrev scan_of : ℕ → ℕ
scan_of field = if field == 0 then word_bits else ctz field

module _ (p : ℕ → Bool) (lo base field : ℕ) (s : Scan) (small : base + 64 < mword_mod)
    (word : field < mword_mod) (bits : (j : ℕ) → j < 64 → testbit field j ≡ p (base + j)) where
  scan_word-settled :
      Scanned p lo base s → s.result < base → Scanned p lo (base + 64) (scan_word field s)
  unfolding scan_word
  scan_word-settled v before =
      Scanned-at (scan_word field s) s.result kept
        (record {
          above = v.first.above;
          below = omega arith;
          skipped = v.first.skipped;
          found = λ _. v.first.found before;
        })
        (λ h. absurd (omega arith)) (λ _. ground (arith, v.settled before))
    where
      kept : add_mword s.result (bit_and (scan_of field) s.mask) ≡ s.result
      kept =
          omega
            (arith, ap (bit_and (scan_of field)) (v.settled before), bit_and-zero (scan_of field))

  -- No bit of the word is wanted, or `c` is the first.
  scan_word-waiting :
      (c : ℕ)
      → Scanned p lo base s
      → s.result ≡ base
      → lo ≤ base
      → scan_of field ≡ c
      → IsFirst (testbit field) 0 64 c
      → (c ≡ 64 → field ≡ 0)
      → (c < 64 → field ≢ 0)
      → Scanned p lo (base + 64) (scan_word field s)
  unfolding scan_word
  scan_word-waiting c v here under e first empty hit =
      Scanned-at (scan_word field s) (base + c) moved
        (record {
          above = omega arith;
          below = omega (arith, first.below);
          skipped = λ j a b. elim (dec_lt j base) [
            | yes old ↦ v.first.skipped j a (omega arith)
            | no new ↦
                let place : base + (j - base) ≡ j = omega arith in
                subst (λ i. p i ≡ false) place
                  (sym (bits (j - base) (omega (arith, first.below)))
                    ∙ first.skipped (j - base) (omega arith) (omega arith))
          ];
          found = λ h. sym (bits c (omega arith)) ∙ first.found (omega arith);
        })
        (λ h. ground (arith, v.waiting here, empty (omega arith)))
        (λ h. ground (arith, hit (omega arith)))
    where
      moved : add_mword s.result (bit_and (scan_of field) s.mask) ≡ base + c
      moved = omega (arith, ap₂ bit_and e (v.waiting here), keep_all c first.below, first.below)

  pub scan_word-Scanned :
      lo ≤ base → Scanned p lo base s → Scanned p lo (base + 64) (scan_word field s)
  scan_word-Scanned under v = elim (dec_lt s.result base) [
    | yes before ↦ scan_word-settled v before
    | no after ↦
        let here : s.result ≡ base = omega (arith, v.first.below) in
        elim (ℕ_discrete field 0) [
          | yes e ↦
              scan_word-waiting 64 v here under (ground arith)
                (record {
                  above = omega arith;
                  below = omega arith;
                  skipped = λ j a b. ap (λ n. testbit n j) e ∙ zero-testbit j;
                  found = λ h. absurd (omega arith);
                })
                (λ _. e) (λ h. absurd (omega arith))
          | no ne ↦
              scan_word-waiting (ctz field) v here under (ground arith) (ctz-IsFirst field)
                (λ h. absurd (omega (arith, ctz-lt field word ne))) (λ _. ne)
        ]
  ]
