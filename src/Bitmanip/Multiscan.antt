-- ===== src/Bitmanip/Multiscan.antt =====
-- multiscan of src/generic/bitmanip.h finds what a bit-by-bit search finds.
use Prim.Native.Nat.{bit_and}
use mathlib.Core.Path.{subst}
use kos_hspabla.Prelude.{
  ℕ, zero, suc, ◌+◌, ◌-◌, ◌*◌, ◌/◌, ◌%◌, ◌<◌, ◌≤◌, Bool, false, not, ◌&&◌, ◌≡◌, refl, sym, ◌∙◌, ap,
  ap₂, arith, ◌==◌, leb, ℕ_discrete,
}
use kos_hspabla.Prelude.Testbit.{testbit, testbit-bit_and, bit_and-le}
use kos_hspabla.Prelude.Search.{IsFirst, IsFirst-from}
use kos_hspabla.Basics.{mword_mod, not_mword, limit, align_down}
use kos_hspabla.Basics.Align.{align_down-eq}
use kos_hspabla.Bitmanip.{word_bits, Scan, datafield, scan_word, scan_words, multiscan, bitmask}
use kos_hspabla.Bitmanip.Round.{
  IsWords, wanted, datafield-lt, testbit-datafield, Scanned, Scanned-at, scan_word-Scanned,
}
use kos_hspabla.Bitmanip.Words.{testbit-not_mword, testbit-bitmask, bitmask-lt}

scan_words-Scanned :
    (f : Bool) {bits : ℕ → ℕ} (lo n i e : ℕ) (s : Scan)
    → IsWords bits
    → e * 64 < mword_mod
    → lo ≤ i * 64
    → i + n ≡ e
    → Scanned (wanted f bits) lo (i * 64) s
    → Scanned (wanted f bits) lo (e * 64) (scan_words f bits n i s)
unfolding scan_words
scan_words-Scanned f {bits} lo zero i e s h small under end v =
    subst (λ k. Scanned (wanted f bits) lo (k * 64) s) (omega arith) v
scan_words-Scanned f {bits} lo (suc n) i e s h small under end v =
    scan_words-Scanned f lo n (suc i) e (scan_word (datafield f bits i) s) h small (omega arith)
      (omega arith)
      (subst (λ b. Scanned (wanted f bits) lo b (scan_word (datafield f bits i) s)) (omega arith)
        (scan_word-Scanned (wanted f bits) lo (i * 64) (datafield f bits i) s (omega arith)
          (datafield-lt f i h) (λ j hj. testbit-datafield f i j h hj) under v))

-- The first word is masked below `idx`.
module _ (f : Bool) (bits : ℕ → ℕ) (idx : ℕ) (h : IsWords bits)
    (small : idx / 64 * 64 + 64 < mword_mod) where
  abbrev from_idx : ℕ → Bool
  from_idx j = wanted f bits j && leb idx j

  abbrev first_field : ℕ
  first_field = bit_and (datafield f bits (idx / 64)) (not_mword (bitmask (idx % 64)))

  testbit-first_field : (j : ℕ) → j < 64 → testbit first_field j ≡ from_idx (idx / 64 * 64 + j)
  testbit-first_field j hj =
      testbit-bit_and (datafield f bits (idx / 64)) (not_mword (bitmask (idx % 64))) j
      ∙ ap₂ ◌&&◌ (testbit-datafield f (idx / 64) j h hj) (
          testbit-not_mword (bitmask (idx % 64)) j (bitmask-lt (idx % 64)) hj
          ∙ ap not (testbit-bitmask (idx % 64) j (omega arith))
          ∙ ground arith)

  first_scan : Scan
  first_scan = scan_word first_field (record { result = align_down idx word_bits; mask = limit })

  first_scan-from_idx : Scanned from_idx (idx / 64 * 64) (idx / 64 * 64 + 64) first_scan
  unfolding first_scan
  first_scan-from_idx =
      scan_word-Scanned from_idx (idx / 64 * 64) (idx / 64 * 64) first_field _ (omega arith)
        (omega (
          arith,
          bit_and-le (datafield f bits (idx / 64)) (not_mword (bitmask (idx % 64))),
          datafield-lt f (idx / 64) h,
        ))
        testbit-first_field (omega arith)
        (Scanned-at _ (idx / 64 * 64) (align_down-eq idx 6 (omega arith) (omega arith))
          (record {
            above = omega arith;
            below = omega arith;
            skipped = λ j a b. absurd (omega arith);
            found = λ q. absurd (omega arith);
          })
          (λ _. refl) (λ q. absurd (omega arith)))

  first_scan-Scanned : Scanned (wanted f bits) idx (suc (idx / 64) * 64) first_scan
  first_scan-Scanned =
      let v = first_scan-from_idx in
      let end : suc (idx / 64) * 64 ≡ idx / 64 * 64 + 64 = omega arith in
      subst (λ b. Scanned (wanted f bits) idx b first_scan) (sym end)
        (record {
          first =
              IsFirst-from (wanted f bits) (idx / 64 * 64) idx (idx / 64 * 64 + 64)
                first_scan.result (omega arith) (omega arith) v.first;
          waiting = v.waiting;
          settled = v.settled;
        })

-- For an array of words, N with 64 N < 2 ^ 64 and idx < 64 N, the branch-free `multiscan` returns
-- the first position from idx on at which the array has a bit equal to `findset`, and 64 N if
-- there is none.
pub multiscan-IsFirst :
    (n : ℕ) (f : Bool) (bits : ℕ → ℕ) (idx : ℕ)
    → IsWords bits
    → n * 64 < mword_mod
    → idx < n * 64
    → IsFirst (wanted f bits) idx (n * 64) (multiscan n f bits idx)
unfolding multiscan first_scan
multiscan-IsFirst n f bits idx h small inside = elim (ℕ_discrete idx 0) [
  | yes e ↦
      rw e
        (scan_words-Scanned f 0 n 0 n start h small (omega arith) (omega arith) (record {
          first = record {
            above = omega arith;
            below = omega arith;
            skipped = λ j a b. absurd (omega arith);
            found = λ q. absurd (omega arith);
          };
          waiting = λ _. refl;
          settled = λ q. absurd (omega arith);
        })).first
  | no ne ↦
      let nonzero : (idx == 0) ≡ false = ground arith in
      let next : idx / 64 + 1 ≡ suc (idx / 64) = omega arith in
      rw (nonzero, next)
        (scan_words-Scanned f idx (n - suc (idx / 64)) (suc (idx / 64)) n
          (first_scan f bits idx h (omega arith)) h small (omega arith) (omega arith)
          (first_scan-Scanned f bits idx h (omega arith))).first
]
  where
    start : Scan
    start = record { result = 0; mask = limit }
