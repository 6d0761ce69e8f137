-- ===== src/Bitmanip.antt =====
-- src/generic/bitmanip.h at mword: a word is a number below 2 ^ 64, read through its bits. The
-- compiler's ctz, clz and popcount and the instructions bsf and bsr are scans over the 64 bits, by
-- the manual: bsf and bsr report a zero operand through the zero flag, which the `cmov`s test.
pub mod Words
pub mod Round
pub mod Multiscan
pub mod Reverse
pub mod Fields
mod Tests
use Prim.Native.Nat.{bit_and, bit_or, bit_xor}
use kos_hspabla.Prelude.{
  ℕ, zero, suc, ◌+◌, ◌-◌, ◌*◌, ◌/◌, ◌%◌, ◌^◌, ◌<◌, ◌≤◌, Bool, true, false, not, ◌==◌, if◌then◌else◌,
}
use kos_hspabla.Prelude.Testbit.{testbit}
use kos_hspabla.Prelude.Search.{find_up, find_down}
use kos_hspabla.Basics.{mword_mod, add_mword, sub_mword, not_mword, limit, pow2, align_down}

-- `bitsize<mword>()`
abbrev pub word_bits : ℕ
word_bits = 64

-- `x << n` and `x >> n`, for n below 64
abbrev pub shl : ℕ → ℕ → ℕ
shl x n = x * 2 ^ n % mword_mod

abbrev pub shr : ℕ → ℕ → ℕ
shr x n = x / 2 ^ n

unfoldable pub bitmask : ℕ → ℕ
bitmask width = if width == word_bits then limit else sub_mword (pow2 width) 1

unfoldable pub bitmask_at : ℕ → ℕ → ℕ
bitmask_at place width = shl (bitmask width) place

-- `__builtin_ctzl`, `__builtin_clzl` and `__builtin_popcountl`
unfoldable pub ctz : ℕ → ℕ
ctz x = find_up (testbit x) word_bits 0

unfoldable pub clz : ℕ → ℕ
clz x = word_bits - 1 - find_down (testbit x) word_bits

unfoldable pub count_up : (ℕ → Bool) → ℕ → ℕ
count_up p zero = 0
count_up p (suc n) = (if p n then 1 else 0) + count_up p n

unfoldable pub popcount : ℕ → ℕ
popcount x = count_up (testbit x) word_bits

unfoldable pub lsbcond : ℕ → ℕ → ℕ
lsbcond x alt = if x == 0 then alt else ctz x

-- The result is an int.
unfoldable pub msbcond : ℕ → ℕ → ℕ
msbcond x alt = if x == 0 then alt else word_bits - 1 - clz x

unfoldable pub lsb : ℕ → ℕ
lsb x = ctz x

unfoldable pub msb : ℕ → ℕ
msb x = word_bits - 1 - clz x

unfoldable pub floorlog2 : ℕ → ℕ
floorlog2 x = msbcond x word_bits

-- `limit<mword>()` becomes -1 as an int, and the sum 0.
unfoldable pub ceilinglog2 : ℕ → ℕ
ceilinglog2 x = (msbcond (sub_mword x 1) (2 ^ 32 - 1) + 1) % 2 ^ 32

unfoldable pub alignment : ℕ → ℕ
alignment x = lsbcond x word_bits

-- `BitString<mword, Pos, Width>`: `put`, `get` and `excl` of a field.
module _ (place width : ℕ) where
  unfoldable pub put : ℕ → ℕ
  put f = shl (bit_and f (bitmask width)) place

  unfoldable pub get : ℕ → ℕ
  get f = bit_and (shr f place) (bitmask width)

  unfoldable pub excl : ℕ → ℕ
  excl f = bit_and f (not_mword (bitmask_at place width))

-- The atomic and the plain version leave the same word.
unfoldable pub bit_set : ℕ → ℕ → ℕ
bit_set a idx = bit_or a (shl 1 idx)

unfoldable pub bit_clr : ℕ → ℕ → ℕ
bit_clr a idx = bit_and a (not_mword (shl 1 idx))

unfoldable pub bit_flp : ℕ → ℕ → ℕ
bit_flp a idx = bit_xor a (shl 1 idx)

-- The variables that one round of a scan changes; `mask` and `newmask` agree between rounds.
pub record Scan : Type 0 where
  pub result : ℕ
  pub mask : ℕ

-- `findset ? data[i] : ~data[i]`
unfoldable pub datafield : Bool → (ℕ → ℕ) → ℕ → ℕ
datafield findset data_at i = if findset then data_at i else not_mword (data_at i)

-- bsfq, the two cmovs, and the two statements that follow them.
unfoldable pub scan_word : ℕ → Scan → Scan
scan_word field s =
    let scan = if field == 0 then word_bits else ctz field in
    let newmask = if field == 0 then s.mask else 0 in
    record { result = add_mword s.result (bit_and scan s.mask); mask = newmask }

-- The loop `for (; i < N; i++)`, with the rounds that are left.
unfoldable pub scan_words : Bool → (ℕ → ℕ) → ℕ → ℕ → Scan → Scan
scan_words findset data_at zero i s = s
scan_words findset data_at (suc n) i s =
    scan_words findset data_at n (suc i) (scan_word (datafield findset data_at i) s)

unfoldable pub multiscan : ℕ → Bool → (ℕ → ℕ) → ℕ → ℕ
multiscan n findset data_at idx =
    let i = idx / word_bits in
    if idx == 0
    then (scan_words findset data_at n i (record { result = 0; mask = limit })).result
    else (scan_words findset data_at (n - (i + 1)) (i + 1) (
        scan_word (bit_and (datafield findset data_at i) (not_mword (bitmask (idx % word_bits))))
          (record { result = align_down idx word_bits; mask = limit }))).result

-- bsrq of a word that is zero leaves 0 in `scan` by the first cmov.
unfoldable pub scan_word_rev : ℕ → Scan → Scan
scan_word_rev field s =
    let scan = if field == 0 then 0 else find_down (testbit field) word_bits in
    let newmask = if field == 0 then s.mask else 0 in
    record {
      result =
          add_mword s.result
            (add_mword (bit_and scan s.mask) (bit_and word_bits (not_mword s.mask)));
      mask = newmask;
    }

-- `do { i -= 1; … } while (i != 0)` from i = N.
unfoldable pub scan_words_rev : Bool → (ℕ → ℕ) → ℕ → Scan → Scan
scan_words_rev findset data_at zero s = s
scan_words_rev findset data_at (suc i) s =
    scan_words_rev findset data_at i (scan_word_rev (datafield findset data_at i) s)

unfoldable pub multiscan_rev : ℕ → Bool → (ℕ → ℕ) → ℕ
multiscan_rev n findset data_at =
    (scan_words_rev findset data_at n (record { result = 0; mask = limit })).result
