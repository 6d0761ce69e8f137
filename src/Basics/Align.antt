-- ===== src/Basics/Align.antt =====
-- The helpers of src/generic/basics.h against plain rounding by division.
use Prim.Native.Nat.{bit_and}
use mathlib.Core.Path.{◌≡⟨◌⟩◌, ◌∎}
use native.Mathlib.Nat.{
  pow-suc, add-zero, mul-one, add-suc, div-add-mod, mod-lt, mul-mod_left, div-lt_iff_lt-mul,
  div-le_self,
}
use kos_hspabla.Prelude.{
  ℕ, zero, suc, ◌+◌, ◌-◌, ◌*◌, ◌/◌, ◌%◌, ◌^◌, ◌<◌, ◌≤◌, true, ◌≡◌, refl, sym, ap, ap₂, ◌∙◌, ◌↔◌,
  arith, ==_iff, dec_lt,
}
use kos_hspabla.Prelude.Bits.{bit_and_low, bit_and_high, pow_pos}
use kos_hspabla.Basics.{
  mword_mod, sub_mword, add_mword, not_mword, align_up, align_down, aligned, divup,
}

pub pow_add : (a b : ℕ) → 2 ^ (a + b) ≡ 2 ^ a * 2 ^ b
pow_add a zero = ap (λ (n : ℕ). 2 ^ n) (add-zero a) ∙ sym (mul-one _)
pow_add a (suc b) =
    2 ^ (a + suc b)
    ≡⟨ ap (λ (n : ℕ). 2 ^ n) (add-suc a b) ⟩ 2 ^ suc (a + b)
    ≡⟨ pow-suc 2 (a + b) ⟩ 2 ^ (a + b) * 2
    ≡⟨ omega (arith, pow_add a b, ap (λ (n : ℕ). 2 ^ a * n) (pow-suc 2 b)) ⟩ 2 ^ a * 2 ^ suc b ∎

pub split_width : (k : ℕ) → k < 64 → 2 ^ (64 - k) * 2 ^ k ≡ mword_mod
split_width k h = sym (pow_add (64 - k) k) ∙ ap (λ (n : ℕ). 2 ^ n) {y = 64} (omega arith)

pow_sub : (k : ℕ) → k < 64 → 2 ^ (64 - k) ≡ 2 ^ (63 - k) * 2
pow_sub k h = ap (λ (n : ℕ). 2 ^ n) {y = suc (63 - k)} (omega arith) ∙ pow-suc 2 (63 - k)

double_le : (a b : ℕ) → 0 < b → a * 2 ≤ b * 2 * a
double_le a b h = grind arith

pub pow-lt-mword : (k : ℕ) → k < 64 → 2 ^ k * 2 ≤ mword_mod
pow-lt-mword k h =
    rw (← split_width k h, pow_sub k h) (double_le (2 ^ k) (2 ^ (63 - k)) (pow_pos (63 - k)))

pub pow-le-mword : (k : ℕ) → k ≤ 64 → 2 ^ k ≤ mword_mod
pow-le-mword k h = elim (dec_lt k 64) [
  | yes p ↦ omega (arith, pow-lt-mword k p)
  | no p ↦ let e : k ≡ 64 = omega arith in rw e (omega arith)
]

sub_one_mul : (p q : ℕ) → (p - 1) * q ≡ p * q - q
sub_one_mul zero q = omega arith
sub_one_mul (suc p) q = let e : suc p - 1 ≡ p = omega arith in rw e (omega arith)

-- `~(a - 1)` at a power of two keeps the upper bits.
align_mask : (k : ℕ) → k < 64 → not_mword (sub_mword (2 ^ k) 1) ≡ (2 ^ (64 - k) - 1) * 2 ^ k
align_mask k h =
    omega (arith, sub_one_mul (2 ^ (64 - k)) (2 ^ k), split_width k h, pow-lt-mword k h, pow_pos k)

-- Aligning down to a power of two is rounding down to a multiple of it.
pub align_down-eq : (x k : ℕ) → x < mword_mod → k < 64 → align_down x (2 ^ k) ≡ x / 2 ^ k * 2 ^ k
unfolding align_down
align_down-eq x k hx hk =
    ap (bit_and x) (align_mask k hk) ∙ bit_and_high k (64 - k) x (omega (arith, split_width k hk))

pub align_up-eq :
    (x k : ℕ)
    → k < 64
    → x + 2 ^ k ≤ mword_mod
    → align_up x (2 ^ k) ≡ (x + 2 ^ k - 1) / 2 ^ k * 2 ^ k
unfolding align_up
align_up-eq x k hk room =
    ap₂ bit_and sum (align_mask k hk)
    ∙ bit_and_high k (64 - k) (x + 2 ^ k - 1) (omega (arith, split_width k hk, pow_pos k))
  where
    sum : sub_mword (add_mword x (2 ^ k)) 1 ≡ x + 2 ^ k - 1
    sum = elim (dec_lt (x + 2 ^ k) mword_mod) [
      | yes p ↦ omega (arith, pow_pos k)
      | no p ↦ let e : x + 2 ^ k ≡ mword_mod = omega arith in rw e refl
    ]

mul_mono : {p q : ℕ} (a : ℕ) → p ≤ q → p * a ≤ q * a
mul_mono a h = grind arith

round_up :
    (x a : ℕ)
    → 0 < a
    → (x ≤ (x + a - 1) / a * a)
      × ((x + a - 1) / a * a % a ≡ 0)
      × ((m : ℕ) → x ≤ m * a → (x + a - 1) / a * a ≤ m * a)
round_up x a h = (
  omega (arith, div-add-mod (x + a - 1) a, mod-lt (x + a - 1) h),
  mul-mod_left ((x + a - 1) / a) a,
  λ m hm. mul_mono a (quotient m hm),
)
  where
    quotient : (m : ℕ) → x ≤ m * a → (x + a - 1) / a ≤ m
    quotient m hm = omega (arith, (div-lt_iff_lt-mul {x = x + a - 1} {y = suc m} h).1 (omega arith))

-- For k < 64 and x + 2 ^ k ≤ 2 ^ 64, `align_up` of x to 2 ^ k is the least multiple of 2 ^ k that
-- is not below x.
pub align_up_least :
    (x k : ℕ)
    → k < 64
    → x + 2 ^ k ≤ mword_mod
    → (x ≤ align_up x (2 ^ k))
      × (align_up x (2 ^ k) % 2 ^ k ≡ 0)
      × ((m : ℕ) → x ≤ m * 2 ^ k → align_up x (2 ^ k) ≤ m * 2 ^ k)
align_up_least x k hk room = rw (align_up-eq x k hk room) (round_up x (2 ^ k) (pow_pos k))

-- For k < 64, `aligned` holds of x and 2 ^ k exactly if 2 ^ k divides x.
pub aligned_iff : (x k : ℕ) → k < 64 → (aligned x (2 ^ k) ≡ true) ↔ (x % 2 ^ k ≡ 0)
unfolding aligned
aligned_iff x k hk = rw (← e) (==_iff _ 0)
  where
    e : bit_and x (sub_mword (2 ^ k) 1) ≡ x % 2 ^ k
    e =
        ap (bit_and x) {y = 2 ^ k - 1} (omega (arith, pow-lt-mword k hk, pow_pos k))
        ∙ bit_and_low k x

-- For 0 < n < 2 ^ 64 and 0 < d, `divup` n d is the quotient rounded up: n ≤ divup n d * d < n +
-- d.
pub divup_bounds :
    (n d : ℕ) → 0 < n → n < mword_mod → 0 < d → (n ≤ divup n d * d) × (divup n d * d < n + d)
unfolding divup
divup_bounds n d hn hw hd = rw value (omega (arith, div-add-mod (n - 1) d, mod-lt (n - 1) hd))
  where
    value : divup n d ≡ (n - 1) / d + 1
    value =
        let e : sub_mword n 1 ≡ n - 1 = omega arith in rw e (omega (arith, div-le_self (n - 1) d))
