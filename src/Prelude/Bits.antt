-- ===== src/Prelude/Bits.antt =====
-- The digit recursion of the bitwise operations, and `bit_and` with a mask, for every width.
use Prim.Native.Nat.{
  ℕ, zero, suc, ◌+◌, ◌-◌, ◌*◌, ◌/◌, ◌%◌, ◌^◌, ◌≤◌, ◌<◌, min, max, bit_and, bit_or, bit_xor, digits,
  bitwise, differ, bit_and-bitwise, bit_or-bitwise, bit_xor-bitwise,
}
use mathlib.Core.Path.{◌≡◌, refl, sym, ap, ap₂, ◌∙◌, ◌≡⟨◌⟩◌, ◌∎}
use native.Mathlib.Nat.{pow-suc, div-div-eq-div-mul, mul_comm, div-add-mod, mod-eq_of_lt}
use native.Mathlib.Omega.{arith}
use native.Mathlib.Decide.{ℕ_discrete}

-- The law for the lowest digit of any operation, from the definition that the native ones stand
-- for: `z` is the result once the first number has run out.
module _ (z : ℕ → ℕ) (f : ℕ → ℕ → ℕ) where
  -- One unit of fuel more than the number has digits changes nothing, nor do several.
  one_spare :
      (fuel x y : ℕ) → x ≤ fuel → ◌≡◌ {A = ℕ} (digits z f (suc fuel) x y) (digits z f fuel x y)
  one_spare zero zero y fits = refl
  one_spare zero (suc x) y fits = absurd (omega arith)
  one_spare (suc fuel) zero y fits = refl
  one_spare (suc fuel) (suc x) y fits =
      ap (λ (high : ℕ). high * 2 + f (suc x % 2) (y % 2))
        (one_spare fuel (suc x / 2) (y / 2) (omega arith))

  to_bitwise : (fuel x y : ℕ) → x ≤ fuel → ◌≡◌ {A = ℕ} (digits z f fuel x y) (bitwise z f x y)
  to_bitwise zero zero y fits = refl
  to_bitwise zero (suc x) y fits = absurd (omega arith)
  to_bitwise (suc fuel) x y fits = elim (ℕ_discrete (suc fuel) x) [
    | yes least ↦ ap (λ (k : ℕ). digits z f k x y) least
    | no more ↦ one_spare fuel x y (omega arith) ∙ to_bitwise fuel x y (omega arith)
  ]

  digits_step :
      ((b : ℕ) → z b ≡ z (b / 2) * 2 + f 0 (b % 2))
      → (x y : ℕ) → bitwise z f x y ≡ bitwise z f (x / 2) (y / 2) * 2 + f (x % 2) (y % 2)
  digits_step hz zero y = hz y
  digits_step hz (suc x) y =
      ap (λ (high : ℕ). high * 2 + f (suc x % 2) (y % 2))
        (to_bitwise x (suc x / 2) (y / 2) (omega arith))

pub bit_and_step : (a b : ℕ) → bit_and a b ≡ bit_and (a / 2) (b / 2) * 2 + min (a % 2) (b % 2)
bit_and_step a b = omega (
  arith,
  bit_and-bitwise a b,
  bit_and-bitwise (a / 2) (b / 2),
  digits_step (λ b. zero) min (λ b. omega arith) a b,
)

pub bit_or_step : (a b : ℕ) → bit_or a b ≡ bit_or (a / 2) (b / 2) * 2 + max (a % 2) (b % 2)
bit_or_step a b = omega (
  arith,
  bit_or-bitwise a b,
  bit_or-bitwise (a / 2) (b / 2),
  digits_step (λ b. b) max (λ b. omega arith) a b,
)

pub bit_xor_step : (a b : ℕ) → bit_xor a b ≡ bit_xor (a / 2) (b / 2) * 2 + differ (a % 2) (b % 2)
bit_xor_step a b = omega (
  arith,
  bit_xor-bitwise a b,
  bit_xor-bitwise (a / 2) (b / 2),
  digits_step (λ b. b) differ (λ b. omega arith) a b,
)

pub zero-bit_and : (b : ℕ) → bit_and 0 b ≡ 0
zero-bit_and b = bit_and-bitwise 0 b

no_common_digit : (fuel x : ℕ) → digits (λ y. zero) min fuel x 0 ≡ 0
no_common_digit zero x = refl
no_common_digit (suc fuel) zero = refl
no_common_digit (suc fuel) (suc x) = omega (arith, no_common_digit fuel (suc x / 2))

pub bit_and-zero : (a : ℕ) → bit_and a 0 ≡ 0
bit_and-zero a = bit_and-bitwise a 0 ∙ no_common_digit a a

pub pow_pos : (n : ℕ) → 0 < 2 ^ n
pow_pos zero = omega arith
pow_pos (suc n) = rw pow-suc (omega (arith, pow_pos n))

pub mod_double : (x p : ℕ) → 0 < p → x % (p * 2) ≡ x / 2 % p * 2 + x % 2
mod_double x p h = omega (arith, div-add-mod x (p * 2), div-add-mod (x / 2) p, quotients)
  where
    quotients : p * 2 * (x / (p * 2)) ≡ p * 2 * (x / 2 / p)
    quotients =
        ap (λ (q : ℕ). p * 2 * q)
          (ap (λ (m : ℕ). x / m) (mul_comm p 2) ∙ sym (div-div-eq-div-mul x 2 p))

-- A mask of the n lowest bits keeps the remainder.
pub bit_and_low : (n x : ℕ) → bit_and x (2 ^ n - 1) ≡ x % 2 ^ n
bit_and_low zero x = omega (arith, bit_and-zero x)
bit_and_low (suc n) x =
    bit_and x (2 ^ suc n - 1)
    ≡⟨ bit_and_step x (2 ^ suc n - 1) ⟩
      bit_and (x / 2) ((2 ^ suc n - 1) / 2) * 2 + min (x % 2) ((2 ^ suc n - 1) % 2)
    ≡⟨ ap₂ (λ (a b : ℕ). bit_and (x / 2) a * 2 + min (x % 2) b) half odd ⟩
      bit_and (x / 2) (2 ^ n - 1) * 2 + min (x % 2) 1
    ≡⟨ omega (
      arith,
      bit_and_low n (x / 2),
      mod_double x (2 ^ n) (pow_pos n),
      ap (λ (m : ℕ). x % m) (pow-suc 2 n),
    ) ⟩
      x % 2 ^ suc n ∎
  where
    half : (2 ^ suc n - 1) / 2 ≡ 2 ^ n - 1
    half = rw pow-suc (omega (arith, pow_pos n))

    odd : (2 ^ suc n - 1) % 2 ≡ 1
    odd = rw pow-suc (omega (arith, pow_pos n))

bit_and-all : (n x : ℕ) → x < 2 ^ n → bit_and x (2 ^ n - 1) ≡ x
bit_and-all n x h = bit_and_low n x ∙ mod-eq_of_lt h

-- A mask without the k lowest of n + k bits rounds down.
pub bit_and_high :
    (k n x : ℕ) → x < 2 ^ n * 2 ^ k → bit_and x ((2 ^ n - 1) * 2 ^ k) ≡ x / 2 ^ k * 2 ^ k
bit_and_high zero n x h = ap (bit_and x) (omega arith) ∙ bit_and-all n x (omega arith) ∙ omega arith
bit_and_high (suc k) n x h =
    bit_and x ((2 ^ n - 1) * 2 ^ suc k)
    ≡⟨ bit_and_step x ((2 ^ n - 1) * 2 ^ suc k) ⟩
      bit_and (x / 2) ((2 ^ n - 1) * 2 ^ suc k / 2) * 2 + min (x % 2) ((2 ^ n - 1) * 2 ^ suc k % 2)
    ≡⟨ ap₂ (λ (a b : ℕ). bit_and (x / 2) a * 2 + min (x % 2) b) half even ⟩
      bit_and (x / 2) ((2 ^ n - 1) * 2 ^ k) * 2 + min (x % 2) 0
    ≡⟨ ap (λ (a : ℕ). a * 2 + min (x % 2) 0) (bit_and_high k n (x / 2) below) ⟩
      x / 2 / 2 ^ k * 2 ^ k * 2 + min (x % 2) 0
    ≡⟨ finish ⟩ x / 2 ^ suc k * 2 ^ suc k ∎
  where
    shape : (2 ^ n - 1) * 2 ^ suc k ≡ (2 ^ n - 1) * 2 ^ k * 2
    shape = rw pow-suc (omega arith)

    half : (2 ^ n - 1) * 2 ^ suc k / 2 ≡ (2 ^ n - 1) * 2 ^ k
    half = omega (arith, shape)

    even : (2 ^ n - 1) * 2 ^ suc k % 2 ≡ 0
    even = omega (arith, shape)

    below : x / 2 < 2 ^ n * 2 ^ k
    below = omega (arith, ap (λ (m : ℕ). 2 ^ n * m) (pow-suc 2 k))

    finish : x / 2 / 2 ^ k * 2 ^ k * 2 + min (x % 2) 0 ≡ x / 2 ^ suc k * 2 ^ suc k
    finish = rw (pow-suc, div-div-eq-div-mul x 2 (2 ^ k), mul_comm 2 (2 ^ k)) (omega arith)
