-- ===== src/Prelude/Shift.antt =====
-- Shifts, remainders and masks read bit by bit, and extensionality of words.
use native.Mathlib.Nat.{pow-suc, div-div-eq-div-mul, mul_comm}
use kos_hspabla.Prelude.{
  ℕ, zero, suc, ◌+◌, ◌-◌, ◌*◌, ◌/◌, ◌%◌, ◌^◌, ◌<◌, false, ◌&&◌, ◌≡◌, sym, ◌∙◌, ap, ap₂, arith,
  if◌then◌else◌, ltb,
}
use kos_hspabla.Prelude.Bits.{pow_pos, mod_double}
use kos_hspabla.Prelude.Testbit.{testbit, zero-testbit}

-- Words with the same bits are the same.
pub eq_of_testbit :
    (n x y : ℕ) → x < 2 ^ n → y < 2 ^ n → ((i : ℕ) → i < n → testbit x i ≡ testbit y i) → x ≡ y
eq_of_testbit zero x y hx hy h = omega arith
eq_of_testbit (suc n) x y hx hy h = ground (
  arith,
  h 0 (omega arith),
  eq_of_testbit n (x / 2) (y / 2) (omega (arith, pow-suc 2 n)) (omega (arith, pow-suc 2 n))
      (λ i hi. h (suc i) (omega arith)),
)

pub testbit-mod : (m x j : ℕ) → testbit (x % 2 ^ m) j ≡ (ltb j m && testbit x j)
testbit-mod zero x j =
    ap (λ (n : ℕ). testbit n j) {y = 0} (omega arith) ∙ zero-testbit j ∙ ground arith
testbit-mod (suc m) x zero = ground (arith, low)
  where
    low : x % 2 ^ suc m % 2 ≡ x % 2
    low = omega (arith, mod_double x (2 ^ m) (pow_pos m), ap (λ (p : ℕ). x % p) (pow-suc 2 m))
testbit-mod (suc m) x (suc j) =
    ap (λ (n : ℕ). testbit n j) high ∙ testbit-mod m (x / 2) j ∙ ground arith
  where
    high : x % 2 ^ suc m / 2 ≡ x / 2 % 2 ^ m
    high = omega (arith, mod_double x (2 ^ m) (pow_pos m), ap (λ (p : ℕ). x % p) (pow-suc 2 m))

pub testbit-div : (n x j : ℕ) → testbit (x / 2 ^ n) j ≡ testbit x (n + j)
testbit-div zero x j =
    let same : x / 2 ^ 0 ≡ x = omega arith in
    let place : j ≡ 0 + j = omega arith in ap₂ testbit same place
testbit-div (suc n) x j =
    ap (λ (m : ℕ). testbit m j) halves
    ∙ testbit-div n (x / 2) j
    ∙ (let place : suc (n + j) ≡ suc n + j = omega arith in ap (testbit x) place)
  where
    halves : x / 2 ^ suc n ≡ x / 2 / 2 ^ n
    halves =
        ap (λ (m : ℕ). x / m) (pow-suc 2 n ∙ mul_comm (2 ^ n) 2)
        ∙ sym (div-div-eq-div-mul x 2 (2 ^ n))

pub testbit-mul :
    (n x j : ℕ) → testbit (x * 2 ^ n) j ≡ (if ltb j n then false else testbit x (j - n))
testbit-mul zero x j =
    let same : x * 2 ^ 0 ≡ x = omega arith in
    let place : j ≡ j - 0 = omega arith in ap₂ testbit same place ∙ ground arith
testbit-mul (suc n) x zero = ground (arith, ap (λ (m : ℕ). x * m) (pow-suc 2 n))
testbit-mul (suc n) x (suc j) =
    ap (λ (m : ℕ). testbit m j) {y = x * 2 ^ n} (omega (arith, ap (λ (m : ℕ). x * m) (pow-suc 2 n)))
    ∙ testbit-mul n x j
    ∙ (let place : j - n ≡ suc j - suc n = omega arith in
        ap (λ (m : ℕ). if ltb j n then false else testbit x m) place)
    ∙ ground arith

-- A mask of the n lowest bits.
pub testbit-mask : (n j : ℕ) → testbit (2 ^ n - 1) j ≡ ltb j n
testbit-mask zero j = zero-testbit j ∙ ground arith
testbit-mask (suc n) zero = ground (arith, pow-suc 2 n, pow_pos n)
testbit-mask (suc n) (suc j) =
    ap (λ (m : ℕ). testbit m j) {y = 2 ^ n - 1} (omega (arith, pow-suc 2 n, pow_pos n))
    ∙ testbit-mask n j
    ∙ ground arith
