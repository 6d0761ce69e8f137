-- ===== src/Prelude/Testbit.antt =====
-- A word read bit by bit: the bitwise operations are the Boolean ones at every position.
use Prim.Native.Nat.{bit_and, bit_or, bit_xor, differ}
use native.Mathlib.Nat.{pow-suc}
use kos_hspabla.Prelude.{
  ℕ, zero, suc, ◌+◌, ◌-◌, ◌/◌, ◌%◌, ◌^◌, ◌<◌, ◌≤◌, Bool, false, not, ◌&&◌, ◌||◌, ◌≡◌, refl, ◌∙◌, ap,
  arith, ◌==◌, if◌then◌else◌,
}
use kos_hspabla.Prelude.Bits.{bit_and_step, bit_or_step, bit_xor_step, zero-bit_and}

-- Bit `i` of `x`; `odd` is its lowest.
abbrev pub odd : ℕ → Bool
odd x = x % 2 == 1

abbrev pub testbit : ℕ → ℕ → Bool
testbit x zero = odd x
testbit x (suc i) = testbit (x / 2) i

pub zero-testbit : (i : ℕ) → testbit 0 i ≡ false
zero-testbit zero = refl
zero-testbit (suc i) = zero-testbit i

pub testbit-bit_and : (a b i : ℕ) → testbit (bit_and a b) i ≡ (testbit a i && testbit b i)
testbit-bit_and a b zero = ground (arith, bit_and_step a b)
testbit-bit_and a b (suc i) =
    ap (λ (n : ℕ). testbit n i) {y = bit_and (a / 2) (b / 2)} (omega (arith, bit_and_step a b))
    ∙ testbit-bit_and (a / 2) (b / 2) i

pub testbit-bit_or : (a b i : ℕ) → testbit (bit_or a b) i ≡ (testbit a i || testbit b i)
testbit-bit_or a b zero = ground (arith, bit_or_step a b)
testbit-bit_or a b (suc i) =
    ap (λ (n : ℕ). testbit n i) {y = bit_or (a / 2) (b / 2)} (omega (arith, bit_or_step a b))
    ∙ testbit-bit_or (a / 2) (b / 2) i

differ-odd : (a b : ℕ) → differ (a % 2) (b % 2) ≡ (a + b) % 2
differ-odd a b = digit (a % 2) (b % 2) (omega arith) (omega arith) ∙ omega arith
  where
    digit : (x y : ℕ) → x < 2 → y < 2 → differ x y ≡ (x + y) % 2
    digit zero zero hx hy = refl
    digit zero (suc zero) hx hy = refl
    digit zero (suc (suc y)) hx hy = absurd (omega arith)
    digit (suc zero) zero hx hy = refl
    digit (suc zero) (suc zero) hx hy = refl
    digit (suc zero) (suc (suc y)) hx hy = absurd (omega arith)
    digit (suc (suc x)) y hx hy = absurd (omega arith)

pub testbit-bit_xor :
    (a b i : ℕ) → testbit (bit_xor a b) i ≡ (if testbit a i then not (testbit b i) else testbit b i)
testbit-bit_xor a b zero = ground (arith, bit_xor_step a b, differ-odd a b)
testbit-bit_xor a b (suc i) =
    ap (λ (n : ℕ). testbit n i) {y = bit_xor (a / 2) (b / 2)}
      (omega (arith, bit_xor_step a b, differ-odd a b))
    ∙ testbit-bit_xor (a / 2) (b / 2) i

-- `mword(1) << i`
pub testbit-pow : (i j : ℕ) → testbit (2 ^ i) j ≡ (i == j)
testbit-pow zero zero = refl
testbit-pow zero (suc j) = zero-testbit j ∙ ground arith
testbit-pow (suc i) zero = ground (arith, pow-suc 2 i)
testbit-pow (suc i) (suc j) =
    ap (λ (n : ℕ). testbit n j) {y = 2 ^ i} (omega (arith, pow-suc 2 i))
    ∙ testbit-pow i j
    ∙ ground arith

-- `~x` at n bits
pub testbit-not : (n x i : ℕ) → x < 2 ^ n → i < n → testbit (2 ^ n - 1 - x) i ≡ not (testbit x i)
testbit-not zero x i hx hi = absurd (omega arith)
testbit-not (suc n) x zero hx hi = ground (arith, pow-suc 2 n)
testbit-not (suc n) x (suc i) hx hi =
    ap (λ (m : ℕ). testbit m i) {y = 2 ^ n - 1 - x / 2} (omega (arith, pow-suc 2 n))
    ∙ testbit-not n (x / 2) i (omega (arith, pow-suc 2 n)) (omega arith)

-- A word with no bit is zero.
pub eq-zero_of_testbit : (n x : ℕ) → x < 2 ^ n → ((i : ℕ) → i < n → testbit x i ≡ false) → x ≡ 0
eq-zero_of_testbit zero x hx h = omega arith
eq-zero_of_testbit (suc n) x hx h = ground (
  arith,
  h 0 (omega arith),
  eq-zero_of_testbit n (x / 2) (omega (arith, pow-suc 2 n)) (λ i hi. h (suc i) (omega arith)),
)

pub bit_and-le : (a b : ℕ) → bit_and a b ≤ a
bit_and-le a b = below a a b (omega arith)
  where
    below : (n a b : ℕ) → a ≤ n → bit_and a b ≤ a
    below zero a b h = let e : a ≡ 0 = omega arith in rw e (omega (arith, zero-bit_and b))
    below (suc n) zero b h = omega (arith, zero-bit_and b)
    below (suc n) (suc a) b h =
        omega (arith, bit_and_step (suc a) b, below n (suc a / 2) (b / 2) (omega arith))

pub bit_or-lt : (n a b : ℕ) → a < 2 ^ n → b < 2 ^ n → bit_or a b < 2 ^ n
bit_or-lt zero a b ha hb =
    let ea : a ≡ 0 = omega arith in let eb : b ≡ 0 = omega arith in rw (ea, eb) (omega arith)
bit_or-lt (suc n) a b ha hb = omega (
  arith,
  pow-suc 2 n,
  bit_or_step a b,
  bit_or-lt n (a / 2) (b / 2) (omega (arith, pow-suc 2 n)) (omega (arith, pow-suc 2 n)),
)

pub bit_xor-lt : (n a b : ℕ) → a < 2 ^ n → b < 2 ^ n → bit_xor a b < 2 ^ n
bit_xor-lt zero a b ha hb =
    let ea : a ≡ 0 = omega arith in let eb : b ≡ 0 = omega arith in rw (ea, eb) (omega arith)
bit_xor-lt (suc n) a b ha hb = omega (
  arith,
  pow-suc 2 n,
  bit_xor_step a b,
  differ-odd a b,
  bit_xor-lt n (a / 2) (b / 2) (omega (arith, pow-suc 2 n)) (omega (arith, pow-suc 2 n)),
)

pub le-bit_or : (n a b : ℕ) → a < 2 ^ n → b < 2 ^ n → (a ≤ bit_or a b) × (b ≤ bit_or a b)
le-bit_or zero a b ha hb = omega arith
le-bit_or (suc n) a b ha hb =
    let halves =
      le-bit_or n (a / 2) (b / 2) (omega (arith, pow-suc 2 n)) (omega (arith, pow-suc 2 n)) in
    omega (arith, bit_or_step a b, halves.0, halves.1)

pub bit_and-le_right : (n a b : ℕ) → a < 2 ^ n → bit_and a b ≤ b
bit_and-le_right zero a b ha = let e : a ≡ 0 = omega arith in rw e (omega (arith, zero-bit_and b))
bit_and-le_right (suc n) a b ha =
    omega (arith, bit_and_step a b, bit_and-le_right n (a / 2) (b / 2) (omega (arith, pow-suc 2 n)))
