-- ===== src/Gdb/Digits.antt =====
-- The hexadecimal conversions of src/gdb/Gdb.cc undo each other.
use kos_hspabla.Prelude.{
  ℕ, zero, suc, ◌+◌, ◌-◌, ◌/◌, ◌%◌, ◌<◌, ◌≤◌, true, false, ◌≡◌, refl, sym, ◌∙◌, ap, arith, update,
  update_self, update_ne, List, ◌∷◌, ◌⊎◌, inl, inr, ℕ_discrete,
}
use kos_hspabla.Gdb.Hex.{Memory, hex_digit, char2hex, hex_byte, mem2hex, hex2mem}

pub char2hex-hex_digit : (i : ℕ) → i < 16 → char2hex (hex_digit i) ≡ i
unfolding char2hex hex_digit
char2hex-hex_digit i lt = ground arith

pub hex_byte-digits : (c : ℕ) → c < 256 → hex_byte (hex_digit (c / 16)) (hex_digit (c % 16)) ≡ c
unfolding hex_byte
hex_byte-digits c lt =
    omega
      (arith, char2hex-hex_digit (c / 16) (omega arith), char2hex-hex_digit (c % 16) (omega arith))

mem2hex-zero : (m : Memory) (a : ℕ) → (mem2hex m a 0).1 ≡ false
unfolding mem2hex
mem2hex-zero m a = refl

hex2mem-zero : (text : List ℕ) (m : Memory) (b : ℕ) → hex2mem text m b 0 ≡ (m, false)
unfolding hex2mem
hex2mem-zero text m b = refl

-- What one round of both does.
module _ (m m' : Memory) (a b : ℕ) where
  abbrev copied : Memory
  copied = record m' { byte_at = update m'.byte_at b (m.byte_at a) }

  mem2hex-suc :
      (n : ℕ)
      → m.readable a ≡ true
      → mem2hex m a (suc n) ≡ (
        hex_digit (m.byte_at a / 16) ∷ hex_digit (m.byte_at a % 16) ∷ (mem2hex m (a + 1) n).0,
        (mem2hex m (a + 1) n).1,
      )
  unfolding mem2hex
  mem2hex-suc n r = rw r refl

  hex2mem-suc :
      (text : List ℕ) (n : ℕ)
      → m'.writable b ≡ true
      → m.byte_at a < 256
      → hex2mem (hex_digit (m.byte_at a / 16) ∷ hex_digit (m.byte_at a % 16) ∷ text) m' b (suc n)
        ≡ hex2mem text copied (b + 1) n
  unfolding hex2mem
  hex2mem-suc text n w lt = rw (w, hex_byte-digits (m.byte_at a) lt) refl

-- For n readable bytes below 256 from a on and n writable places from b on in another memory,
-- `mem2hex` and `hex2mem` of its text meet no fault, the n bytes arrive from b on, and every byte
-- outside them is as before.
pub hex2mem-mem2hex :
    (m m' : Memory) (a b n : ℕ)
    → ((i : ℕ) → i < n → (m.readable (a + i) ≡ true) × (m.byte_at (a + i) < 256))
    → ((i : ℕ) → i < n → m'.writable (b + i) ≡ true)
    → ((mem2hex m a n).1 ≡ false)
      × ((hex2mem (mem2hex m a n).0 m' b n).1 ≡ false)
      × ((i : ℕ) → i < n → (hex2mem (mem2hex m a n).0 m' b n).0.byte_at (b + i) ≡ m.byte_at (a + i))
      × ((j : ℕ)
          → (j < b) ⊎ (b + n ≤ j)
          → (hex2mem (mem2hex m a n).0 m' b n).0.byte_at j ≡ m'.byte_at j)
hex2mem-mem2hex m m' a b zero source target =
    let result = hex2mem-zero (mem2hex m a 0).0 m' b in
    (
      mem2hex-zero m a,
      ap (λ p. p.1) result,
      λ i l. absurd (omega arith),
      λ j out. ap (λ p. p.0.byte_at j) result,
    )
hex2mem-mem2hex m m' a b (suc n) source target =
    let a_here : a + 0 ≡ a = omega arith in
    let b_here : b + 0 ≡ b = omega arith in
    let (r, lt) = source 0 (omega arith) in
    let r' : m.readable a ≡ true = sym (ap m.readable a_here) ∙ r in
    let w : m'.writable b ≡ true = sym (ap m'.writable b_here) ∙ target 0 (omega arith) in
    let lt' : m.byte_at a < 256 = omega (arith, lt, ap m.byte_at a_here) in
    let text = (mem2hex m (a + 1) n).0 in
    let read = mem2hex-suc m m' a b n r' in
    let result : hex2mem (mem2hex m a (suc n)).0 m' b (suc n)
        ≡ hex2mem text (copied m m' a b) (b + 1) n =
      ap (λ t. hex2mem t m' b (suc n)) (ap (λ p. p.0) read) ∙ hex2mem-suc m m' a b text n w lt' in
    let (h0, h1, h2, h3) =
      hex2mem-mem2hex m (copied m m' a b) (a + 1) (b + 1) n
        (λ i l.
          let e : a + suc i ≡ a + 1 + i = omega arith in
          let (ra, la) = source (suc i) (omega arith) in
          (sym (ap m.readable e) ∙ ra, omega (arith, la, ap m.byte_at e)))
        (λ i l.
          let e : b + suc i ≡ b + 1 + i = omega arith in
          sym (ap m'.writable e) ∙ target (suc i) (omega arith)) in
    (
      ap (λ p. p.1) read ∙ h0,
      ap (λ p. p.1) result ∙ h1,
      λ i l. elim (ℕ_discrete i 0) [
        | yes first ↦
            let at : b + i ≡ b = omega arith in
            let from : a ≡ a + i = omega arith in
            ap (λ p. p.0.byte_at (b + i)) result
            ∙ ap (hex2mem text (copied m m' a b) (b + 1) n).0.byte_at at
            ∙ h3 b (inl (omega arith))
            ∙ update_self m'.byte_at b (m.byte_at a)
            ∙ ap m.byte_at from
        | no later ↦
            let at : b + i ≡ b + 1 + (i - 1) = omega arith in
            let from : a + 1 + (i - 1) ≡ a + i = omega arith in
            ap (λ p. p.0.byte_at (b + i)) result
            ∙ ap (hex2mem text (copied m m' a b) (b + 1) n).0.byte_at at
            ∙ h2 (i - 1) (omega arith)
            ∙ ap m.byte_at from
      ],
      λ j out.
          ap (λ p. p.0.byte_at j) result
          ∙ h3 j (elim out [ inl l ↦ inl (omega arith) | inr l ↦ inr (omega arith) ])
          ∙ update_ne m'.byte_at b j (m.byte_at a)
              (elim out [ inl l ↦ (λ e. omega arith) | inr l ↦ (λ e. omega arith) ]),
    )
