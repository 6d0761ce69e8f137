-- ===== src/Keyboard/Letters.antt =====
-- The letters on the keyboard of src/devices/Keyboard.cc, against the scan codes of a PS/2 keyboard in scan
-- code set 2.
use mathlib.Core.Path.{subst}
use mathlib.Core.Option.{some-injective}
use kos_hspabla.Prelude.{
  ℕ, zero, suc, ◌+◌, ◌-◌, ◌<◌, ◌≤◌, ◌==◌, leb, ltb, ltb→lt, ==_iff, ◌>>=◌, Bool, true, false, ◌&&◌,
  ◌||◌, if◌then◌else◌, ◌≡◌, refl, ◌∙◌, ap, arith, Option, none, some, List, [], ◌∷◌, length,
  get_elem?, Bool-cases, inl, inr,
}
use kos_hspabla.Keyboard.Codes.{
  table_xt_to_key, table_at_to_xt, plain_keys, numlock_keys, key_delete,
}
use kos_hspabla.Keyboard.{
  Keyboard, send, Outcome, goes_on, reboot, get_capslock, get_numlock, case_of, is_letter, typed,
  key_bytes, is_ctrl, is_shift, is_alt,
}
use kos_hspabla.Keyboard.Typing.{idle, IsPlain, IsCodeOf, keystroke, escape_before}

-- The make codes of A to Z in scan code set 2.
abbrev pub letter_codes : List ℕ
letter_codes =
    0x1C ∷ 0x32 ∷ 0x21 ∷ 0x23 ∷ 0x24 ∷ 0x2B ∷ 0x34 ∷ 0x33 ∷ 0x43 ∷ 0x3B ∷ 0x42 ∷ 0x4B ∷ 0x3A ∷ 0x31
    ∷ 0x44 ∷ 0x4D ∷ 0x15 ∷ 0x2D ∷ 0x1B ∷ 0x2C ∷ 0x3C ∷ 0x2A ∷ 0x1D ∷ 0x22 ∷ 0x35 ∷ 0x1A ∷ []

is_row : ℕ → Option (ℕ × ℕ) → Bool
is_row key none = false
is_row key (some row) = row.0 == key

abbrev row_at : ℕ → ℕ → Bool
row_at code key = is_row key (get_elem? table_at_to_xt code >>= get_elem? table_xt_to_key)

-- Whether the tables take each code to its key, the codes those of `key` and the keys behind it.
unfoldable codes_match : ℕ → List ℕ → Bool
codes_match key [] = true
codes_match key (c ∷ codes) =
    let rest = codes_match (key + 1) codes in ltb c 0x80 && row_at c key && rest

letters_match : codes_match b'a' letter_codes ≡ true
unfolding codes_match is_row table_at_to_xt table_xt_to_key
letters_match = refl

and_parts : (a b : Bool) → (a && b) ≡ true → (a ≡ true) × (b ≡ true)
and_parts a b h = ground (arith, h)

row-IsCodeOf :
    (code key : ℕ) (o : Option ℕ)
    → code < 0x80
    → get_elem? table_at_to_xt code ≡ o
    → is_row key (o >>= get_elem? table_xt_to_key) ≡ true
    → IsCodeOf code key
unfolding is_row
row-IsCodeOf code key none lt found h = cc
row-IsCodeOf code key (some xt) lt found h = row_found (get_elem? table_xt_to_key xt) refl h
  where
    row_found :
        (o : Option (ℕ × ℕ))
        → get_elem? table_xt_to_key xt ≡ o
        → is_row key o ≡ true
        → IsCodeOf code key
    row_found none e k = cc
    row_found (some (plain, e0)) e k =
        (lt, xt, e0, found, e ∙ ap (λ p. some (p, e0)) ((==_iff plain key).0 k))

code_at :
    (key : ℕ) (codes : List ℕ) (i code : ℕ)
    → codes_match key codes ≡ true
    → get_elem? codes i ≡ some code
    → IsCodeOf code (key + i)
unfolding codes_match
code_at key [] i code h e = cc
code_at key (c ∷ codes) zero code h e =
    let (first, rest) = and_parts (ltb c 0x80 && row_at c key) (codes_match (key + 1) codes) h in
    let (low, row) = and_parts (ltb c 0x80) (row_at c key) first in
    let here = row-IsCodeOf c key (get_elem? table_at_to_xt c) (ltb→lt _ _ low) refl row in
    let same : c ≡ code = some-injective c code e in
    let slot : key ≡ key + zero = omega arith in
    subst (IsCodeOf code) slot (subst (λ x. IsCodeOf x key) same here)
code_at key (c ∷ codes) (suc i) code h e =
    let (first, rest) = and_parts (ltb c 0x80 && row_at c key) (codes_match (key + 1) codes) h in
    let next : key + 1 + i ≡ key + suc i = omega arith in
    subst (IsCodeOf code) next (code_at (key + 1) codes i code rest e)

in_range : (codes : List ℕ) (i code : ℕ) → get_elem? codes i ≡ some code → i < length codes
in_range [] i code e = cc
in_range (c ∷ codes) zero code e = omega arith
in_range (c ∷ codes) (suc i) code e = omega (arith, in_range codes i code e)

letter-IsPlain : (key : ℕ) → b'a' ≤ key → key ≤ b'z' → IsPlain key
unfolding is_ctrl is_shift is_alt
letter-IsPlain key lo hi = record {
  not_ctrl = ground arith;
  not_shift = ground arith;
  not_alt = ground arith;
  not_scroll = ground arith;
  not_num = ground arith;
  not_caps = ground arith;
}

unfoldable keys_above : ℕ → List (ℕ × ℕ) → Bool
keys_above bound [] = true
keys_above bound (row ∷ rows) = let rest = keys_above bound rows in ltb bound row.0 && rest

no_case :
    (rows : List (ℕ × ℕ)) (bound key : ℕ)
    → keys_above bound rows ≡ true
    → key ≤ bound
    → case_of rows key ≡ none
unfolding keys_above
no_case [] bound key h le = refl
no_case ((k, v) ∷ rows) bound key h le =
    let (first, rest) = and_parts (ltb bound k) (keys_above bound rows) h in
    let other : (k == key) ≡ false = ground (arith, first, le) in
    rw other (no_case rows bound key rest le)

-- A letter, as Shift or Caps Lock and else Control change it.
abbrev pub letter_sent : Bool → Bool → ℕ → ℕ
letter_sent upper ctrl i = if upper then b'A' + i else if ctrl then 1 + i else b'a' + i

plain_above : keys_above b'z' plain_keys ≡ true
unfolding keys_above plain_keys
plain_above = refl

numlock_above : keys_above b'z' numlock_keys ≡ true
unfolding keys_above numlock_keys
numlock_above = refl

typed_letter :
    (k : Keyboard) (i : ℕ)
    → i < 26
    → typed k (b'a' + i) ≡ letter_sent (k.shift || get_capslock k) k.ctrl i
unfolding typed is_letter get_capslock get_numlock
typed_letter k i lt =
    let plain = no_case plain_keys b'z' (b'a' + i) plain_above (omega (arith, lt)) in
    let num = no_case numlock_keys b'z' (b'a' + i) numlock_above (omega (arith, lt)) in
    let low : leb b'a' (b'a' + i) ≡ true = ground arith in
    let high : leb (b'a' + i) b'z' ≡ true = ground (arith, lt) in
    let upper : 97 + i - 32 ≡ 65 + i = omega arith in
    let code : 97 + i - 96 ≡ 1 + i = omega arith in
    elim (Bool-cases (k.shift)) [
      | inl shifted ↦ rw (shifted, low, high) upper
      | inr plainly ↦ elim (Bool-cases (get_capslock k)) [
        | inl caps ↦ rw (plainly, caps, low, high) upper
        | inr small ↦ elim (Bool-cases (k.ctrl)) [
          | inl ctrl ↦ rw (plainly, small, ctrl, low, high) code
          | inr free ↦ elim (Bool-cases (get_numlock k)) [
            | inl lock ↦ rw (plainly, small, free, lock, num, plain) refl
            | inr off ↦ rw (plainly, small, free, off, plain) refl
          ]
        ]
      ]
    ]

-- For the keyboard between keystrokes with no acknowledgement outstanding, any state of the
-- modifiers and lights, and the make code of the letter number i of the alphabet in scan code set
-- 2, as a table of its own lists them, the bytes of a press and a release send, after an escape
-- if Alt is held, exactly one character: the capital letter if Shift is held or Caps Lock is on,
-- else the control character 1 + i if Ctrl is held, else the small letter; and the keyboard is
-- between keystrokes again, with modifiers and lights unchanged.
pub letter_keystroke :
    (shift alt ctrl : Bool) (led i code : ℕ)
    → get_elem? letter_codes i ≡ some code
    → key_bytes 2 (idle shift alt ctrl led) (code ∷ 0xF0 ∷ code ∷ [])
      ≡ goes_on (idle shift alt ctrl led) (
          escape_before alt
            (send (letter_sent (shift || get_capslock (idle shift alt ctrl led)) ctrl i)))
letter_keystroke shift alt ctrl led i code e =
    let lt : i < 26 = in_range letter_codes i code e in
    let key = b'a' + i in
    let not_delete : (key == key_delete) ≡ false = ground (arith, lt) in
    keystroke shift alt ctrl led code key (letter-IsPlain key (omega arith) (omega (arith, lt)))
      (code_at b'a' letter_codes i code letters_match e)
    ∙ ap
        (λ b.
          if alt && ctrl && b
          then reboot
          else goes_on (idle shift alt ctrl led)
              (escape_before alt (send (typed (idle shift alt ctrl led) key))))
        not_delete
    ∙ goes_anyway alt ctrl _
    ∙ ap (λ c. goes_on (idle shift alt ctrl led) (escape_before alt (send c)))
        (typed_letter (idle shift alt ctrl led) i lt)
  where
    goes_anyway : (a b : Bool) (o : Outcome) → (if a && b && false then reboot else o) ≡ o
    goes_anyway a b o = ground arith
