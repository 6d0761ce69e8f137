-- ===== src/Keyboard/Typing.antt =====
-- What the handler of src/devices/Keyboard.cc does with whole keystrokes.
use kos_hspabla.Prelude.{
  ℕ, ◌<◌, ◌==◌, ltb, Bool, true, false, ◌&&◌, ◌≡◌, refl, ◌∙◌, ap, arith, if◌then◌else◌, some, List,
  [], ◌∷◌, get_elem?, Bool-cases, inl, inr,
}
use kos_hspabla.Keyboard.Codes.{
  table_xt_to_key, table_at_to_xt, key_pause, key_scrolllock, key_kp_numlock, key_capslock,
  key_delete, key_escape,
}
use kos_hspabla.Keyboard.{
  Keyboard, Action, send, typed, Outcome, goes_on, reboot, bad_index, is_ctrl, is_shift, is_alt,
  send_key, pressed, released, handle_key, table_key, xt_code, scan_code, key_byte, key_bytes,
  after_actions, and_then,
}

-- Between keystrokes, with no acknowledgement outstanding.
abbrev pub idle : Bool → Bool → Bool → ℕ → Keyboard
idle shift alt ctrl led = record {
  is_break = false;
  shift = shift;
  alt = alt;
  ctrl = ctrl;
  led = led;
  acks = 0;
  extended = 0;
}

-- Neither a modifier nor a lock.
pub record IsPlain (key : ℕ) : Type 0 where
  pub not_ctrl : is_ctrl key ≡ false
  pub not_shift : is_shift key ≡ false
  pub not_alt : is_alt key ≡ false
  pub not_scroll : (key == key_scrolllock) ≡ false
  pub not_num : (key == key_kp_numlock) ≡ false
  pub not_caps : (key == key_capslock) ≡ false

-- The AT code `code` is that of `key`.
abbrev pub IsCodeOf : ℕ → ℕ → Type 0
IsCodeOf code key =
    (code < 0x80)
    × (xt : ℕ) × (after_e0 : ℕ) × (get_elem? table_at_to_xt code ≡ some xt)
    × (get_elem? table_xt_to_key xt ≡ some (key, after_e0))

pressed-plain : (k : Keyboard) (key : ℕ) → IsPlain key → pressed k key ≡ send_key k key
unfolding pressed
pressed-plain k key p =
    rw (p.not_ctrl, p.not_shift, p.not_alt, p.not_scroll, p.not_num, p.not_caps) refl

released-plain : (k : Keyboard) (key : ℕ) → IsPlain key → released k key ≡ k
unfolding released
released-plain k key p = rw (p.not_ctrl, p.not_shift, p.not_alt) refl

module _ (shift alt ctrl : Bool) (led : ℕ) where
  -- A code in the tables reaches its key, after a break code too.
  scan-key :
      (is_break : Bool) (code key : ℕ)
      → IsCodeOf code key
      → key_byte 2 (record (idle shift alt ctrl led) { is_break = is_break }) code
        ≡ handle_key (record (idle shift alt ctrl led) { is_break = is_break }) key
  unfolding key_byte scan_code xt_code table_key
  scan-key is_break code key (lt, xt, e0, h1, h2) =
      let not_e0 : (code == 0xE0) ≡ false = ground arith in
      let not_e1 : (code == 0xE1) ≡ false = ground arith in
      let not_ack : (code == 0xFA) ≡ false = ground arith in
      let not_break : (code == 0xF0) ≡ false = ground arith in
      let in_table : ltb code 0x80 ≡ true = ground arith in
      rw (not_e0, not_e1, not_ack, not_break, in_table, h1, h2) refl

  break_byte :
      key_byte 2 (idle shift alt ctrl led) 0xF0
      ≡ goes_on (record (idle shift alt ctrl led) { is_break = true }) []
  unfolding key_byte scan_code
  break_byte = refl

-- What is sent, and nothing else happens to the state.
send_key-stays :
    (shift alt ctrl : Bool) (led key : ℕ) (f : Keyboard → Outcome)
    → f (idle shift alt ctrl led) ≡ goes_on (idle shift alt ctrl led) []
    → and_then (send_key (idle shift alt ctrl led) key) f ≡ send_key (idle shift alt ctrl led) key
unfolding send_key
send_key-stays shift false ctrl led key f e = rw e refl
send_key-stays shift true ctrl led key f e = elim (Bool-cases (ctrl && (key == key_delete))) [
  | inl all_three ↦ rw all_three refl
  | inr other ↦ rw (other, e) refl
]

after_nothing : (o : Outcome) → after_actions [] o ≡ o
after_nothing (goes_on k actions) = refl
after_nothing reboot = refl
after_nothing bad_index = refl

-- With Alt a key comes after an escape.
abbrev pub escape_before : Bool → Action → List Action
escape_before false key = key ∷ []
escape_before true key = send key_escape ∷ key ∷ []

sent :
    (shift alt ctrl : Bool) (led key : ℕ)
    → send_key (idle shift alt ctrl led) key ≡ (
        if alt && ctrl && (key == key_delete)
        then reboot
        else goes_on
            (idle shift alt ctrl led)
            (escape_before alt (send (typed (idle shift alt ctrl led) key))))
unfolding send_key
sent shift false ctrl led key = refl
sent shift true ctrl led key = refl

typed_once :
    (shift alt ctrl : Bool) (led code key : ℕ)
    → IsPlain key
    → IsCodeOf code key
    → key_bytes 2 (idle shift alt ctrl led) (code ∷ 0xF0 ∷ code ∷ [])
      ≡ send_key (idle shift alt ctrl led) key
unfolding key_bytes handle_key
typed_once shift alt ctrl led code key p c =
    ap (λ o. and_then o (λ k. key_bytes 2 k (0xF0 ∷ code ∷ [])))
      (scan-key shift alt ctrl led false code key c ∙ pressed-plain (idle shift alt ctrl led) key p)
    ∙ send_key-stays shift alt ctrl led key (λ k. key_bytes 2 k (0xF0 ∷ code ∷ []))
        (rw
          (
            break_byte shift alt ctrl led,
            scan-key shift alt ctrl led true code key c,
            released-plain (idle shift alt ctrl led) key p,
          )
          refl)

-- For the keyboard between keystrokes with no acknowledgement outstanding, any state of the
-- modifiers and lights, and the code in scan code set 2 of a key that is neither a modifier nor a
-- lock, the bytes of a press and a release make the handler reboot if Alt and Ctrl are held and
-- the key is Delete; otherwise it is between keystrokes again, with modifiers and lights
-- unchanged, and has sent exactly the character that the key types, after an escape if Alt is
-- held.
pub keystroke :
    (shift alt ctrl : Bool) (led code key : ℕ)
    → IsPlain key
    → IsCodeOf code key
    → key_bytes 2 (idle shift alt ctrl led) (code ∷ 0xF0 ∷ code ∷ []) ≡ (
        if alt && ctrl && (key == key_delete)
        then reboot
        else goes_on
            (idle shift alt ctrl led)
            (escape_before alt (send (typed (idle shift alt ctrl led) key))))
keystroke shift alt ctrl led code key p c =
    typed_once shift alt ctrl led code key p c ∙ sent shift alt ctrl led key

-- For the keyboard between keystrokes with no acknowledgement outstanding, the eight bytes of the
-- pause key in scan code set 2 send the pause key once, whether the handler then goes on or
-- reboots.
pub pause_keystroke :
    (shift alt ctrl : Bool) (led : ℕ)
    → key_bytes 2
        (idle shift alt ctrl led)
        (0xE1 ∷ 0x14 ∷ 0x77 ∷ 0xE1 ∷ 0xF0 ∷ 0x14 ∷ 0xF0 ∷ 0x77 ∷ [])
      ≡ send_key (idle shift alt ctrl led) key_pause
unfolding key_bytes key_byte scan_code xt_code table_at_to_xt handle_key pressed released is_ctrl
    is_shift is_alt
pause_keystroke shift alt ctrl led =
    after_nothing _
    ∙ after_nothing _
    ∙ send_key-stays shift alt ctrl led key_pause
        (λ k. key_bytes 2 k (0xE1 ∷ 0xF0 ∷ 0x14 ∷ 0xF0 ∷ 0x77 ∷ [])) refl
