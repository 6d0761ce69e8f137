-- ===== src/Keyboard.antt =====
-- src/devices/Keyboard.cc and Keyboard.h: what the interrupt handler does with each byte that the
-- PS/2 controller delivers. The port and the key buffer are outside: the bytes are the handler's input,
-- and what it sends, shows and reports are its actions, in order.
pub mod Codes
pub mod Typing
pub mod Letters
pub mod State
mod Tests
use Prim.Native.Nat.{bit_and, bit_xor}
use kos_hspabla.Prelude.{
  ℕ, ◌+◌, ◌-◌, ◌%◌, ◌^◌, ◌==◌, ltb, leb, Bool, true, false, not, ◌&&◌, ◌||◌, if◌then◌else◌, Option,
  none, some, List, [], ◌∷◌, ◌++◌, get_elem?,
}
use kos_hspabla.Keyboard.Codes.{
  table_xt_to_key, table_at_to_xt, shift_keys, numlock_keys, plain_keys, key_escape, key_delete,
  key_pause, key_scrolllock, key_kp_numlock, key_capslock, key_lctrl, key_rctrl, key_lshift,
  key_rshift, key_lalt, key_ralt,
}

pub record Keyboard : Type 0 where
  pub is_break : Bool
  pub shift : Bool
  pub alt : Bool
  pub ctrl : Bool
  pub led : ℕ
  pub acks : ℕ
  pub extended : ℕ

-- `kbq.trySend`, `SetLeds`, and the report of a failed KCHECK, after which the handler goes on.
pub data Action : Type 0 where
  send : ℕ → Action
  set_leds : ℕ → Action
  check_failed : Action

-- A failed KASSERT reboots too. `bad_index` is a read past the end of a table.
pub data Outcome : Type 0 where
  goes_on : Keyboard → List Action → Outcome
  reboot : Outcome
  bad_index : Outcome

unfoldable pub init : Keyboard
init = record {
  is_break = false;
  shift = false;
  alt = false;
  ctrl = false;
  led = 0;
  acks = 0;
  extended = 0;
}

unfoldable pub get_numlock : Keyboard → Bool
get_numlock k = not (bit_and k.led 2 == 0)

unfoldable pub get_capslock : Keyboard → Bool
get_capslock k = not (bit_and k.led 4 == 0)

-- The first row for a key, as a `switch` finds it.
abbrev pub case_of : List (ℕ × ℕ) → ℕ → Option ℕ
case_of [] key = none
case_of ((k, v) ∷ rows) key = if k == key then some v else case_of rows key

abbrev pub or_else : Option ℕ → ℕ → ℕ
or_else none d = d
or_else (some v) d = v

unfoldable pub is_letter : ℕ → Bool
is_letter key = leb b'a' key && leb key b'z'

-- From the test of the shift key to `send:`.
unfoldable pub typed : Keyboard → ℕ → ℕ
typed k key =
    let plain = or_else (case_of plain_keys key) key in
    let padded = if get_numlock k then or_else (case_of numlock_keys key) plain else plain in
    if (k.shift || get_capslock k) && is_letter key
    then key - 32
    else if k.ctrl && is_letter key
    then key - 96
    else if k.shift
    then or_else (case_of shift_keys key) padded
    else padded

unfoldable pub send_key : Keyboard → ℕ → Outcome
send_key k key =
    if k.alt
    then (if k.ctrl && (key == key_delete)
        then reboot
        else goes_on k (send key_escape ∷ send (typed k key) ∷ []))
    else goes_on k (send (typed k key) ∷ [])

-- `led ^= bit; SetLeds(led); acks += 2`, with `acks` an int of 32 bits.
unfoldable pub toggle_led : Keyboard → ℕ → Outcome
toggle_led k bit =
    let led = bit_xor k.led bit in
    goes_on (record k { led = led; acks = (k.acks + 2) % 2 ^ 32 }) (set_leds led ∷ [])

-- The keys that switch a flag.
unfoldable pub is_ctrl : ℕ → Bool
is_ctrl key = (key == key_lctrl) || (key == key_rctrl)

unfoldable pub is_shift : ℕ → Bool
is_shift key = (key == key_lshift) || (key == key_rshift)

unfoldable pub is_alt : ℕ → Bool
is_alt key = (key == key_lalt) || (key == key_ralt)

unfoldable pub pressed : Keyboard → ℕ → Outcome
pressed k key =
    if is_ctrl key
    then goes_on (record k { ctrl = true }) []
    else if is_shift key
    then goes_on (record k { shift = true }) []
    else if is_alt key
    then goes_on (record k { alt = true }) []
    else if key == key_scrolllock
    then toggle_led k 1
    else if key == key_kp_numlock
    then toggle_led k 2
    else if key == key_capslock
    then toggle_led k 4
    else send_key k key

unfoldable pub released : Keyboard → ℕ → Keyboard
released k key =
    if is_ctrl key
    then record k { ctrl = false }
    else if is_shift key
    then record k { shift = false }
    else if is_alt key
    then record k { alt = false }
    else k

-- From `extended = 0` on.
unfoldable pub handle_key : Keyboard → ℕ → Outcome
handle_key k key =
    if k.is_break
    then goes_on (released (record k { extended = 0; is_break = false }) key) []
    else pressed (record k { extended = 0 }) key

-- `tableXTtoKey[code][extended]`
unfoldable pub table_key : Keyboard → Option (ℕ × ℕ) → Outcome
table_key k none = bad_index
table_key k (some (plain, after_e0)) = handle_key k (if k.extended == 0 then plain else after_e0)

unfoldable pub xt_code : Keyboard → ℕ → Outcome
xt_code k code =
    if (k.extended == 2) && (code == 0x1D)
    then goes_on (record k { extended = 3 }) []
    else if (k.extended == 3) && (code == 0x45)
    then handle_key k key_pause
    else if leb k.extended 1
    then table_key k (get_elem? table_xt_to_key code)
    else reboot

abbrev pub translated : Keyboard → Option ℕ → Outcome
translated k none = bad_index
translated k (some code) = xt_code k code

-- The break code, in either scan code set.
unfoldable pub scan_code : ℕ → Keyboard → ℕ → Outcome
scan_code set k code =
    if set == 1
    then (if leb 0x80 code
        then xt_code (record k { is_break = true }) (code - 0x80)
        else xt_code k code)
    else if code == 0xF0
    then goes_on (record k { is_break = true }) []
    else if ltb code 0x80
    then translated k (get_elem? table_at_to_xt code)
    else reboot

abbrev pub report : Bool → Outcome → Outcome
report true (goes_on k actions) = goes_on k (check_failed ∷ actions)
report true reboot = reboot
report true bad_index = bad_index
report false o = o

-- One round of the handler's loop. KCHECK0(acks > 0) reads the int's sign.
unfoldable pub key_byte : ℕ → Keyboard → ℕ → Outcome
key_byte set k code =
    if code == 0xE0
    then (if k.extended == 0 then goes_on (record k { extended = 1 }) [] else reboot)
    else if code == 0xE1
    then (if k.extended == 0 then goes_on (record k { extended = 2 }) [] else reboot)
    else if code == 0xFA
    then report (not (ltb 0 k.acks && ltb k.acks (2 ^ 31)))
        (goes_on (record k { acks = (k.acks + 2 ^ 32 - 1) % 2 ^ 32 }) [])
    else report (not (k.acks == 0)) (scan_code set k code)

abbrev pub after_actions : List Action → Outcome → Outcome
after_actions first (goes_on k actions) = goes_on k (first ++ actions)
after_actions first reboot = reboot
after_actions first bad_index = bad_index

abbrev pub and_then : Outcome → (Keyboard → Outcome) → Outcome
and_then (goes_on k actions) f = after_actions actions (f k)
and_then reboot f = reboot
and_then bad_index f = bad_index

-- The loop, over the bytes that come while it runs.
unfoldable pub key_bytes : ℕ → Keyboard → List ℕ → Outcome
key_bytes set k [] = goes_on k []
key_bytes set k (code ∷ codes) = and_then (key_byte set k code) (λ k'. key_bytes set k' codes)
