-- ===== src/Keyboard/Tests.antt =====
-- Concrete runs of the handler of src/devices/Keyboard.cc.
use kos_hspabla.Prelude.{true, false, ◌≡◌, refl, arith, [], ◌∷◌}
use kos_hspabla.Keyboard.Codes.{table_at_to_xt, table_xt_to_key, key_escape}
use kos_hspabla.Keyboard.{
  init, key_byte, key_bytes, typed, send_key, goes_on, bad_index, send, set_leds,
}
use kos_hspabla.Keyboard.Typing.{idle, IsPlain, IsCodeOf, keystroke}
use kos_hspabla.Keyboard.Letters.{letter_keystroke}

a-IsPlain : IsPlain b'a'
unfolding kos_hspabla.Keyboard.is_ctrl kos_hspabla.Keyboard.is_shift kos_hspabla.Keyboard.is_alt
a-IsPlain = record {
  not_ctrl = refl;
  not_shift = refl;
  not_alt = refl;
  not_scroll = refl;
  not_num = refl;
  not_caps = refl;
}

a-IsCodeOf : IsCodeOf 0x1C b'a'
unfolding table_at_to_xt table_xt_to_key
a-IsCodeOf = (omega arith, 0x1E, _, refl, refl)

keystroke_example :
    key_bytes 2 (idle true false false 0) (0x1C ∷ 0xF0 ∷ 0x1C ∷ [])
    ≡ goes_on (idle true false false 0) (send (typed (idle true false false 0) b'a') ∷ [])
keystroke_example = keystroke true false false 0 0x1C b'a' a-IsPlain a-IsCodeOf

-- B with Alt and Caps Lock.
letter_keystroke_example :
    key_bytes 2 (idle false true false 4) (0x32 ∷ 0xF0 ∷ 0x32 ∷ [])
    ≡ goes_on (idle false true false 4) (send key_escape ∷ send b'B' ∷ [])
unfolding kos_hspabla.Keyboard.get_capslock
letter_keystroke_example = letter_keystroke false true false 4 1 0x32 refl
