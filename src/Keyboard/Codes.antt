-- ===== src/Keyboard/Codes.antt =====
-- The key codes and the two translation tables of src/devices/Keyboard.cc. `table_xt_to_key` gives a
-- make code's key, plain and after 0xE0; `table_at_to_xt` gives the XT code of an AT code.
use kos_hspabla.Prelude.{ℕ, List, [], ◌∷◌}

abbrev pub key_backspace : ℕ
key_backspace = 8

abbrev pub key_tab : ℕ
key_tab = 9

abbrev pub key_enter : ℕ
key_enter = 10

abbrev pub key_escape : ℕ
key_escape = 27

abbrev pub key_backslash : ℕ
key_backslash = 92

abbrev pub key_quote : ℕ
key_quote = 39

abbrev pub key_delete : ℕ
key_delete = 127

abbrev pub key_f1 : ℕ
key_f1 = 0x1000

abbrev pub key_f2 : ℕ
key_f2 = 0x1001

abbrev pub key_f3 : ℕ
key_f3 = 0x1002

abbrev pub key_f4 : ℕ
key_f4 = 0x1003

abbrev pub key_f5 : ℕ
key_f5 = 0x1004

abbrev pub key_f6 : ℕ
key_f6 = 0x1005

abbrev pub key_f7 : ℕ
key_f7 = 0x1006

abbrev pub key_f8 : ℕ
key_f8 = 0x1007

abbrev pub key_f9 : ℕ
key_f9 = 0x1008

abbrev pub key_f10 : ℕ
key_f10 = 0x1009

abbrev pub key_f11 : ℕ
key_f11 = 0x100a

abbrev pub key_f12 : ℕ
key_f12 = 0x100b

abbrev pub key_prtscr : ℕ
key_prtscr = 0x100c

abbrev pub key_scrolllock : ℕ
key_scrolllock = 0x100d

abbrev pub key_pause : ℕ
key_pause = 0x100e

abbrev pub key_capslock : ℕ
key_capslock = 0x100f

abbrev pub key_lshift : ℕ
key_lshift = 0x1010

abbrev pub key_lctrl : ℕ
key_lctrl = 0x1011

abbrev pub key_lalt : ℕ
key_lalt = 0x1012

abbrev pub key_lgui : ℕ
key_lgui = 0x1013

abbrev pub key_rshift : ℕ
key_rshift = 0x1014

abbrev pub key_rctrl : ℕ
key_rctrl = 0x1015

abbrev pub key_ralt : ℕ
key_ralt = 0x1016

abbrev pub key_rgui : ℕ
key_rgui = 0x1017

abbrev pub key_up : ℕ
key_up = 0x1018

abbrev pub key_down : ℕ
key_down = 0x1019

abbrev pub key_left : ℕ
key_left = 0x101a

abbrev pub key_right : ℕ
key_right = 0x101b

abbrev pub key_insert : ℕ
key_insert = 0x101c

abbrev pub key_home : ℕ
key_home = 0x101d

abbrev pub key_end : ℕ
key_end = 0x101e

abbrev pub key_pgup : ℕ
key_pgup = 0x101f

abbrev pub key_pgdown : ℕ
key_pgdown = 0x1020

abbrev pub key_kp_dot : ℕ
key_kp_dot = 0x1021

abbrev pub key_kp_0 : ℕ
key_kp_0 = 0x1022

abbrev pub key_kp_1 : ℕ
key_kp_1 = 0x1023

abbrev pub key_kp_2 : ℕ
key_kp_2 = 0x1024

abbrev pub key_kp_3 : ℕ
key_kp_3 = 0x1025

abbrev pub key_kp_4 : ℕ
key_kp_4 = 0x1026

abbrev pub key_kp_5 : ℕ
key_kp_5 = 0x1027

abbrev pub key_kp_6 : ℕ
key_kp_6 = 0x1028

abbrev pub key_kp_7 : ℕ
key_kp_7 = 0x1029

abbrev pub key_kp_8 : ℕ
key_kp_8 = 0x102a

abbrev pub key_kp_9 : ℕ
key_kp_9 = 0x102b

abbrev pub key_kp_numlock : ℕ
key_kp_numlock = 0x102c

abbrev pub key_kp_divide : ℕ
key_kp_divide = 0x102d

abbrev pub key_kp_asterisk : ℕ
key_kp_asterisk = 0x102e

abbrev pub key_kp_minus : ℕ
key_kp_minus = 0x102f

abbrev pub key_kp_plus : ℕ
key_kp_plus = 0x1030

abbrev pub key_kp_enter : ℕ
key_kp_enter = 0x1031

abbrev pub key_unknown : ℕ
key_unknown = 0x1032

unfoldable pub table_xt_to_key : List (ℕ × ℕ)
table_xt_to_key =
    (key_unknown, key_unknown)
    ∷ (key_escape, key_unknown)
    ∷ (b'1', key_unknown)
    ∷ (b'2', key_unknown)
    ∷ (b'3', key_unknown)
    ∷ (b'4', key_unknown)
    ∷ (b'5', key_unknown)
    ∷ (b'6', key_unknown)
    ∷ (b'7', key_unknown)
    ∷ (b'8', key_unknown)
    ∷ (b'9', key_unknown)
    ∷ (b'0', key_unknown)
    ∷ (45, key_unknown)
    ∷ (61, key_unknown)
    ∷ (key_backspace, key_unknown)
    ∷ (key_tab, key_unknown)
    ∷ (b'q', key_unknown)
    ∷ (b'w', key_unknown)
    ∷ (b'e', key_unknown)
    ∷ (b'r', key_unknown)
    ∷ (b't', key_unknown)
    ∷ (b'y', key_unknown)
    ∷ (b'u', key_unknown)
    ∷ (b'i', key_unknown)
    ∷ (b'o', key_unknown)
    ∷ (b'p', key_unknown)
    ∷ (91, key_unknown)
    ∷ (93, key_unknown)
    ∷ (key_enter, key_kp_enter)
    ∷ (key_lctrl, key_rctrl)
    ∷ (b'a', key_unknown)
    ∷ (b's', key_unknown)
    ∷ (b'd', key_unknown)
    ∷ (b'f', key_unknown)
    ∷ (b'g', key_unknown)
    ∷ (b'h', key_unknown)
    ∷ (b'j', key_unknown)
    ∷ (b'k', key_unknown)
    ∷ (b'l', key_unknown)
    ∷ (59, key_unknown)
    ∷ (39, key_unknown)
    ∷ (96, key_unknown)
    ∷ (key_lshift, key_prtscr)
    ∷ (92, key_unknown)
    ∷ (b'z', key_unknown)
    ∷ (b'x', key_unknown)
    ∷ (b'c', key_unknown)
    ∷ (b'v', key_unknown)
    ∷ (b'b', key_unknown)
    ∷ (b'n', key_unknown)
    ∷ (b'm', key_unknown)
    ∷ (44, key_unknown)
    ∷ (46, key_unknown)
    ∷ (47, key_kp_divide)
    ∷ (key_rshift, key_unknown)
    ∷ (key_kp_asterisk, key_prtscr)
    ∷ (key_lalt, key_ralt)
    ∷ (32, key_unknown)
    ∷ (key_capslock, key_unknown)
    ∷ (key_f1, key_unknown)
    ∷ (key_f2, key_unknown)
    ∷ (key_f3, key_unknown)
    ∷ (key_f4, key_unknown)
    ∷ (key_f5, key_unknown)
    ∷ (key_f6, key_unknown)
    ∷ (key_f7, key_unknown)
    ∷ (key_f8, key_unknown)
    ∷ (key_f9, key_unknown)
    ∷ (key_f10, key_unknown)
    ∷ (key_kp_numlock, key_unknown)
    ∷ (key_scrolllock, key_unknown)
    ∷ (key_kp_7, key_home)
    ∷ (key_kp_8, key_up)
    ∷ (key_kp_9, key_pgup)
    ∷ (key_kp_minus, key_unknown)
    ∷ (key_kp_4, key_left)
    ∷ (key_kp_5, key_unknown)
    ∷ (key_kp_6, key_right)
    ∷ (key_kp_plus, key_unknown)
    ∷ (key_kp_1, key_end)
    ∷ (key_kp_2, key_down)
    ∷ (key_kp_3, key_pgdown)
    ∷ (key_kp_0, key_insert)
    ∷ (key_kp_dot, key_delete)
    ∷ (key_unknown, key_unknown)
    ∷ (key_unknown, key_unknown)
    ∷ (key_unknown, key_unknown)
    ∷ (key_f11, key_unknown)
    ∷ (key_f12, key_unknown)
    ∷ []

unfoldable pub table_at_to_xt : List ℕ
table_at_to_xt =
    0xff ∷ 0x43 ∷ 0x41 ∷ 0x3f ∷ 0x3d ∷ 0x3b ∷ 0x3c ∷ 0x58 ∷ 0x64 ∷ 0x44 ∷ 0x42 ∷ 0x40 ∷ 0x3e ∷ 0x0f
    ∷ 0x29 ∷ 0x59 ∷ 0x65 ∷ 0x38 ∷ 0x2a ∷ 0x70 ∷ 0x1d ∷ 0x10 ∷ 0x02 ∷ 0x5a ∷ 0x66 ∷ 0x71 ∷ 0x2c
    ∷ 0x1f ∷ 0x1e ∷ 0x11 ∷ 0x03 ∷ 0x5b ∷ 0x67 ∷ 0x2e ∷ 0x2d ∷ 0x20 ∷ 0x12 ∷ 0x05 ∷ 0x04 ∷ 0x5c
    ∷ 0x68 ∷ 0x39 ∷ 0x2f ∷ 0x21 ∷ 0x14 ∷ 0x13 ∷ 0x06 ∷ 0x5d ∷ 0x69 ∷ 0x31 ∷ 0x30 ∷ 0x23 ∷ 0x22
    ∷ 0x15 ∷ 0x07 ∷ 0x5e ∷ 0x6a ∷ 0x72 ∷ 0x32 ∷ 0x24 ∷ 0x16 ∷ 0x08 ∷ 0x09 ∷ 0x5f ∷ 0x6b ∷ 0x33
    ∷ 0x25 ∷ 0x17 ∷ 0x18 ∷ 0x0b ∷ 0x0a ∷ 0x60 ∷ 0x6c ∷ 0x34 ∷ 0x35 ∷ 0x26 ∷ 0x27 ∷ 0x19 ∷ 0x0c
    ∷ 0x61 ∷ 0x6d ∷ 0x73 ∷ 0x28 ∷ 0x74 ∷ 0x1a ∷ 0x0d ∷ 0x62 ∷ 0x6e ∷ 0x3a ∷ 0x36 ∷ 0x1c ∷ 0x1b
    ∷ 0x75 ∷ 0x2b ∷ 0x63 ∷ 0x76 ∷ 0x55 ∷ 0x56 ∷ 0x77 ∷ 0x78 ∷ 0x79 ∷ 0x7a ∷ 0x0e ∷ 0x7b ∷ 0x7c
    ∷ 0x4f ∷ 0x7d ∷ 0x4b ∷ 0x47 ∷ 0x7e ∷ 0x7f ∷ 0x6f ∷ 0x52 ∷ 0x53 ∷ 0x50 ∷ 0x4c ∷ 0x4d ∷ 0x48
    ∷ 0x01 ∷ 0x45 ∷ 0x57 ∷ 0x4e ∷ 0x51 ∷ 0x4a ∷ 0x37 ∷ 0x49 ∷ 0x46 ∷ 0x54 ∷ []

unfoldable pub shift_keys : List (ℕ × ℕ)
shift_keys =
    (b'1', 33)
    ∷ (b'2', 64)
    ∷ (b'3', 35)
    ∷ (b'4', 36)
    ∷ (b'5', 37)
    ∷ (b'6', 94)
    ∷ (b'7', 38)
    ∷ (b'8', 42)
    ∷ (b'9', 40)
    ∷ (b'0', 41)
    ∷ (45, 95)
    ∷ (61, 43)
    ∷ (44, 60)
    ∷ (46, 62)
    ∷ (47, 63)
    ∷ (59, 58)
    ∷ (39, 34)
    ∷ (91, 123)
    ∷ (93, 125)
    ∷ (96, 126)
    ∷ (92, 124)
    ∷ []

unfoldable pub numlock_keys : List (ℕ × ℕ)
numlock_keys =
    (key_kp_dot, 46)
    ∷ (key_kp_0, b'0')
    ∷ (key_kp_1, b'1')
    ∷ (key_kp_2, b'2')
    ∷ (key_kp_3, b'3')
    ∷ (key_kp_4, b'4')
    ∷ (key_kp_5, b'5')
    ∷ (key_kp_6, b'6')
    ∷ (key_kp_7, b'7')
    ∷ (key_kp_8, b'8')
    ∷ (key_kp_9, b'9')
    ∷ []

unfoldable pub plain_keys : List (ℕ × ℕ)
plain_keys =
    (key_kp_dot, key_delete)
    ∷ (key_kp_0, key_insert)
    ∷ (key_kp_1, key_end)
    ∷ (key_kp_2, key_down)
    ∷ (key_kp_3, key_pgdown)
    ∷ (key_kp_4, key_left)
    ∷ (key_kp_5, key_unknown)
    ∷ (key_kp_6, key_right)
    ∷ (key_kp_7, key_home)
    ∷ (key_kp_8, key_up)
    ∷ (key_kp_9, key_pgup)
    ∷ (key_kp_divide, 47)
    ∷ (key_kp_asterisk, 42)
    ∷ (key_kp_minus, 45)
    ∷ (key_kp_plus, 43)
    ∷ (key_kp_enter, key_enter)
    ∷ []
