-- ===== src/Keyboard/State.antt =====
-- The scan codes that the tables of src/devices/Keyboard.cc lack.
use kos_hspabla.Prelude.{
  ℕ, ◌<◌, ◌≤◌, ◌==◌, ltb, leb, Bool, true, false, not, ◌≡◌, ◌≢◌, refl, sym, ◌∙◌, arith, Option,
  none, some, get_elem?, get_elem?-none, ◌↔◌,
}
use kos_hspabla.Keyboard.Codes.{table_xt_to_key, table_at_to_xt}
use kos_hspabla.Keyboard.{
  Keyboard, Outcome, goes_on, reboot, bad_index, send_key, pressed, toggle_led, handle_key,
  table_key, xt_code, scan_code, key_byte, report,
}

handle_key-ne : (k : Keyboard) (key : ℕ) → handle_key k key ≢ bad_index
unfolding handle_key pressed toggle_led send_key
handle_key-ne k key = ground arith

report-bad : (b : Bool) (o : Outcome) → (report b o ≡ bad_index) ↔ (o ≡ bad_index)
report-bad true (goes_on k actions) = (λ e. cc, λ e. cc)
report-bad true reboot = (λ e. cc, λ e. cc)
report-bad true bad_index = (λ e. refl, λ e. refl)
report-bad false o = (λ e. e, λ e. e)

-- Exactly the rows from 0x59 on are missing.
row_missing : (xt : ℕ) → (get_elem? table_xt_to_key xt ≡ none) ↔ (0x59 ≤ xt)
unfolding table_xt_to_key
row_missing xt = get_elem?-none table_xt_to_key xt

table_key-bad : (k : Keyboard) (row : Option (ℕ × ℕ)) → (table_key k row ≡ bad_index) ↔ (row ≡ none)
unfolding table_key
table_key-bad k none = (λ e. refl, λ e. refl)
table_key-bad k (some (plain, e0)) = (λ e. absurd (handle_key-ne k _ e), λ e. cc)

-- For a code below 0x80 in scan code set 2 whose translation is xt, and a prefix of 0 or 1, the
-- handler reads past the end of a table exactly if xt is 0x59 or more.
pub beyond_table :
    (k : Keyboard) (code xt : ℕ)
    → code < 0x80
    → k.extended ≤ 1
    → get_elem? table_at_to_xt code ≡ some xt
    → (key_byte 2 k code ≡ bad_index) ↔ (0x59 ≤ xt)
unfolding key_byte scan_code xt_code
beyond_table k code xt lt e h =
    let not_e0 : (code == 0xE0) ≡ false = ground arith in
    let not_e1 : (code == 0xE1) ≡ false = ground arith in
    let not_ack : (code == 0xFA) ≡ false = ground arith in
    let not_break : (code == 0xF0) ≡ false = ground arith in
    let in_table : ltb code 0x80 ≡ true = ground arith in
    let not_two : (k.extended == 2) ≡ false = ground arith in
    let not_three : (k.extended == 3) ≡ false = ground arith in
    let low : leb k.extended 1 ≡ true = ground arith in
    let row = get_elem? table_xt_to_key xt in
    let reached : key_byte 2 k code ≡ report (not (k.acks == 0)) (table_key k row) =
      rw (not_e0, not_e1, not_ack, not_break, in_table, h, not_two, not_three, low) refl in
    let steps = report-bad (not (k.acks == 0)) (table_key k row) in
    let bad = table_key-bad k row in
    let missing = row_missing xt in
    (
      λ q. missing.0 (bad.0 (steps.0 (sym reached ∙ q))),
      λ q. reached ∙ steps.1 (bad.1 (missing.1 q)),
    )
