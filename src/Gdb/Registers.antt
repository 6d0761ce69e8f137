-- ===== src/Gdb/Registers.antt =====
-- The registers that the handlers `P` and `p` of src/gdb/Gdb.cc write and read.
use kos_hspabla.Prelude.{
  ℕ, zero, suc, ◌+◌, ◌/◌, ◌%◌, ◌^◌, ◌<◌, ◌==◌, ltb, true, false, not, ◌&&◌, ◌≡◌, ◌≢◌, refl, sym,
  ◌∙◌, ap, arith, update, update_self, update_ne, List,
}
use kos_hspabla.Gdb.Hex.{head_or_nul, behind, hex_to_int}
use kos_hspabla.Gdb.Digits.{hex_byte-digits}
use kos_hspabla.Gdb.Stub.{
  Stub, reg64cnt, no_thread, minus_one64, ok_text, word_hex, hex_word, chosen, forget_thread,
  read_register, write_register,
}

-- A word of `n` bytes, sent as text.
pub hex_word-word_hex : (n v : ℕ) → v < 256 ^ n → hex_word n (word_hex n v) ≡ v
unfolding hex_word word_hex
hex_word-word_hex zero v lt = omega arith
hex_word-word_hex (suc n) v lt =
    let high : hex_word n (word_hex n (v / 256)) ≡ v / 256 =
      hex_word-word_hex n (v / 256) (omega arith) in
    omega (arith, high, hex_byte-digits (v % 256) (omega arith))

-- The text names the register and gives its value.
pub record IsWrite (text : List ℕ) (n v : ℕ) : Type 0 where
  pub number_there : (hex_to_int text).digits ≢ 0
  pub equals : head_or_nul (hex_to_int text).rest ≡ b'='
  pub number : (hex_to_int text).value ≡ n
  pub digits : behind (hex_to_int text).rest ≡ word_hex 8 v

chosen-free :
    (s : Stub) (ctid : ℕ) → s.htid ≡ no_thread → chosen s ctid ≡ (ctid + minus_one64) % 2 ^ 64
unfolding chosen
chosen-free s ctid free = rw free refl

module _ (text : List ℕ) (ctid n v : ℕ) (r : IsWrite text n v) (small : n < reg64cnt) where
  there :
      (not ((hex_to_int text).digits == 0) && (head_or_nul (hex_to_int text).rest == b'=')) ≡ true
  there = ground (arith, r.number_there, r.equals)

  in_range : ltb n reg64cnt ≡ true
  in_range = ground (arith, small)

  read_register-here :
      (s : Stub) → (read_register s text ctid).1 ≡ word_hex 8 (s.reg64 (chosen s ctid) n)
  unfolding read_register
  read_register-here s = rw (there, r.number, (in_range)) refl

  write_register-here :
      (s : Stub)
      → v < 2 ^ 64
      → write_register s text ctid ≡ (
        record s {
          htid = no_thread;
          fault_enabled = false;
          reg64 = update s.reg64 (chosen s ctid) (update (s.reg64 (chosen s ctid)) n v);
        },
        ok_text,
      )
  unfolding write_register forget_thread
  write_register-here s lt =
      rw (there, r.number, in_range, r.digits, (hex_word-word_hex 8 v lt)) refl

  -- For a text that names 64-bit register n and gives the digits of a value below 2 ^ 64, and no
  -- thread chosen, writing the register answers OK, reading it then answers the same digits, and
  -- the other registers of the processor are as before.
  pub read_register-write_register :
      (s : Stub)
      → v < 2 ^ 64
      → s.htid ≡ no_thread
      → ((write_register s text ctid).1 ≡ ok_text)
        × ((read_register (write_register s text ctid).0 text ctid).1 ≡ word_hex 8 v)
        × ((m : ℕ)
            → m ≢ n
            → (write_register s text ctid).0.reg64 (chosen s ctid) m ≡ s.reg64 (chosen s ctid) m)
  read_register-write_register s lt free =
      let written = write_register-here s lt in
      let regs = s.reg64 (chosen s ctid) in
      let same : chosen (write_register s text ctid).0 ctid ≡ chosen s ctid =
        ap (λ p. chosen p.0 ctid) written
        ∙ chosen-free _ ctid refl
        ∙ sym (chosen-free s ctid free) in
      let row : (write_register s text ctid).0.reg64 (chosen s ctid) ≡ update regs n v =
        ap (λ p. p.0.reg64 (chosen s ctid)) written
        ∙ update_self s.reg64 (chosen s ctid) (update regs n v) in
      let read : (write_register s text ctid).0.reg64 (chosen (write_register s text ctid).0 ctid) n
          ≡ v =
        ap (λ i. (write_register s text ctid).0.reg64 i n) same
        ∙ ap (λ f. f n) row
        ∙ update_self regs n v in
      (
        ap (λ p. p.1) written,
        read_register-here (write_register s text ctid).0 ∙ ap (word_hex 8) read,
        λ m ne. ap (λ f. f m) row ∙ update_ne regs n m v (λ e. ne (sym e)),
      )
