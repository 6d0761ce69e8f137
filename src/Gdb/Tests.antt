-- ===== src/Gdb/Tests.antt =====
-- Concrete runs of the debugger stub of src/gdb/Gdb.cc.
use kos_hspabla.Prelude.{
  ℕ, ◌+◌, ◌<◌, ◌≤◌, Bool, true, false, ◌≡◌, ◌≢◌, refl, arith, some, List, [], ◌∷◌, ◌++◌, ◌⊎◌, codes,
}
use kos_hspabla.Gdb.Hex.{Memory, hex_byte, mem2hex, hex2mem}
use kos_hspabla.Gdb.Digits.{hex2mem-mem2hex}
use kos_hspabla.Gdb.Packet.{frame, get_packet, checksum_from}
use kos_hspabla.Gdb.Receive.{Holds, get_packet-frame}
use kos_hspabla.Gdb.Stub.{
  Stub, CpuState, no_thread, ok_text, word_hex, chosen, read_register, write_register,
}
use kos_hspabla.Gdb.Registers.{IsWrite, read_register-write_register}
use kos_hspabla.Gdb.Break.{set_soft_break, remove_soft_break}
use kos_hspabla.Gdb.Breakpoints.{
  IsRequest, IsElsewhere, handle_breaks, breakpoint_lifetime, breakpoint_twice,
}
use kos_hspabla.Gdb.Dispatch.{Answer, handle_packet}

-- Every byte is 0x90.
abbrev memory_90 : Memory
memory_90 = record { byte_at = λ i. 0x90; readable = λ i. true; writable = λ i. true }

abbrev stub : Stub
stub = record {
  memory = memory_90;
  reg64 = λ cpu i. 0;
  reg32 = λ cpu i. 0;
  cpu_state = λ cpu. CpuState.stopped;
  htid = no_thread;
  bp_map = [];
  unwind_addr = 0;
  unwind_break = false;
  fault_enabled = false;
  vcont = record { action = 0; signal = 0; tid = 0 };
}

hex2mem-mem2hex_example :
    ((mem2hex memory_90 4 2).1 ≡ false)
    × ((hex2mem (mem2hex memory_90 4 2).0 memory_90 8 2).1 ≡ false)
    × ((i : ℕ)
        → i < 2
        → (hex2mem (mem2hex memory_90 4 2).0 memory_90 8 2).0.byte_at (8 + i)
          ≡ memory_90.byte_at (4 + i))
    × ((j : ℕ)
        → (j < 8) ⊎ (8 + 2 ≤ j)
        → (hex2mem (mem2hex memory_90 4 2).0 memory_90 8 2).0.byte_at j ≡ memory_90.byte_at j)
hex2mem-mem2hex_example =
    hex2mem-mem2hex memory_90 memory_90 4 8 2 (λ i l. (refl, omega arith)) (λ i l. refl)

abbrev blank : ℕ → ℕ
blank i = 0

abbrev packet_g : List ℕ
packet_g = codes "g"

frame-packet_g : frame packet_g ≡ codes "$g#67"
unfolding frame checksum_from kos_hspabla.Gdb.Hex.hex_digit
frame-packet_g = refl

get_packet-frame_example :
    (buffer' : ℕ → ℕ) × (get_packet 128 blank (codes "+" ++ (frame packet_g ++ codes "+"))
      ≡ some (record { offset = 0; buffer = buffer'; replies = b'+' ∷ []; unread = codes "+" }))
    × Holds buffer' 0 packet_g
get_packet-frame_example =
    get_packet-frame 128 blank (codes "+") packet_g (codes "+") (λ e. omega (arith, e), record {})
      ((λ e. omega (arith, e), λ e. omega (arith, e)), record {}) (omega arith)
      (λ e. omega (arith, e)) (λ e. cc)

-- The breakpoint at 10, and requests at 20.
abbrev at_10 : List ℕ
at_10 = codes "a,1"

abbrev at_20 : List ℕ
at_20 = codes "14,1"

at_10-IsRequest : IsRequest at_10 10 1
unfolding kos_hspabla.Gdb.Hex.hex_to_int kos_hspabla.Gdb.Hex.hex_loop kos_hspabla.Gdb.Hex.char2hex
at_10-IsRequest = record {
  addr_there = λ e. omega (arith, e);
  comma = refl;
  length_there = λ e. omega (arith, e);
  addr_value = refl;
  length_value = refl;
}

at_20-IsElsewhere : (setting : Bool) → IsElsewhere 10 (setting, at_20)
unfolding kos_hspabla.Gdb.Hex.hex_to_int kos_hspabla.Gdb.Hex.hex_loop kos_hspabla.Gdb.Hex.char2hex
at_20-IsElsewhere setting = record { other = λ e. omega (arith, e); one = refl }

abbrev requests_20 : List (Bool × List ℕ)
requests_20 = (true, at_20) ∷ (false, at_20) ∷ []

breakpoint_lifetime_example :
    (s1 s2 s3 : Stub) × (set_soft_break stub at_10 ≡ some (s1, ok_text))
    × (handle_breaks s1 requests_20 ≡ some s2)
    × (s2.memory.byte_at 10 ≡ 0xCC)
    × (remove_soft_break s2 at_10 ≡ some (s3, ok_text))
    × (s3.memory.byte_at 10 ≡ stub.memory.byte_at 10)
breakpoint_lifetime_example =
    breakpoint_lifetime stub 10 at_10 requests_20 at_10-IsRequest refl refl
      (at_20-IsElsewhere true, (at_20-IsElsewhere false, record {}))

breakpoint_twice_example :
    (s1 s2 s3 : Stub) × (set_soft_break stub at_10 ≡ some (s1, ok_text))
    × (set_soft_break s1 at_10 ≡ some (s2, ok_text))
    × (remove_soft_break s2 at_10 ≡ some (s3, ok_text))
    × (s3.memory.byte_at 10 ≡ 0xCC)
breakpoint_twice_example = breakpoint_twice stub 10 at_10 at_10-IsRequest refl refl

-- Queries, a register written and read, and a step.
answer-query :
    handle_packet 2 (λ cpu state. []) stub (codes "qC") 5 1
    ≡ some (record { stub = stub; sent = codes "QC01" ∷ [] })
unfolding handle_packet kos_hspabla.Gdb.Dispatch.dispatch kos_hspabla.Gdb.Dispatch.query
    kos_hspabla.Gdb.Hex.hex_digit
answer-query = refl

-- Register 2 becomes 1.
abbrev write_2 : List ℕ
write_2 = codes "2=0100000000000000"

write_2-IsWrite : IsWrite write_2 2 1
unfolding kos_hspabla.Gdb.Hex.hex_to_int kos_hspabla.Gdb.Hex.hex_loop kos_hspabla.Gdb.Hex.char2hex
    word_hex kos_hspabla.Gdb.Hex.hex_digit
write_2-IsWrite = record {
  number_there = λ e. omega (arith, e);
  equals = refl;
  number = refl;
  digits = refl;
}

read_register-write_register_example :
    ((write_register stub write_2 1).1 ≡ ok_text)
    × ((read_register (write_register stub write_2 1).0 write_2 1).1 ≡ word_hex 8 1)
    × ((m : ℕ)
        → m ≢ 2
        → (write_register stub write_2 1).0.reg64 (chosen stub 1) m ≡ stub.reg64 (chosen stub 1) m)
read_register-write_register_example =
    read_register-write_register write_2 1 2 1 write_2-IsWrite (omega arith) stub (omega arith) refl
