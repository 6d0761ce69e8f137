-- ===== src/Gdb/Packet.antt =====
-- `getpacket` and `putpacket` of src/gdb/Gdb.cc. A state of the receiver is a place in the code at
-- which `getbyte` is called, with the variables there; a `char` is a byte.
use kos_hspabla.Prelude.{
  ℕ, ◌+◌, ◌-◌, ◌/◌, ◌%◌, ◌==◌, ltb, if◌then◌else◌, update, Option, none, some, ◌>>=◌, List, [], ◌∷◌,
  ◌++◌,
}
use kos_hspabla.Gdb.Hex.{hex_digit, hex_byte}

pub data Phase : Type 0 where
  hunting : Phase
  body : ℕ → ℕ → Phase
  checksum_high : ℕ → Phase
  checksum_low : ℕ → ℕ → Phase
  -- The packet starts at this offset of the buffer.
  done : ℕ → Phase

pub record Receiver : Type 0 where
  pub phase : Phase
  pub buffer : ℕ → ℕ

-- The test of the `for` loop; where it fails, the packet is too long and is dropped.
unfoldable pub next_char : ℕ → (ℕ → ℕ) → ℕ → ℕ → Receiver
next_char buflen buffer count checksum =
    if ltb count (buflen - 1)
    then record { phase = body count checksum; buffer = buffer }
    else record { phase = hunting; buffer = update buffer count 0 }

unfoldable pub accept : (ℕ → ℕ) → Receiver × List ℕ
accept buffer =
    if buffer 2 == b':'
    then (record { phase = done 3; buffer = buffer }, b'+' ∷ buffer 0 ∷ buffer 1 ∷ [])
    else (record { phase = done 0; buffer = buffer }, b'+' ∷ [])

-- A byte arrives: the next state and the bytes that are put on the line.
unfoldable pub receive_in : ℕ → Phase → (ℕ → ℕ) → ℕ → Receiver × List ℕ
receive_in buflen hunting buffer ch =
    if ch == b'$'
    then (next_char buflen buffer 0 0, [])
    else (record { phase = hunting; buffer = buffer }, [])
receive_in buflen (body count checksum) buffer ch =
    if ch == b'$'
    then (next_char buflen buffer 0 0, [])
    else if ch == b'#'
    then (record { phase = checksum_high checksum; buffer = update buffer count 0 }, [])
    else (next_char buflen (update buffer count ch) (count + 1) ((checksum + ch) % 256), [])
receive_in buflen (checksum_high checksum) buffer ch =
    (record { phase = checksum_low checksum ch; buffer = buffer }, [])
receive_in buflen (checksum_low checksum high) buffer ch =
    if checksum == hex_byte high ch
    then accept buffer
    else (record { phase = hunting; buffer = buffer }, b'-' ∷ [])
receive_in buflen (done offset) buffer ch = (record { phase = done offset; buffer = buffer }, [])

pub record Received : Type 0 where
  pub offset : ℕ
  pub buffer : ℕ → ℕ
  pub replies : List ℕ
  pub unread : List ℕ

abbrev pub reply_first : List ℕ → Option Received → Option Received
reply_first first none = none
reply_first first (some r) = some (record r { replies = first ++ r.replies })

-- The bytes on the line until a packet is accepted; `none` if the stub waits for more.
unfoldable pub get_packet_from : ℕ → Phase → (ℕ → ℕ) → List ℕ → Option Received
get_packet_from buflen (done offset) buffer line =
    some (record { offset = offset; buffer = buffer; replies = []; unread = line })
get_packet_from buflen hunting buffer [] = none
get_packet_from buflen (body count checksum) buffer [] = none
get_packet_from buflen (checksum_high checksum) buffer [] = none
get_packet_from buflen (checksum_low checksum high) buffer [] = none
get_packet_from buflen hunting buffer (ch ∷ line) =
    let (r, replies) = receive_in buflen hunting buffer ch in
    reply_first replies (get_packet_from buflen r.phase r.buffer line)
get_packet_from buflen (body count checksum) buffer (ch ∷ line) =
    let (r, replies) = receive_in buflen (body count checksum) buffer ch in
    reply_first replies (get_packet_from buflen r.phase r.buffer line)
get_packet_from buflen (checksum_high checksum) buffer (ch ∷ line) =
    let (r, replies) = receive_in buflen (checksum_high checksum) buffer ch in
    reply_first replies (get_packet_from buflen r.phase r.buffer line)
get_packet_from buflen (checksum_low checksum high) buffer (ch ∷ line) =
    let (r, replies) = receive_in buflen (checksum_low checksum high) buffer ch in
    reply_first replies (get_packet_from buflen r.phase r.buffer line)

unfoldable pub get_packet : ℕ → (ℕ → ℕ) → List ℕ → Option Received
get_packet buflen buffer line = get_packet_from buflen hunting buffer line

unfoldable pub checksum_from : ℕ → List ℕ → ℕ
checksum_from sum [] = sum
checksum_from sum (ch ∷ text) = checksum_from ((sum + ch) % 256) text

-- One round of `putpacket`.
unfoldable pub frame : List ℕ → List ℕ
frame text =
    let checksum = checksum_from 0 text in
    b'$' ∷ (text ++ (b'#' ∷ hex_digit (checksum / 16) ∷ hex_digit (checksum % 16) ∷ []))

-- Until an acknowledgement is heard: the bytes sent and the bytes left to read.
unfoldable pub put_packet : List ℕ → List ℕ → Option (List ℕ × List ℕ)
put_packet text [] = none
put_packet text (reply ∷ line) =
    let again = put_packet text line >>= λ r. some (frame text ++ r.0, r.1) in
    if reply == b'+' then some (frame text, line) else again
