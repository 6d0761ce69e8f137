-- ===== src/Gdb/Receive.antt =====
-- What `getpacket` of src/gdb/Gdb.cc makes of what `putpacket` sends, and of a damaged packet.
use mathlib.Core.List.{append_assoc}
use kos_hspabla.Prelude.{
  ℕ, zero, suc, ◌+◌, ◌-◌, ◌/◌, ◌%◌, ◌<◌, ◌==◌, ltb, true, false, if◌then◌else◌, ◌≡◌, ◌≢◌, refl, sym,
  ◌∙◌, ap, arith, update, update_self, update_ne, Option, none, some, List, [], ◌∷◌, ◌++◌, length,
  get_elem?, All, inl, inr, Bool-cases,
}
use kos_hspabla.Gdb.Hex.{hex_digit, hex_byte}
use kos_hspabla.Gdb.Digits.{hex_byte-digits}
use kos_hspabla.Gdb.Packet.{
  hunting, body, checksum_high, Receiver, Received, next_char, accept, receive_in, reply_first,
  get_packet_from, get_packet, checksum_from, frame,
}

-- A byte that does not delimit packets.
abbrev pub IsContent : ℕ → Type 0
IsContent ch = (ch ≢ b'$') × (ch ≢ b'#')

-- The buffer holds the text from index `i` on, with its NUL.
abbrev pub Holds : (ℕ → ℕ) → ℕ → List ℕ → Type 0
Holds buffer i [] = buffer i ≡ 0
Holds buffer i (ch ∷ text) = (buffer i ≡ ch) × Holds buffer (suc i) text

-- The buffer after the text has been stored.
abbrev stored : (ℕ → ℕ) → ℕ → List ℕ → ℕ → ℕ
stored buffer i [] = update buffer i 0
stored buffer i (ch ∷ text) = stored (update buffer i ch) (suc i) text

stored-below :
    (buffer : ℕ → ℕ) (i : ℕ) (text : List ℕ) (j : ℕ) → j < i → stored buffer i text j ≡ buffer j
stored-below buffer i [] j lt = update_ne buffer i j 0 (λ e. omega arith)
stored-below buffer i (ch ∷ text) j lt =
    stored-below (update buffer i ch) (suc i) text j (omega arith)
    ∙ update_ne buffer i j ch (λ e. omega arith)

stored-Holds : (buffer : ℕ → ℕ) (i : ℕ) (text : List ℕ) → Holds (stored buffer i text) i text
stored-Holds buffer i [] = update_self buffer i 0
stored-Holds buffer i (ch ∷ text) = (
  stored-below (update buffer i ch) (suc i) text i (omega arith) ∙ update_self buffer i ch,
  stored-Holds (update buffer i ch) (suc i) text,
)

-- No colon at index 2, where the text has none and the buffer had none.
stored-third :
    (buffer : ℕ → ℕ) (i k : ℕ) (text : List ℕ)
    → buffer (i + k) ≢ b':'
    → get_elem? text k ≢ some b':'
    → stored buffer i text (i + k) ≢ b':'
stored-third buffer i zero [] old new e =
    let here : i + 0 ≡ i = omega arith in
    omega (arith, ap (update buffer i 0) here, update_self buffer i 0)
stored-third buffer i (suc k) [] old new e =
    old (sym (update_ne buffer i (i + suc k) 0 (λ q. omega arith)) ∙ e)
stored-third buffer i zero (ch ∷ text) old new e =
    let here : i + 0 ≡ i = omega arith in
    let at_i : stored (update buffer i ch) (suc i) text i ≡ ch =
      stored-below (update buffer i ch) (suc i) text i (omega arith) ∙ update_self buffer i ch in
    new (ap some (sym at_i ∙ sym (ap (stored (update buffer i ch) (suc i) text) here) ∙ e))
stored-third buffer i (suc k) (ch ∷ text) old new e =
    let next : i + suc k ≡ suc i + k = omega arith in
    stored-third (update buffer i ch) (suc i) k text
      (λ q. old (ap buffer next ∙ sym (update_ne buffer i (suc i + k) ch (λ s. omega arith)) ∙ q))
      new (sym (ap (stored (update buffer i ch) (suc i) text) next) ∙ e)

reply_nothing : (r : Option Received) → reply_first [] r ≡ r
reply_nothing none = refl
reply_nothing (some r) = refl

next_char-body :
    (buflen : ℕ) (buffer : ℕ → ℕ) (count sum : ℕ)
    → count + 1 < buflen
    → next_char buflen buffer count sum ≡ record { phase = body count sum; buffer = buffer }
unfolding next_char
next_char-body buflen buffer count sum lt =
    let fits : ltb count (buflen - 1) ≡ true = ground arith in rw fits refl

-- The text goes into the buffer, and its sum into the checksum.
body_run :
    (buflen count sum : ℕ) (buffer : ℕ → ℕ) (text line : List ℕ)
    → All IsContent text
    → count + length text + 1 < buflen
    → get_packet_from buflen (body count sum) buffer (text ++ (b'#' ∷ line))
      ≡ get_packet_from buflen
          (checksum_high (checksum_from sum text))
          (stored buffer count text)
          line
unfolding get_packet_from receive_in checksum_from
body_run buflen count sum buffer [] line h room = reply_nothing _
body_run buflen count sum buffer (ch ∷ text) line h room =
    let not_start : (ch == b'$') ≡ false = ground (arith, h.0.0) in
    let not_end : (ch == b'#') ≡ false = ground (arith, h.0.1) in
    let next : count + 1 ≡ suc count = omega arith in
    rw (not_start, not_end)
      (reply_nothing _
        ∙ ap (λ (r : Receiver). get_packet_from buflen r.phase r.buffer (text ++ (b'#' ∷ line)))
            (ap (λ c. next_char buflen (update buffer count ch) c ((sum + ch) % 256)) next
              ∙ next_char-body buflen (update buffer count ch) (suc count) ((sum + ch) % 256)
                  (omega arith))
        ∙ body_run buflen (suc count) ((sum + ch) % 256) (update buffer count ch) text line h.1
            (omega arith))

start_byte :
    (buflen : ℕ) (buffer : ℕ → ℕ) (line : List ℕ)
    → get_packet_from buflen hunting buffer (b'$' ∷ line)
      ≡ get_packet_from buflen
          (next_char buflen buffer 0 0).phase
          (next_char buflen buffer 0 0).buffer
          line
unfolding get_packet_from receive_in
start_byte buflen buffer line = reply_nothing _

-- Up to the two digits of the checksum.
header_run :
    (buflen : ℕ) (buffer : ℕ → ℕ) (text line : List ℕ)
    → All IsContent text
    → length text + 1 < buflen
    → get_packet_from buflen hunting buffer (b'$' ∷ (text ++ (b'#' ∷ line)))
      ≡ get_packet_from buflen (checksum_high (checksum_from 0 text)) (stored buffer 0 text) line
header_run buflen buffer text line h room =
    start_byte buflen buffer (text ++ (b'#' ∷ line))
    ∙ ap (λ (r : Receiver). get_packet_from buflen r.phase r.buffer (text ++ (b'#' ∷ line)))
        (next_char-body buflen buffer 0 0 (omega arith))
    ∙ body_run buflen 0 0 buffer text line h (omega arith)

checksum_run :
    (buflen sum high low : ℕ) (buffer : ℕ → ℕ) (line : List ℕ)
    → get_packet_from buflen (checksum_high sum) buffer (high ∷ low ∷ line) ≡ (
        if sum == hex_byte high low
        then reply_first
            (accept buffer).1
            (get_packet_from buflen (accept buffer).0.phase (accept buffer).0.buffer line)
        else reply_first (b'-' ∷ []) (get_packet_from buflen hunting buffer line))
unfolding get_packet_from receive_in
checksum_run buflen sum high low buffer line =
    reply_nothing _
    ∙ elim (Bool-cases (sum == hex_byte high low)) [ inl e ↦ rw e refl | inr e ↦ rw e refl ]

checksum_from-lt : (sum : ℕ) (text : List ℕ) → sum < 256 → checksum_from sum text < 256
unfolding checksum_from
checksum_from-lt sum [] lt = lt
checksum_from-lt sum (ch ∷ text) lt = checksum_from-lt ((sum + ch) % 256) text (omega arith)

skip_noise :
    (buflen : ℕ) (buffer : ℕ → ℕ) (noise line : List ℕ)
    → All (λ ch. ch ≢ b'$') noise
    → get_packet_from buflen hunting buffer (noise ++ line)
      ≡ get_packet_from buflen hunting buffer line
unfolding get_packet_from receive_in
skip_noise buflen buffer [] line h = refl
skip_noise buflen buffer (ch ∷ noise) line h =
    let not_start : (ch == b'$') ≡ false = ground (arith, h.0) in
    rw not_start (reply_nothing _ ∙ skip_noise buflen buffer noise line h.1)

accepted :
    (buflen : ℕ) (buffer : ℕ → ℕ) (line : List ℕ)
    → (buffer 2 == b':') ≡ false
    → reply_first
        (accept buffer).1
        (get_packet_from buflen (accept buffer).0.phase (accept buffer).0.buffer line)
      ≡ some (record { offset = 0; buffer = buffer; replies = b'+' ∷ []; unread = line })
unfolding accept get_packet_from
accepted buflen buffer line e = rw e refl

-- For a text without $ and # that is shorter than buflen - 1 and has no colon at index 2, a
-- buffer without one there, and noise without $, `getpacket` skips the noise, takes what
-- `putpacket` sends for the text, has the text with its NUL at the start of the buffer, answers +
-- and leaves the rest of the line unread.
pub get_packet-frame :
    (buflen : ℕ) (buffer : ℕ → ℕ) (noise text line : List ℕ)
    → All (λ ch. ch ≢ b'$') noise
    → All IsContent text
    → length text + 1 < buflen
    → buffer 2 ≢ b':'
    → get_elem? text 2 ≢ some b':'
    → (buffer' : ℕ → ℕ) × (get_packet buflen buffer (noise ++ (frame text ++ line))
        ≡ some (record { offset = 0; buffer = buffer'; replies = b'+' ∷ []; unread = line }))
      × Holds buffer' 0 text
unfolding get_packet frame
get_packet-frame buflen buffer noise text line quiet h room old third =
    let sum = checksum_from 0 text in
    let digits = hex_digit (sum / 16) ∷ hex_digit (sum % 16) ∷ line in
    let small = checksum_from-lt 0 text (omega arith) in
    let equal : (sum == hex_byte (hex_digit (sum / 16)) (hex_digit (sum % 16))) ≡ true =
      ground (arith, hex_byte-digits sum small) in
    let buffer' = stored buffer 0 text in
    let no_colon : (buffer' 2 == b':') ≡ false =
      ground (arith, stored-third buffer 0 2 text old third) in
    (
      buffer',
      skip_noise buflen buffer noise _ quiet
          ∙ ap (λ l. get_packet_from buflen hunting buffer (b'$' ∷ l)) (append_assoc text _ line)
          ∙ header_run buflen buffer text digits h room
          ∙ checksum_run buflen sum (hex_digit (sum / 16)) (hex_digit (sum % 16)) buffer' line
          ∙ ap
              (λ b.
                if b
                then reply_first (accept buffer').1
                    (get_packet_from buflen (accept buffer').0.phase (accept buffer').0.buffer line)
                else reply_first (b'-' ∷ []) (get_packet_from buflen hunting buffer' line))
              equal
          ∙ accepted buflen buffer' line no_colon,
      stored-Holds buffer 0 text,
    )

-- For a text without $ and # that is shorter than buflen - 1, sent with two digits that are not
-- its checksum, `getpacket` answers - and hunts for the next packet in the rest of the line.
pub get_packet-damaged :
    (buflen high low : ℕ) (buffer : ℕ → ℕ) (text line : List ℕ)
    → All IsContent text
    → length text + 1 < buflen
    → hex_byte high low ≢ checksum_from 0 text
    → (buffer' : ℕ → ℕ) × (get_packet buflen buffer (b'$' ∷ (text ++ (b'#' ∷ high ∷ low ∷ line)))
        ≡ reply_first (b'-' ∷ []) (get_packet buflen buffer' line))
unfolding get_packet
get_packet-damaged buflen high low buffer text line h room wrong =
    let sum = checksum_from 0 text in
    let unequal : (sum == hex_byte high low) ≡ false = ground (arith, wrong) in
    let buffer' = stored buffer 0 text in
    (
      buffer',
      header_run buflen buffer text (high ∷ low ∷ line) h room
          ∙ checksum_run buflen sum high low buffer' line
          ∙ ap
              (λ b.
                if b
                then reply_first (accept buffer').1
                    (get_packet_from buflen (accept buffer').0.phase (accept buffer').0.buffer line)
                else reply_first (b'-' ∷ []) (get_packet_from buflen hunting buffer' line))
              unequal,
    )
