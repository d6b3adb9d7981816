-- ===== src/PacketSniffer/Rounds.antt =====
-- The file that the loop of projects/networking/packet-sniffer/main.c keeps.
use c_systems_programming.Common.{
  ℕ, ◌≤◌, ◌≡◌, sym, ap, ◌∙◌, List, [], ◌∷◌, ◌++◌, true, false, Option, some, none, Text,
  if◌then◌else◌, length, All, All-append, arith, append-nil, append_assoc, u32, Bool-cases, inl,
  inr,
}
use c_systems_programming.PacketSniffer.{
  max_len, pcap_header, Packet, packet_bytes, is_kept, is_due, Received, failed, received, Round,
  Capture, Progress, running, cleanup, rotate, receive, capture_from, capture_round, capture_loop,
}
use c_systems_programming.PacketSniffer.Reader.{
  IsPacket, all_bytes, parse_pcap, parse_pcap-all_bytes,
}

-- A file with the header and some packets.
abbrev pub IsCapture : List ℕ → List Packet → Type 0
IsCapture file ps = (file ≡ pcap_header ++ all_bytes ps) × All IsPacket ps

all_bytes-append :
    (ps : List Packet) (p : Packet) → all_bytes (ps ++ (p ∷ [])) ≡ all_bytes ps ++ packet_bytes p
all_bytes-append [] p = append-nil (packet_bytes p)
all_bytes-append (q ∷ ps) p =
    ap (λ t. packet_bytes q ++ t) (all_bytes-append ps p)
    ∙ sym (append_assoc (packet_bytes q) (all_bytes ps) (packet_bytes p))

abbrev pub stamped : List ℕ → ℕ → ℕ → Packet
stamped bytes sec usec = record { ts_sec = u32 sec; ts_usec = u32 usec; frame = bytes }

-- The packets after a round: a rotation drops the ones so far, and a packet is added if it is kept.
abbrev pub with_answer : List Text → List Packet → Received → List Packet
with_answer args ps failed = ps
with_answer args ps (received bytes name sec usec) =
    if is_kept args bytes name then ps ++ (stamped bytes sec usec ∷ []) else ps

abbrev pub after_round : List Text → Capture → Round → List Packet → List Packet
after_round args c r ps = with_answer args (if is_due c r then [] else ps) r.answer

-- The file holds exactly these packets, or a rotation could not open it.
abbrev pub Holds : Type 0 → List Packet → Progress → Type 0
Holds lost ps (running c) = IsCapture c.file ps
Holds lost ps (cleanup (some file)) = IsCapture file ps
Holds lost ps (cleanup none) = lost

pub added :
    (file : List ℕ) (ps : List Packet) (p : Packet)
    → IsPacket p
    → IsCapture file ps
    → IsCapture (file ++ packet_bytes p) (ps ++ (p ∷ []))
added file ps p h (e, ok) = (
  ap (λ t. t ++ packet_bytes p) e
      ∙ append_assoc pcap_header (all_bytes ps) (packet_bytes p)
      ∙ ap (λ t. pcap_header ++ t) (sym (all_bytes-append ps p)),
  All-append IsPacket ps (p ∷ []) ok (h, tt),
)

pub receive-Holds :
    (lost : Type 0) (args : List Text) (c : Capture) (ps : List Packet) (answer : Received)
    → IsCapture c.file ps
    → Holds lost (with_answer args ps answer) (receive args c answer)
unfolding receive
receive-Holds lost args c ps failed h = h
receive-Holds lost args c ps (received bytes name sec usec) h =
    elim (Bool-cases (is_kept args bytes name)) [
      | inl kept ↦
          let size : (1 ≤ length bytes) × (length bytes ≤ max_len) = ground (arith, kept) in
          rw kept
            (added c.file ps (stamped bytes sec usec) (omega arith, omega arith, size.0, size.1) h)
      | inr skipped ↦ rw skipped h
    ]

round-Holds :
    (lost : Type 0) (args : List Text) (c : Capture) (r : Round) (ps : List Packet)
    → IsCapture c.file ps
    → (is_due c r ≡ true → r.can_open ≡ false → lost)
    → Holds lost (after_round args c r ps) (capture_round args c r)
unfolding capture_round rotate
round-Holds lost args c r ps h k = elim (Bool-cases (is_due c r)) [
  | inl due ↦ elim (Bool-cases r.can_open) [
    | inl open_ok ↦
        rw (due, open_ok)
          (receive-Holds lost args (record { start_time = r.restarted; file = pcap_header }) []
            r.answer (append-nil pcap_header, tt))
    | inr refused ↦ rw (due, refused) (k due refused)
  ]
  | inr early ↦ rw early (receive-Holds lost args c ps r.answer h)
]

abbrev pub Lost : Capture → Round → Type 0
Lost c r = (is_due c r ≡ true) × (r.can_open ≡ false)

-- A round, whichever way it goes, leaves the file with exactly the packets that it should hold: those
-- so far, or none after a rotation, and the one received, if it is kept. The file is lost only if a
-- rotation is due and the file cannot be opened.
pub capture_round-Holds :
    (args : List Text) (c : Capture) (r : Round) (ps : List Packet)
    → IsCapture c.file ps
    → Holds (Lost c r) (after_round args c r ps) (capture_round args c r)
capture_round-Holds args c r ps h =
    round-Holds (Lost c r) args c r ps h (λ due refused. (due, refused))

-- A file that the reader takes, with packets of 1 to 65535 bytes.
abbrev pub IsReadable : Option (List ℕ) → Type 0
IsReadable none = Unit
IsReadable (some file) = (ps : List Packet) × (parse_pcap file ≡ some ps) × All IsPacket ps

abbrev pub file_of : Progress → Option (List ℕ)
file_of (running c) = some c.file
file_of (cleanup file) = file

IsCapture-IsReadable :
    (file : List ℕ) (ps : List Packet) → IsCapture file ps → IsReadable (some file)
IsCapture-IsReadable file ps (e, ok) = (ps, ap parse_pcap e ∙ parse_pcap-all_bytes ps ok, ok)

capture_from-IsReadable :
    (lost : Type 0) (ps : List Packet) (later : Capture → Progress) (p : Progress)
    → Holds lost ps p
    → ((c : Capture) → IsCapture c.file ps → IsReadable (file_of (later c)))
    → IsReadable (file_of (capture_from later p))
capture_from-IsReadable lost ps later (running c) h k = k c h
capture_from-IsReadable lost ps later (cleanup none) h k = tt
capture_from-IsReadable lost ps later (cleanup (some file)) h k = IsCapture-IsReadable file ps h

-- After any rounds from a capture file, the file that is open, if any, is one that the reader takes,
-- with packets of 1 to 65535 bytes and nothing behind them.
pub capture_loop-IsReadable :
    (args : List Text) (c : Capture) (rounds : List Round) (ps : List Packet)
    → IsCapture c.file ps
    → IsReadable (file_of (capture_loop args c rounds))
unfolding capture_loop
capture_loop-IsReadable args c [] ps h = IsCapture-IsReadable c.file ps h
capture_loop-IsReadable args c (r ∷ rounds) ps h =
    capture_from-IsReadable (Lost c r) (after_round args c r ps) (λ c'. capture_loop args c' rounds)
      (capture_round args c r) (capture_round-Holds args c r ps h)
      (λ c' k. capture_loop-IsReadable args c' rounds (after_round args c r ps) k)
