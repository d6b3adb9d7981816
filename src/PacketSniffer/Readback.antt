-- ===== src/PacketSniffer/Readback.antt =====
-- What a reader finds in the file of projects/networking/packet-sniffer/main.c after many rounds.
use c_systems_programming.Common.{
  ℕ, ◌≡◌, ap, ◌∙◌, List, [], ◌∷◌, ◌++◌, append-nil, false, Bool-cases, ◌⊎◌, inl, inr, Option, some,
  none, Text, if◌then◌else◌,
}
use c_systems_programming.PacketSniffer.{
  pcap_header, Packet, is_kept, is_due, Received, failed, received, Round, Capture, Progress,
  receive, rotate, capture_from, capture_round, capture_loop,
}
use c_systems_programming.PacketSniffer.Reader.{parse_pcap, parse_pcap-all_bytes}
use c_systems_programming.PacketSniffer.Rounds.{
  IsCapture, stamped, with_answer, receive-Holds, file_of,
}

-- The file that a rotation leaves empty.
abbrev pub empty_at : ℕ → Capture
empty_at start_time = record { start_time = start_time; file = pcap_header }

-- The packets that a file should hold after some rounds, from the time of the last rotation: a due
-- rotation drops those so far, and the rounds end where a call fails.
abbrev pub unless_failed :
    (List Packet → List Packet) → List Text → List Packet → Received → List Packet
unless_failed later args ps failed = ps
unless_failed later args ps (received bytes name sec usec) =
    later (with_answer args ps (received bytes name sec usec))

pub kept_since : List Text → ℕ → List Round → List Packet → List Packet
kept_since args start [] ps = ps
kept_since args start (r ∷ rounds) ps =
    let restarted =
      unless_failed (λ ps'. kept_since args r.restarted rounds ps') args [] r.answer in
    let goes_on = unless_failed (λ ps'. kept_since args start rounds ps') args ps r.answer in
    if is_due (empty_at start) r then (if r.can_open then restarted else []) else goes_on

-- A round whose rotation cannot open the file.
abbrev pub Refuses : List Round → Type 0
Refuses [] = ⊥
Refuses (r ∷ rounds) = (r.can_open ≡ false) ⊎ Refuses rounds

-- A reader of the file that is open finds exactly these packets; or there is no file.
abbrev pub Reads : Type 0 → List Packet → Option (List ℕ) → Type 0
Reads lost ps none = lost
Reads lost ps (some file) = parse_pcap file ≡ some ps

IsCapture-Reads :
    (lost : Type 0) (file : List ℕ) (ps : List Packet)
    → IsCapture file ps
    → Reads lost ps (some file)
IsCapture-Reads lost file ps (e, ok) = ap parse_pcap e ∙ parse_pcap-all_bytes ps ok

-- The end of a round, and the rounds behind it.
receive-Reads :
    (lost : Type 0) (args : List Text) (c : Capture) (ps : List Packet) (answer : Received)
    (spec : List Packet → List Packet) (later : Capture → Progress)
    → IsCapture c.file ps
    → ((file : List ℕ) (ps' : List Packet)
        → IsCapture file ps'
        → Reads lost (spec ps') (file_of (later (record c { file = file }))))
    → Reads lost
        (unless_failed spec args ps answer)
        (file_of (capture_from later (receive args c answer)))
unfolding receive
receive-Reads lost args c ps failed spec later h k = IsCapture-Reads lost c.file ps h
receive-Reads lost args c ps (received bytes name sec usec) spec later h k =
    let holds = receive-Holds ⊥ args c ps (received bytes name sec usec) h in
    elim (Bool-cases (is_kept args bytes name)) [
      | inl kept ↦ rw kept (k _ (ps ++ (stamped bytes sec usec ∷ [])) (rw kept at holds))
      | inr skipped ↦ rw skipped (k c.file ps h)
    ]

Reads-later :
    (P Q : Type 0) (ps : List Packet) (file : Option (List ℕ))
    → (P → Q)
    → Reads P ps file
    → Reads Q ps file
Reads-later P Q ps none f h = f h
Reads-later P Q ps (some file) f h = h

-- One round and the rounds behind it.
round-Reads :
    (lost : Type 0) (args : List Text) (c : Capture) (r : Round) (rounds : List Round)
    (ps : List Packet)
    → IsCapture c.file ps
    → (r.can_open ≡ false → lost)
    → ((c' : Capture) (ps' : List Packet)
        → IsCapture c'.file ps'
        → Reads lost
            (kept_since args c'.start_time rounds ps')
            (file_of (capture_loop args c' rounds)))
    → Reads lost
        (kept_since args c.start_time (r ∷ rounds) ps)
        (file_of (capture_loop args c (r ∷ rounds)))
unfolding capture_loop capture_round rotate kept_since
round-Reads lost args c r rounds ps h f k = elim (Bool-cases (is_due c r)) [
  | inl due ↦ elim (Bool-cases r.can_open) [
    | inl opened ↦
        rw (due, opened)
          (receive-Reads lost args (empty_at r.restarted) [] r.answer
            (λ ps'. kept_since args r.restarted rounds ps') (λ c'. capture_loop args c' rounds)
            (append-nil pcap_header, tt)
            (λ file ps'. k (record { start_time = r.restarted; file = file }) ps'))
    | inr refused ↦ rw (due, refused) (f refused)
  ]
  | inr early ↦ rw early (
      receive-Reads lost args c ps r.answer (λ ps'. kept_since args c.start_time rounds ps')
        (λ c'. capture_loop args c' rounds) h (λ file ps'. k (record c { file = file }) ps'))
]

loop-Reads :
    (args : List Text) (c : Capture) (rounds : List Round) (ps : List Packet)
    → IsCapture c.file ps
    → Reads
        (Refuses rounds)
        (kept_since args c.start_time rounds ps)
        (file_of (capture_loop args c rounds))
unfolding capture_loop kept_since
loop-Reads args c [] ps h = IsCapture-Reads ⊥ c.file ps h
loop-Reads args c (r ∷ rounds) ps h =
    round-Reads (Refuses (r ∷ rounds)) args c r rounds ps h inl (λ c' ps' k.
      Reads-later (Refuses rounds) (Refuses (r ∷ rounds)) (kept_since args c'.start_time rounds ps')
        (file_of (capture_loop args c' rounds)) inr (loop-Reads args c' rounds ps' k))

-- After any rounds from a new file, a reader of the file that is open finds exactly the packets that
-- were received and kept since the last rotation, in order, with their times and bytes; there is no
-- open file only if the rotation of some round could not open it.
pub capture_loop-Reads :
    (args : List Text) (start_time : ℕ) (rounds : List Round)
    → Reads
        (Refuses rounds)
        (kept_since args start_time rounds [])
        (file_of (capture_loop args (empty_at start_time) rounds))
capture_loop-Reads args start_time rounds =
    loop-Reads args (empty_at start_time) rounds [] (append-nil pcap_header, tt)
