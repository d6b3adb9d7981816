-- ===== src/PacketSniffer/Reader.antt =====
-- A reader of the files that projects/networking/packet-sniffer/main.c writes.
use c_systems_programming.Common.{
  ℕ, zero, suc, ◌+◌, ◌*◌, ◌^◌, ◌/◌, ◌%◌, ◌≤◌, ◌<◌, ◌≡◌, refl, ap, ◌∙◌, List, [], ◌∷◌, ◌++◌, false,
  Option, some, none, ltb, ◌==◌, if◌then◌else◌, length, take, drop, load32, All, arith,
  length-append, take-append, drop-append, if_elim,
}
use c_systems_programming.PacketSniffer.{max_len, pcap_header, Packet, packet_bytes}

abbrev pub cons_packet : Packet → Option (List Packet) → Option (List Packet)
cons_packet p none = none
cons_packet p (some ps) = some (p ∷ ps)

-- A packet whose header has been read, and what `later` reads behind it.
pub read_body : (List ℕ → Option (List Packet)) → ℕ → ℕ → ℕ → List ℕ → Option (List Packet)
read_body later sec usec size body =
    if ltb (length body) size
    then none
    else cons_packet (record { ts_sec = sec; ts_usec = usec; frame = take size body })
        (later (drop size body))

-- The packets of a file behind its header, each with its header of 16 bytes.
pub parse_packets : ℕ → List ℕ → Option (List Packet)
parse_packets rounds [] = some []
parse_packets zero (b ∷ bs) = none
parse_packets (suc rounds) (b ∷ bs) =
    let bytes = b ∷ bs in
    if ltb (length bytes) 16
    then none
    else read_body (λ rest. parse_packets rounds rest) (load32 bytes 0) (load32 bytes 4)
        (load32 bytes 8) (drop 16 bytes)

-- A reader that wants the magic number, and packets of at most the length in the header.
pub parse_pcap : List ℕ → Option (List Packet)
parse_pcap file =
    if ltb (length file) 24
    then none
    else if load32 file 0 == 0xA1B2C3D4
    then parse_packets (length file) (drop 24 file)
    else none

abbrev pub IsPacket : Packet → Type 0
IsPacket p =
    (p.ts_sec < 2 ^ 32) × (p.ts_usec < 2 ^ 32) × (1 ≤ length p.frame) × (length p.frame ≤ max_len)

abbrev pub all_bytes : List Packet → List ℕ
all_bytes [] = []
all_bytes (p ∷ ps) = packet_bytes p ++ all_bytes ps

load32-le32 :
    (n : ℕ)
    → n < 2 ^ 32
    → n % 256 + 256 * (n / 256 % 256) + 65536 * (n / 65536 % 256 + 256 * (n / 16777216 % 256)) ≡ n
load32-le32 n h = omega arith

read_body-frame :
    (later : List ℕ → Option (List Packet)) (p : Packet) (rest : List ℕ)
    → read_body later p.ts_sec p.ts_usec (length p.frame) (p.frame ++ rest)
      ≡ cons_packet p (later rest)
unfolding read_body
read_body-frame later p rest =
    let enough : ltb (length (p.frame ++ rest)) (length p.frame) ≡ false =
      ground (arith, length-append p.frame rest) in
    rw (enough, take-append p.frame rest, drop-append p.frame rest) refl

parse_packets-cons :
    (rounds : ℕ) (p : Packet) (rest : List ℕ)
    → IsPacket p
    → parse_packets (suc rounds) (packet_bytes p ++ rest)
      ≡ cons_packet p (parse_packets rounds rest)
unfolding parse_packets
parse_packets-cons rounds p rest h =
    if_elim (λ (r : Option (List Packet)). r ≡ cons_packet p (later rest)) (ltb (length bytes) 16)
      (λ e. absurd (ground (arith, e)))
      (λ e.
        ap (λ n. read_body later n (load32 bytes 4) (load32 bytes 8) body)
          (load32-le32 p.ts_sec h.0)
        ∙ ap (λ n. read_body later p.ts_sec n (load32 bytes 8) body) (load32-le32 p.ts_usec h.1)
        ∙ ap (λ n. read_body later p.ts_sec p.ts_usec n body)
            (load32-le32 (length p.frame) (omega (arith, h.3)))
        ∙ read_body-frame later p rest)
  where
    later : List ℕ → Option (List Packet)
    later r = parse_packets rounds r

    bytes : List ℕ
    bytes = packet_bytes p ++ rest

    body : List ℕ
    body = p.frame ++ rest

parse_packets-all_bytes :
    (rounds : ℕ) (ps : List Packet)
    → All IsPacket ps
    → length ps ≤ rounds
    → parse_packets rounds (all_bytes ps) ≡ some ps
unfolding parse_packets
parse_packets-all_bytes rounds [] h k = refl
parse_packets-all_bytes zero (p ∷ ps) h k = absurd (omega (arith, k))
parse_packets-all_bytes (suc rounds) (p ∷ ps) h k =
    parse_packets-cons rounds p (all_bytes ps) h.0
    ∙ ap (cons_packet p) (parse_packets-all_bytes rounds ps h.1 (omega (arith, k)))

length-all_bytes : (ps : List Packet) → length ps ≤ length (all_bytes ps)
length-all_bytes [] = omega arith
length-all_bytes (p ∷ ps) = omega (arith, length-all_bytes ps, length-append p.frame (all_bytes ps))

-- The reader finds the packets that were written behind the header.
pub parse_pcap-all_bytes :
    (ps : List Packet) → All IsPacket ps → parse_pcap (pcap_header ++ all_bytes ps) ≡ some ps
unfolding parse_pcap
parse_pcap-all_bytes ps h =
    if_elim (λ (r : Option (List Packet)). r ≡ some ps)
      (ltb (length (pcap_header ++ all_bytes ps)) 24) (λ e. absurd (ground (arith, e)))
      (λ e.
        parse_packets-all_bytes (length (pcap_header ++ all_bytes ps)) ps h
          (omega (arith, length-all_bytes ps)))
