-- ===== src/PacketSniffer.antt =====
-- projects/networking/packet-sniffer/main.c: the loop that captures packets into captures.pcap. What
-- recvfrom, if_indextoname and the clock give is an input; fwrite and fflush succeed.
pub mod Reader
pub mod Rounds
pub mod Readback
pub mod Promisc
pub mod Main
mod Tests
use c_systems_programming.Common.{
  ℕ, ◌-◌, List, [], ◌∷◌, ◌++◌, Bool, true, false, Option, some, none, Text, codes, ltb, leb, ◌==◌,
  not, ◌&&◌, ◌||◌, if◌then◌else◌, length, text_eq, u32, le16, le32,
}

-- MAX_LEN and TIME_ROTATION
abbrev pub max_len : ℕ
max_len = 65535

abbrev pub time_rotation : ℕ
time_rotation = 7200

-- `struct pcap_header` and `struct packet_header`, with the bytes that `fwrite` takes from them.
pub record PcapHeader : Type 0 where
  pub magic_number : ℕ
  pub version_major : ℕ
  pub version_minor : ℕ
  pub reserved1 : ℕ
  pub reserved2 : ℕ
  pub snaplen : ℕ
  pub link_type : ℕ

abbrev pub pcap_header_bytes : PcapHeader → List ℕ
pcap_header_bytes h =
    le32 h.magic_number
    ++ (le16 h.version_major
        ++ (le16 h.version_minor
            ++ (le32 h.reserved1 ++ (le32 h.reserved2 ++ (le32 h.snaplen ++ le32 h.link_type)))))

pub record PacketHeader : Type 0 where
  pub ts_sec : ℕ
  pub ts_usec : ℕ
  pub incl_len : ℕ
  pub orig_len : ℕ

abbrev pub packet_header_bytes : PacketHeader → List ℕ
packet_header_bytes h = le32 h.ts_sec ++ (le32 h.ts_usec ++ (le32 h.incl_len ++ le32 h.orig_len))

-- `phdr`, as it is written.
abbrev pub pcap_header : List ℕ
pcap_header = pcap_header_bytes (record {
  magic_number = 0xA1B2C3D4;
  version_major = 2;
  version_minor = 4;
  reserved1 = 0;
  reserved2 = 0;
  snaplen = max_len;
  link_type = 1;
})

-- A captured packet, and its header and bytes as they are written.
pub record Packet : Type 0 where
  pub ts_sec : ℕ
  pub ts_usec : ℕ
  pub frame : List ℕ

abbrev pub header_of : Packet → PacketHeader
header_of p = record {
  ts_sec = p.ts_sec;
  ts_usec = p.ts_usec;
  incl_len = length p.frame;
  orig_len = length p.frame;
}

abbrev pub packet_bytes : Packet → List ℕ
packet_bytes p = packet_header_bytes (header_of p) ++ p.frame

-- The filter on the interface: the ones named by the arguments, or all but lo.
abbrev pub is_named : List Text → Text → Bool
is_named [] name = false
is_named (arg ∷ args) name = text_eq name arg || is_named args name

pub is_wanted : List Text → Text → Bool
is_wanted [] name = not (text_eq name (codes "lo"))
is_wanted (arg ∷ args) name = is_named (arg ∷ args) name

-- What `recvfrom` gives in a round, with the name of the interface and the time of the day.
pub data Received : Type 0 where
  failed : Received
  received : List ℕ → Text → ℕ → ℕ → Received

-- A round of the loop: the clock, the clock after a rotation, and whether the file could be opened
-- again.
pub record Round : Type 0 where
  pub now : ℕ
  pub restarted : ℕ
  pub can_open : Bool
  pub answer : Received

-- `start_time`, and what has been written to `file`.
pub record Capture : Type 0 where
  pub start_time : ℕ
  pub file : List ℕ

-- The loop goes on, or it has come to `cleanup`, with the file that is open.
pub data Progress : Type 0 where
  running : Capture → Progress
  cleanup : Option (List ℕ) → Progress

-- The first statement of a round. A clock that was set back does not rotate.
abbrev pub is_due : Capture → Round → Bool
is_due c r = leb time_rotation (r.now - c.start_time)

pub rotate : Capture → Round → Option Capture
rotate c r =
    if is_due c r
    then (if r.can_open
        then some (record { start_time = r.restarted; file = pcap_header })
        else none)
    else some c

-- Whether a packet is written.
abbrev pub is_kept : List Text → List ℕ → Text → Bool
is_kept args bytes name =
    not ((length bytes == 0) || ltb max_len (length bytes)) && is_wanted args name

-- The rest of a round.
pub receive : List Text → Capture → Received → Progress
receive args c failed = cleanup (some c.file)
receive args c (received bytes name sec usec) =
    if is_kept args bytes name
    then running (record c {
      file =
          c.file ++ packet_bytes (record { ts_sec = u32 sec; ts_usec = u32 usec; frame = bytes });
    })
    else running c

abbrev pub receive_rotated : List Text → Option Capture → Received → Progress
receive_rotated args none answer = cleanup none
receive_rotated args (some c) answer = receive args c answer

pub capture_round : List Text → Capture → Round → Progress
unfolding rotate receive
capture_round args c r = receive_rotated args (rotate c r) r.answer

-- The loop, over the rounds in which `keep_running` is set.
abbrev pub capture_from : (Capture → Progress) → Progress → Progress
capture_from later (running c) = later c
capture_from later (cleanup file) = cleanup file

pub capture_loop : List Text → Capture → List Round → Progress
unfolding capture_round
capture_loop args c [] = cleanup (some c.file)
capture_loop args c (r ∷ rounds) =
    capture_from (λ c'. capture_loop args c' rounds) (capture_round args c r)
