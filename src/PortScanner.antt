-- ===== src/PortScanner.antt =====
-- projects/networking/port-scanner/main.c: the headers as the compiler lays them out in memory on a
-- little-endian host, and the scan's configuration.
pub mod Checksum
pub mod Packet
pub mod Receiver
pub mod Listen
pub mod Scan
mod Tests
pub use c_systems_programming.Common.{le16, le32}
use c_systems_programming.Common.{ℕ, ◌+◌, ◌*◌, ◌/◌, ◌%◌, ◌^◌, List, [], ◌∷◌, ◌++◌, Text}

-- `htons`, which is its own inverse `ntohs`, and `htonl`.
abbrev pub htons : ℕ → ℕ
htons n = n % 256 * 256 + n / 256 % 256

abbrev pub htonl : ℕ → ℕ
htonl n =
    n % 256 * 16777216 + (n / 256 % 256 * 65536 + (n / 65536 % 256 * 256 + n / 16777216 % 256))

-- `struct iphdr`; each field holds the number that the C code stores in it.
pub record Iphdr : Type 0 where
  pub ihl : ℕ
  pub version : ℕ
  pub tos : ℕ
  pub tot_len : ℕ
  pub id : ℕ
  pub frag_off : ℕ
  pub ttl : ℕ
  pub protocol : ℕ
  pub check : ℕ
  pub saddr : ℕ
  pub daddr : ℕ

-- `struct tcphdr`; the flags that are not named are never set.
pub record Tcphdr : Type 0 where
  pub source : ℕ
  pub dest : ℕ
  pub seq : ℕ
  pub ack_seq : ℕ
  pub doff : ℕ
  pub fin : ℕ
  pub syn : ℕ
  pub rst : ℕ
  pub psh : ℕ
  pub ack : ℕ
  pub urg : ℕ
  pub window : ℕ
  pub check : ℕ
  pub urg_ptr : ℕ

-- The 20 bytes of each header.
pub iph_bytes : Iphdr → List ℕ
iph_bytes h =
    (h.ihl % 16 + h.version % 16 * 16)
    ∷ h.tos % 256
    ∷ (le16 h.tot_len
        ++ (le16 h.id
            ++ (le16 h.frag_off
                ++ (h.ttl % 256
                    ∷ h.protocol % 256
                    ∷ (le16 h.check ++ (le32 h.saddr ++ le32 h.daddr))))))

abbrev pub flag_bits : Tcphdr → ℕ
flag_bits t =
    t.fin % 2 + t.syn % 2 * 2 + t.rst % 2 * 4 + t.psh % 2 * 8 + t.ack % 2 * 16 + t.urg % 2 * 32

-- The header up to the checksum.
abbrev pub tcph_front : Tcphdr → List ℕ
tcph_front t =
    le16 t.source
    ++ (le16 t.dest
        ++ (le32 t.seq ++ (le32 t.ack_seq ++ (t.doff % 16 * 16 ∷ flag_bits t ∷ le16 t.window))))

pub tcph_bytes : Tcphdr → List ℕ
tcph_bytes t = tcph_front t ++ (le16 t.check ++ le16 t.urg_ptr)

-- `scan_config`: the addresses as text, and the destination as a 32-bit number.
pub record ScanConfig : Type 0 where
  pub src_ip : Text
  pub dst_ip : Text
  pub src_port : ℕ
  pub port_start : ℕ
  pub port_end : ℕ
  pub dest : ℕ

-- SOURCE_PORT, WINDOW_SIZE, SIZE, IPPROTO_TCP
abbrev pub source_port : ℕ
source_port = 45677

abbrev pub window_size : ℕ
window_size = 65535

abbrev pub buffer_size : ℕ
buffer_size = 4096

abbrev pub ipproto_tcp : ℕ
ipproto_tcp = 6
