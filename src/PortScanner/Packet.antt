-- ===== src/PortScanner/Packet.antt =====
-- `build_iph`, `build_tcph` and `tcp_checksum` of projects/networking/port-scanner/main.c.
use c_systems_programming.Common.{ℕ, ◌≡◌, List, [], ◌∷◌, ◌++◌, Text, arith, u16}
use c_systems_programming.PortScanner.{
  Iphdr, Tcphdr, ScanConfig, le16, le32, htons, htonl, tcph_front, tcph_bytes, iph_bytes,
  window_size, ipproto_tcp,
}
use c_systems_programming.PortScanner.Checksum.{checksum, checksum_verifies}

-- `build_iph`; `inet_addr` gives the address of a text, and `random` is what `rand` returned.
unfoldable pub build_iph : (Text → ℕ) → ℕ → ScanConfig → Iphdr
build_iph inet_addr random config = record {
  ihl = 5;
  version = 4;
  tos = 0;
  tot_len = 0;
  id = htons (u16 random);
  frag_off = 0;
  ttl = 64;
  protocol = ipproto_tcp;
  check = 0;
  saddr = inet_addr config.src_ip;
  daddr = config.dest;
}

-- `pseudo_header`, and its 12 bytes.
pub record PseudoHeader : Type 0 where
  pub source_addr : ℕ
  pub dest_addr : ℕ
  pub zero_byte : ℕ
  pub protocol : ℕ
  pub tcp_len : ℕ

abbrev pub pseudo_header_bytes : PseudoHeader → List ℕ
pseudo_header_bytes h =
    le32 h.source_addr ++ (le32 h.dest_addr ++ (h.zero_byte ∷ h.protocol ∷ le16 h.tcp_len))

-- `pseudo`, as `tcp_checksum` fills it.
unfoldable pub pseudo_bytes : Iphdr → List ℕ
pseudo_bytes iph = pseudo_header_bytes (record {
  source_addr = iph.saddr;
  dest_addr = iph.daddr;
  zero_byte = 0;
  protocol = ipproto_tcp;
  tcp_len = htons 20;
})

-- `tcp_checksum`
pub tcp_checksum : Tcphdr → Iphdr → ℕ
tcp_checksum tcph iph = checksum (pseudo_bytes iph ++ tcph_bytes tcph)

-- `build_tcph` before its last statement; the packet was cleared by `memset`.
unfoldable pub tcph_without_check : ℕ → ScanConfig → ℕ → Tcphdr
tcph_without_check random config port = record {
  source = htons config.src_port;
  dest = htons port;
  seq = htonl random;
  ack_seq = 0;
  doff = 5;
  fin = 0;
  syn = 1;
  rst = 0;
  psh = 0;
  ack = 0;
  urg = 0;
  window = htons window_size;
  check = 0;
  urg_ptr = 0;
}

-- `build_tcph`
unfoldable pub build_tcph : ℕ → Iphdr → ScanConfig → ℕ → Tcphdr
unfolding tcph_without_check
build_tcph random iph config port =
    let tcph = tcph_without_check random config port in
    record tcph { check = tcp_checksum tcph iph }

-- The packet that `syn_scan` builds: both headers, one behind the other.
unfoldable pub syn_packet : (Text → ℕ) → ℕ → ℕ → ScanConfig → ℕ → List ℕ
syn_packet inet_addr id_random seq_random config port =
    let iph = build_iph inet_addr id_random config in
    iph_bytes iph ++ tcph_bytes (build_tcph seq_random iph config port)

-- Every SYN that the scanner builds, whatever the addresses, ports and random numbers, carries a
-- checksum that verifies over the pseudo header and the segment.
pub build_tcph_verifies :
    (random : ℕ) (iph : Iphdr) (config : ScanConfig) (port : ℕ)
    → checksum (pseudo_bytes iph ++ tcph_bytes (build_tcph random iph config port)) ≡ 0
unfolding build_tcph tcph_bytes tcp_checksum pseudo_bytes
build_tcph_verifies random iph config port =
    checksum_verifies (pseudo_bytes iph ++ tcph_front (tcph_without_check random config port))
      (0 ∷ 0 ∷ []) (omega arith) (omega arith) (omega arith)
