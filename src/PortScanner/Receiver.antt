-- ===== src/PortScanner/Receiver.antt =====
-- What a host reads in a packet that projects/networking/port-scanner/main.c sends, by the layouts of
-- the IP and TCP headers in RFC 791 and RFC 9293.
use c_systems_programming.Common.{
  ℕ, ◌+◌, ◌*◌, ◌%◌, ◌<◌, ◌≡◌, refl, ap, ◌∙◌, List, [], ◌∷◌, ◌++◌, Text, length, take, drop, get_or,
  le32, arith,
}
use c_systems_programming.PortScanner.{ScanConfig, iph_bytes, tcph_bytes}
use c_systems_programming.PortScanner.Checksum.{word_sum, checksum_lem}
use c_systems_programming.PortScanner.Packet.{
  build_iph, build_tcph, tcph_without_check, pseudo_bytes, syn_packet, build_tcph_verifies,
}

-- The bytes that the TCP checksum covers: the pseudo header, with the addresses of the packet, the
-- protocol 6 and the length 20 of the segment, and the segment.
abbrev pub covered : List ℕ → List ℕ
covered bytes =
    take 4 (drop 12 bytes) ++ (take 4 (drop 16 bytes) ++ (0 ∷ 6 ∷ 0 ∷ 20 ∷ drop 20 bytes))

-- A whole SYN without options or data, from an address and a port to an address and a port. The total
-- length and the checksum of the IP header, which the kernel fills in, are not looked at.
pub record IsSyn (source dest source_port dest_port : ℕ) (bytes : List ℕ) : Type 0 where
  pub whole : length bytes ≡ 40
  pub version : get_or bytes 0 0 ≡ 0x45
  pub unfragmented : take 2 (drop 6 bytes) ≡ 0 ∷ 0 ∷ []
  pub alive : 0 < get_or bytes 8 0
  pub is_tcp : get_or bytes 9 0 ≡ 6
  pub sender : take 4 (drop 12 bytes) ≡ le32 source
  pub receiver : take 4 (drop 16 bytes) ≡ le32 dest
  pub sender_port : get_or bytes 20 0 * 256 + get_or bytes 21 0 ≡ source_port
  pub receiver_port : get_or bytes 22 0 * 256 + get_or bytes 23 0 ≡ dest_port
  pub data_offset : get_or bytes 32 0 ≡ 0x50
  pub flags : get_or bytes 33 0 ≡ 2
  pub verified : word_sum (covered bytes) % 65535 ≡ 0

module _ (inet_addr : Text → ℕ) (id seq : ℕ) (config : ScanConfig) (port : ℕ) where
  covered-syn_packet :
      covered (syn_packet inet_addr id seq config port)
      ≡ pseudo_bytes (build_iph inet_addr id config)
        ++ tcph_bytes (build_tcph seq (build_iph inet_addr id config) config port)
  unfolding syn_packet build_iph iph_bytes pseudo_bytes
  covered-syn_packet = refl

  syn_packet-verified : word_sum (covered (syn_packet inet_addr id seq config port)) % 65535 ≡ 0
  unfolding pseudo_bytes tcph_bytes
  syn_packet-verified =
      let iph = build_iph inet_addr id config in
      let bytes = pseudo_bytes iph ++ tcph_bytes (build_tcph seq iph config port) in
      ap (λ t. word_sum t % 65535) covered-syn_packet
      ∙ omega (
        arith,
        build_tcph_verifies seq iph config port,
        (checksum_lem bytes (omega arith) (omega arith)).0,
      )

  -- Every packet that the scanner builds for a port below 65536, from a port below 65536, is for a host
  -- that reads it by the RFCs, once the kernel has filled in the total length and the checksum of the
  -- IP header, a SYN of 40 bytes without options, from the address and the port of the configuration
  -- to the address of the target and that port, with a TCP checksum that verifies over the pseudo
  -- header of these addresses and the segment.
  pub syn_packet-IsSyn :
      config.src_port < 65536
      → port < 65536
      → IsSyn
          (inet_addr config.src_ip)
          config.dest
          config.src_port
          port
          (syn_packet inet_addr id seq config port)
  unfolding syn_packet build_iph build_tcph tcph_without_check iph_bytes tcph_bytes
  syn_packet-IsSyn small h = record {
    whole = refl;
    version = refl;
    unfragmented = refl;
    alive = omega arith;
    is_tcp = refl;
    sender = refl;
    receiver = refl;
    sender_port = omega (arith, small);
    receiver_port = omega (arith, h);
    data_offset = refl;
    flags = refl;
    verified = syn_packet-verified;
  }
