-- ===== src/PortScanner/Tests.antt =====
-- The checksum and the scan of projects/networking/port-scanner/main.c on small inputs.
use c_systems_programming.Common.{
  ℕ, ◌+◌, ◌*◌, ap, Bool, take, get_or, ◌==◌, ◌%◌, ◌<◌, ◌≡◌, refl, true, some, none, List, [], ◌∷◌,
  ◌++◌, Text, codes, arith, if◌then◌else◌,
}
use c_systems_programming.Common.CLib.{atoi}
use c_systems_programming.PortScanner.{
  Iphdr, Tcphdr, ScanConfig, htons, iph_bytes, tcph_bytes, source_port,
}
use c_systems_programming.PortScanner.Checksum.{
  checksum, word_sum, checksum_lem, sum_words, fold_carries,
}
use c_systems_programming.PortScanner.Receiver.{IsSyn, syn_packet-IsSyn}
use c_systems_programming.PortScanner.Listen.{process, process_tcp}
use c_systems_programming.PortScanner.Listen.Reply.{is_open, process_lem}
use c_systems_programming.PortScanner.Packet.{syn_packet}
use c_systems_programming.PortScanner.Listen.{listen_synacks}
use c_systems_programming.PortScanner.Listen.Stream.{Reply, IsReply, reply_bytes}
use c_systems_programming.PortScanner.Scan.Found.{answers_to, IsTarget, scanner_main_finds}
use c_systems_programming.PortScanner.Scan.{LocalAnswer, Answer, make_config, scanner_main}
use c_systems_programming.PortScanner.Scan.Sockets.{IsBalanced, scanner_main-IsBalanced}

checksum_small : checksum (1 ∷ 2 ∷ 3 ∷ []) ≡ 64999 + 20
unfolding checksum sum_words fold_carries
checksum_small = refl

abbrev config : ScanConfig
config = record {
  src_ip = codes "10.0.0.1";
  dst_ip = codes "10.0.0.2";
  src_port = source_port;
  port_start = 20;
  port_end = 80;
  dest = 33554442;
}

-- 10.0.0.1 as `inet_addr` gives it on a little-endian host.
abbrev addr : Text → ℕ
addr t = 16777226

checksum_lem_example :
    ((word_sum (1 ∷ 2 ∷ 3 ∷ []) + checksum (1 ∷ 2 ∷ 3 ∷ [])) % 65535 ≡ 0)
    × (checksum (1 ∷ 2 ∷ 3 ∷ []) < 65536)
checksum_lem_example = checksum_lem (1 ∷ 2 ∷ 3 ∷ []) (omega arith) (omega arith)

syn_packet-IsSyn_example : IsSyn 16777226 33554442 45677 80 (syn_packet addr 5 99 config 80)
syn_packet-IsSyn_example = syn_packet-IsSyn addr 5 99 config 80 (omega arith) (omega arith)

-- A SYN-ACK from port 22.
abbrev reply_ip : Iphdr
reply_ip = record {
  ihl = 5;
  version = 4;
  tos = 0;
  tot_len = 0;
  id = 0;
  frag_off = 0;
  ttl = 64;
  protocol = 6;
  check = 0;
  saddr = 33554442;
  daddr = 16777226;
}

abbrev reply_tcp : Tcphdr
reply_tcp = record {
  source = htons 22;
  dest = htons source_port;
  seq = 0;
  ack_seq = 0;
  doff = 5;
  fin = 0;
  syn = 1;
  rst = 0;
  psh = 0;
  ack = 1;
  urg = 0;
  window = 0;
  check = 0;
  urg_ptr = 0;
}

process_lem_example :
    process (iph_bytes reply_ip ++ ([] ++ (tcph_bytes reply_tcp ++ []))) 40 config
    ≡ (if is_open config reply_ip reply_tcp then some (htons (htons 22)) else none)
process_lem_example =
    process_lem config reply_ip reply_tcp [] [] 40 (omega arith) refl (omega arith)

process_reports : process (iph_bytes reply_ip ++ tcph_bytes reply_tcp) 40 config ≡ some 22
unfolding process process_tcp iph_bytes tcph_bytes
process_reports = refl

abbrev all_sent : ℕ → Answer
all_sent port = Answer.sends 5 1 2

abbrev args : List Text
args = codes "10.0.0.2" ∷ codes "20" ∷ codes "23" ∷ []

scanner_main-IsBalanced_example :
    IsBalanced
      (scanner_main addr args (LocalAnswer.address 3 (codes "10.0.0.1")) true all_sent).calls
scanner_main-IsBalanced_example =
    scanner_main-IsBalanced addr args (LocalAnswer.address 3 (codes "10.0.0.1")) true all_sent

-- A target at the address, with port 22 open, that reads the port from the probe.
abbrev is_ssh : ℕ → Bool
is_ssh port = port == 22

abbrev reply_for : ℕ → Reply
reply_for port = record {
  iph = record reply_ip { saddr = 16777226 };
  options = [];
  tcph = record reply_tcp { source = htons port; syn = if is_ssh port then 1 else 0 };
  back = [];
}

abbrev host : List ℕ → List ℕ
host bytes = reply_bytes (reply_for (get_or bytes 22 0 * 256 + get_or bytes 23 0))

abbrev range_config : ScanConfig
range_config = make_config addr (take 19 (codes "10.0.0.1")) (codes "10.0.0.2") 20 23

reply_for-IsReply : (port : ℕ) → IsReply (reply_for port)
unfolding iph_bytes tcph_bytes
reply_for-IsReply port = record {
  header = record {
    ihl_small = omega arith;
    saddr_small = omega arith;
    source_small = omega arith;
    dest_small = omega arith;
    fin_bit = omega arith;
    syn_bit = ground arith;
    rst_bit = omega arith;
    psh_bit = omega arith;
    ack_bit = omega arith;
    urg_bit = omega arith;
  };
  ihl = refl;
  fits = omega arith;
}

host-IsTarget : IsTarget addr range_config is_ssh host
host-IsTarget = record {
  reply = λ port bytes. reply_for port;
  answers = λ port bytes h k. ap (λ p. reply_bytes (reply_for p)) k.receiver_port;
  whole = λ port bytes. reply_for-IsReply port;
  from_target = λ port bytes. refl;
  from_port = λ port bytes. refl;
  to_scanner = λ port bytes. refl;
  syn = λ port bytes. refl;
  ack = λ port bytes. refl;
}

scanner_main_finds_example :
    (listen_synacks true range_config [] (
        answers_to host
          (scanner_main addr args (LocalAnswer.address 3 (codes "10.0.0.1")) true all_sent).calls)
      ≡ 22 ∷ [])
    × ((scanner_main addr args (LocalAnswer.address 3 (codes "10.0.0.1")) true all_sent).status ≡ 0)
unfolding atoi
scanner_main_finds_example =
    scanner_main_finds addr (codes "10.0.0.2") (codes "20") (codes "23") [] 3 (codes "10.0.0.1")
      all_sent [] 20 23 is_ssh host refl refl (omega arith) (omega arith) (omega arith)
      (λ e. omega (arith, e)) host-IsTarget
