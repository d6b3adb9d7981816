-- ===== src/PacketSniffer/Tests.antt =====
-- Rounds of projects/networking/packet-sniffer/main.c, and its interfaces.
use c_systems_programming.Common.{
  ℕ, Bool, Text, some, false, ◌==◌, ◌≡◌, refl, [], ◌∷◌, ◌++◌, true, codes, append-nil,
}
use c_systems_programming.PacketSniffer.{
  pcap_header, packet_bytes, received, Round, Capture, running, is_wanted, rotate, receive,
  capture_round, capture_loop,
}
use c_systems_programming.PacketSniffer.Promisc.{Interfaces, set_flag, set_promisc, set_all, chosen}
use c_systems_programming.PacketSniffer.Main.{World, sniffer_main, Restored, sniffer_main-Restored}
use c_systems_programming.PacketSniffer.Rounds.{
  IsCapture, Holds, Lost, after_round, file_of, capture_round-Holds,
}
use c_systems_programming.PacketSniffer.Readback.{
  empty_at, kept_since, Refuses, Reads, capture_loop-Reads,
}

abbrev fresh : Capture
fresh = record { start_time = 100; file = pcap_header }

abbrev arrives : Round
arrives = record {
  now = 200;
  restarted = 200;
  can_open = true;
  answer = received (1 ∷ 2 ∷ 3 ∷ []) (codes "eth0") 1700000000 5;
}

abbrev rotates : Round
rotates = record arrives { now = 7300; answer = received (9 ∷ []) (codes "lo") 1700007100 5 }

fresh-IsCapture : IsCapture pcap_header []
fresh-IsCapture = (append-nil pcap_header, tt)

arrives-written :
    capture_round [] fresh arrives
    ≡ running (record fresh {
      file =
          pcap_header
          ++ packet_bytes (record { ts_sec = 1700000000; ts_usec = 5; frame = 1 ∷ 2 ∷ 3 ∷ [] });
    })
unfolding capture_round rotate receive is_wanted
arrives-written = refl

capture_round-Holds_example :
    Holds (Lost fresh arrives) (after_round [] fresh arrives []) (capture_round [] fresh arrives)
capture_round-Holds_example = capture_round-Holds [] fresh arrives [] fresh-IsCapture

-- The rotation drops the packet of the first round, and the one on lo is not kept.
capture_loop-Reads_example :
    Reads
      (Refuses (arrives ∷ rotates ∷ arrives ∷ []))
      (kept_since [] 100 (arrives ∷ rotates ∷ arrives ∷ []) [])
      (file_of (capture_loop [] (empty_at 100) (arrives ∷ rotates ∷ arrives ∷ [])))
capture_loop-Reads_example = capture_loop-Reads [] 100 (arrives ∷ rotates ∷ arrives ∷ [])

abbrev always : ℕ → Bool
always i = true

abbrev none_set : Text → Bool
none_set k = false

-- Of eth0 and wlan0 only the first can be set.
abbrev first_only : ℕ → Bool
first_only left = left == 1

abbrev eth0_set : Interfaces
eth0_set = record { flags = set_flag none_set (codes "eth0") true; promisc = codes "eth0" ∷ [] }

eth0-is_set :
    set_all first_only
      (chosen [] (codes "lo" ∷ codes "eth0" ∷ codes "wlan0" ∷ []))
      (record { flags = none_set; promisc = [] })
    ≡ some eth0_set
unfolding set_all set_promisc
eth0-is_set = refl

-- A run that can set eth0 only, and captures two packets.
abbrev world : World
world = record {
  socket = some 3;
  names = some (codes "lo" ∷ codes "eth0" ∷ codes "wlan0" ∷ []);
  succeeds = first_only;
  restores = always;
  file_ok = true;
  start_time = 100;
  rounds = arrives ∷ rotates ∷ arrives ∷ [];
}

sniffer_main-Restored_example : Restored none_set (codes "eth0") (sniffer_main [] world none_set)
sniffer_main-Restored_example = sniffer_main-Restored [] world none_set (codes "eth0") (λ i. refl)
