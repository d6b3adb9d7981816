-- ===== src/UdpMessenger/Tests.antt =====
-- The sender of projects/networking/udp-messenger, on a message that is refused in the third round.
use c_systems_programming.Common.{
  ℕ, ◌≡◌, [], ◌∷◌, ◌++◌, Option, some, none, codes, atoi, ltb, if◌then◌else◌,
}
use c_systems_programming.UdpMessenger.{
  connects, write, close, print, connected, udp_main, udp_main_lem, repeated, closed_text,
}

abbrev refused : ℕ → Option ℕ
refused i = if ltb i 2 then some 2 else none

udp-refused :
    udp_main (codes "udp" ∷ codes "127.0.0.1" ∷ codes "53" ∷ codes "hi" ∷ []) (connected 3) refused
    ≡ (
      connects 3 (codes "127.0.0.1") (atoi (codes "53"))
            ∷ (repeated 3 (codes "hi") 2 ++ (write 3 (codes "hi") ∷ print closed_text ∷ []))
          ++ (close 3 ∷ []),
      0,
    )
udp-refused = udp_main_lem (codes "udp") (codes "127.0.0.1") (codes "53") (codes "hi") 3 refused
