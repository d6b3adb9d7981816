-- ===== src/TcpServer/Tests.antt =====
-- The chat server of projects/networking/tcp-suite at small states.
use c_systems_programming.Common.{
  ◌≡◌, refl, [], ◌∷◌, ◌++◌, true, false, some, none, codes, ◌==◌, if◌then◌else◌, arith,
}
use c_systems_programming.TcpServer.{Server, closed, received, Events, serve_loop, initial}
use c_systems_programming.TcpServer.Cover.{IsCovered, initial-IsCovered, serve_loop-IsCovered}
use c_systems_programming.TcpServer.Delivery.{IsConnected, writes_to}
use c_systems_programming.TcpServer.Delivery.Rounds.{Stays, typed_all, serve_loop-writes}
use c_systems_programming.TcpServer.Room.{members}
use c_systems_programming.TcpServer.Room.Loop.Rounds.{all_arrivals, Settled, serve_loop-Settled}

abbrev arrives : Events
arrives = record {
  reported = true;
  poll_failed = false;
  revents = λ i. i == 0;
  accept_answer = some (5, codes "127.0.0.1");
  stdin_answer = none;
  read_answers = λ i. closed;
}

serve_loop-IsCovered_example :
    IsCovered (serve_loop (initial 3 (λ i. true)) 3 (arrives ∷ arrives ∷ [])).0
serve_loop-IsCovered_example =
    serve_loop-IsCovered (initial 3 (λ i. true)) 3 (arrives ∷ arrives ∷ [])
      (initial-IsCovered 3 (λ i. true))

-- One client in slot 3, after another has left slot 2.
abbrev one : Server
one = record { fd = λ i. if i == 3 then some 8 else none; ready = λ i. false; nfds = 4 }

one-IsCovered : IsCovered one
one-IsCovered = record {
  nfds_min = omega arith;
  nfds_max = omega arith;
  inside = λ i ne. ground arith;
}

-- A line is typed while the client in slot 3 stays.
abbrev line : Events
line = record {
  reported = true;
  poll_failed = false;
  revents = λ i. i == 1;
  accept_answer = none;
  stdin_answer = some (codes "hi");
  read_answers = λ i. received (codes "yo");
}

one-IsConnected : IsConnected one 3 8
one-IsConnected = record {
  covered = one-IsCovered;
  slot = omega arith;
  holds = refl;
  alone = λ j h e. ground arith;
}

line-Stays : Stays 3 8 line
line-Stays = record { fresh = λ ip q. cc; sends = refl; polled = refl }

serve_loop-writes_example :
    (writes_to 8 (serve_loop one 4 (line ∷ line ∷ [])).1 ≡ typed_all (line ∷ line ∷ []))
    × IsConnected (serve_loop one 4 (line ∷ line ∷ [])).0 3 8
serve_loop-writes_example =
    serve_loop-writes one 4 3 8 (line ∷ line ∷ []) one-IsConnected (line-Stays, (line-Stays, tt))

-- A round in which poll fails.
abbrev breaks : Events
breaks = record line { poll_failed = true; reported = false }

serve_loop-Settled_example :
    Settled true
      (all_arrivals one (arrives ∷ line ∷ breaks ∷ []) ++ members one)
      4
      (serve_loop one 4 (arrives ∷ line ∷ breaks ∷ []))
serve_loop-Settled_example = serve_loop-Settled one 4 (arrives ∷ line ∷ breaks ∷ []) one-IsCovered
