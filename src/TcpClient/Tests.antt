-- ===== src/TcpClient/Tests.antt =====
-- The client of projects/networking/tcp-suite, and a chat with its server, on a few rounds.
use c_systems_programming.Common.{
  bytes_of, ◌≡◌, refl, sym, ap, List, [], ◌∷◌, true, false, some, none, Text, codes, ◌==◌,
  if◌then◌else◌, arith,
}
use c_systems_programming.TcpServer
use c_systems_programming.TcpServer.{Server, serve_loop}
use c_systems_programming.TcpServer.Delivery.{IsConnected, writes_to}
use c_systems_programming.TcpServer.Delivery.Rounds.{typed_all, Stays, serve_loop-writes}
use c_systems_programming.TcpServer.Heard.{Prints, told_all}
use c_systems_programming.TcpClient.{
  Events, from_server, from_stdin, client_round, readaw, connected, client_main, write, print,
  report, close,
}
use c_systems_programming.TcpClient.Relay.{
  Relays, printed, written, received, typed, client_main-Relays,
}
use c_systems_programming.TcpClient.Chat.{chat_delivers, chat_returns}

-- One answer from the server, and a line from stdin.
abbrev talks : Events
talks = record {
  reported = true;
  server_ready = true;
  stdin_ready = true;
  server_answer = some (codes "hi");
  stdin_answer = some (codes "yo\n");
}

abbrev ends : Events
ends = record talks { server_answer = none }

abbrev address : List Text
address = codes "127.0.0.1" ∷ codes "8080" ∷ []

client-ends :
    client_main address (connected 3) (talks ∷ ends ∷ talks ∷ [])
    ≡ (print (codes "hi") ∷ write 3 (codes "yo\n") ∷ report ∷ close 3 ∷ [], some 0)
unfolding client_main readaw client_round from_server from_stdin
client-ends = refl

client_main-Relays_example :
    Relays (talks ∷ talks ∷ []) 3 (client_main address (connected 3) (talks ∷ talks ∷ []))
client_main-Relays_example =
    client_main-Relays (codes "127.0.0.1") (codes "8080") 3 (talks ∷ talks ∷ [])

-- A server with the client in slot 3, and a line typed there.
abbrev one : Server
one = record { fd = λ i. if i == 3 then some 8 else none; ready = λ i. false; nfds = 4 }

one-IsConnected : IsConnected one 3 8
one-IsConnected = record {
  covered = record {
    nfds_min = omega arith;
    nfds_max = omega arith;
    inside = λ i ne. ground arith;
  };
  slot = omega arith;
  holds = refl;
  alone = λ j h e. ground arith;
}

abbrev line : TcpServer.Events
line = record {
  reported = true;
  poll_failed = false;
  revents = λ i. i == 1;
  accept_answer = none;
  stdin_answer = some (codes "hi");
  read_answers = λ i. TcpServer.received (codes "yo");
}

line-Stays : Stays 3 8 line
line-Stays = record { fresh = λ ip q. cc; sends = refl; polled = refl }

runs : (client_main address (connected 3) (talks ∷ [])).1 ≡ none
unfolding client_main readaw client_round from_server from_stdin
runs = refl

stream : bytes_of (received (talks ∷ [])) ≡ bytes_of (writes_to 8 (serve_loop one 4 (line ∷ [])).1)
stream =
    ap bytes_of (sym (serve_loop-writes one 4 3 8 (line ∷ []) one-IsConnected (line-Stays, tt)).0)

chat_delivers_example :
    bytes_of (printed (client_main address (connected 3) (talks ∷ [])).0)
    ≡ bytes_of (typed_all (line ∷ []))
chat_delivers_example =
    chat_delivers one 4 3 8 (line ∷ []) (codes "127.0.0.1") (codes "8080") 3 (talks ∷ [])
      one-IsConnected (line-Stays, tt) runs stream

-- The server reads the line that was typed at the client.
abbrev answer : TcpServer.Events
answer = record line {
  revents = λ i. i == 3;
  read_answers = λ i. TcpServer.received (codes "yo\n");
}

answer-Stays : Stays 3 8 answer
answer-Stays = record { fresh = λ ip q. cc; sends = refl; polled = refl }

answer-stream :
    told_all 3 (answer ∷ []) ≡ bytes_of (written (client_main address (connected 3) (talks ∷ [])).0)
unfolding client_main readaw client_round from_server from_stdin
answer-stream = refl

chat_returns_example : Prints (bytes_of (typed (talks ∷ []))) (serve_loop one 4 (answer ∷ [])).1
chat_returns_example =
    chat_returns one 4 3 8 (answer ∷ []) (codes "127.0.0.1") (codes "8080") 3 (talks ∷ [])
      one-IsConnected (answer-Stays, tt) runs answer-stream
