-- ===== src/TcpClient/Chat.antt =====
-- The server and a client of projects/networking/tcp-suite on the two ends of a connection.
use c_systems_programming.Common.{
  bytes_of, ℕ, ◌≡◌, ap, ◌∙◌, List, [], ◌∷◌, Option, some, none, Text, All,
}
use c_systems_programming.TcpServer
use c_systems_programming.TcpServer.{Server, serve_loop}
use c_systems_programming.TcpServer.Delivery.{IsConnected, writes_to}
use c_systems_programming.TcpServer.Delivery.Rounds.{Stays, typed_all, serve_loop-writes}
use c_systems_programming.TcpServer.Heard.{Prints, told_all, serve_loop-Prints}
use mathlib.Core.Path.{subst}
use c_systems_programming.TcpClient
use c_systems_programming.TcpClient.{connected, client_main}
use c_systems_programming.TcpClient.Relay.{
  printed, written, received, typed, Relays, client_main-Relays,
}

printed-received :
    (events : List TcpClient.Events) (socket_fd : ℕ) (r : List TcpClient.Call × Option ℕ)
    → Relays events socket_fd r
    → r.1 ≡ none
    → printed r.0 ≡ received events
printed-received events socket_fd (calls, none) h e = h.0
printed-received events socket_fd (calls, some status) h e = cc

-- While a client stays connected and `poll` does not fail, and if what it has read is what the
-- server has written, it has printed the bytes that were typed at the server, all of them and in
-- order, however they are cut into reads on either side, and whoever else comes and goes.
pub chat_delivers :
    (s : Server) (listening slot fd : ℕ) (server_events : List TcpServer.Events) (ip port : Text)
    (socket_fd : ℕ) (client_events : List TcpClient.Events)
    → IsConnected s slot fd
    → All (Stays slot fd) server_events
    → (client_main (ip ∷ port ∷ []) (connected socket_fd) client_events).1 ≡ none
    → bytes_of (received client_events)
      ≡ bytes_of (writes_to fd (serve_loop s listening server_events).1)
    → bytes_of (printed (client_main (ip ∷ port ∷ []) (connected socket_fd) client_events).0)
      ≡ bytes_of (typed_all server_events)
chat_delivers s listening slot fd server_events ip port socket_fd client_events v st runs stream =
    ap bytes_of (
      printed-received client_events socket_fd
        (client_main (ip ∷ port ∷ []) (connected socket_fd) client_events)
        (client_main-Relays ip port socket_fd client_events) runs)
    ∙ stream
    ∙ ap bytes_of (serve_loop-writes s listening slot fd server_events v st).0

written-typed :
    (events : List TcpClient.Events) (socket_fd : ℕ) (r : List TcpClient.Call × Option ℕ)
    → Relays events socket_fd r
    → r.1 ≡ none
    → written r.0 ≡ typed events
written-typed events socket_fd (calls, none) h e = h.1
written-typed events socket_fd (calls, some status) h e = cc

-- While a client runs and stays connected and `poll` does not fail, and if what the server has read
-- from it is what it has written, the server has printed the bytes that were typed at the client,
-- all of them and in order, among the other output, however they are cut into reads on either side,
-- and whoever else comes and goes.
pub chat_returns :
    (s : Server) (listening slot fd : ℕ) (server_events : List TcpServer.Events) (ip port : Text)
    (socket_fd : ℕ) (client_events : List TcpClient.Events)
    → IsConnected s slot fd
    → All (Stays slot fd) server_events
    → (client_main (ip ∷ port ∷ []) (connected socket_fd) client_events).1 ≡ none
    → told_all slot server_events
      ≡ bytes_of (written (client_main (ip ∷ port ∷ []) (connected socket_fd) client_events).0)
    → Prints (bytes_of (typed client_events)) (serve_loop s listening server_events).1
chat_returns s listening slot fd server_events ip port socket_fd client_events v st runs stream =
    subst (λ text. Prints text (serve_loop s listening server_events).1)
      (stream
        ∙ ap bytes_of (
            written-typed client_events socket_fd
              (client_main (ip ∷ port ∷ []) (connected socket_fd) client_events)
              (client_main-Relays ip port socket_fd client_events) runs))
      (serve_loop-Prints s listening slot fd server_events v st)
