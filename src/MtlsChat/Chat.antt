-- ===== src/MtlsChat/Chat.antt =====
-- The server and a client of projects/networking/mtls-chat on the two ends of a connection.
use c_systems_programming.Common.{
  ℕ, ◌≡◌, ap, ◌∙◌, List, Option, some, none, All, gathered, bytes_of,
}
use c_systems_programming.MtlsChat.Setup.{Answers}
use c_systems_programming.MtlsChat.Server
use c_systems_programming.MtlsChat.Server.{Server, poll_loop}
use c_systems_programming.MtlsChat.Server.Delivery.{IsServed, writes_to}
use c_systems_programming.MtlsChat.Server.Delivery.Rounds.{
  IsSteady, StaysBelow, all_typed, poll_loop-writes,
}
use c_systems_programming.MtlsChat.Client
use c_systems_programming.MtlsChat.Client.{Connect, client}
use c_systems_programming.MtlsChat.Client.Relay.{printed, heard, Relays, client-Relays}

printed-heard :
    (a : Answers) (c : Connect) (events : List Client.Events) (r : List Client.Call × Option ℕ)
    → Relays a c events r
    → r.1 ≡ none
    → printed r.0 ≡ gathered heard events
printed-heard a c events (calls, none) h e = h.2
printed-heard a c events (calls, some status) h e = absurd (cc)

-- Over rounds of the server in which a client stays in its slot, that slot stays below `nfds`, and
-- no handshake gives its object to another client, and if what the client that runs has read is
-- what the server has written to its object, the client has printed the bytes that were typed at
-- the server, all of them and in order, whoever else comes and goes.
pub mtls_chat_delivers :
    (s : Server) (slot object : ℕ) (server_events : List Server.Events) (a : Answers) (c : Connect)
    (client_events : List Client.Events)
    → IsServed s slot object
    → All (IsSteady slot object) server_events
    → StaysBelow slot s server_events
    → (client a c client_events).1 ≡ none
    → bytes_of (gathered heard client_events)
      ≡ bytes_of (writes_to object (poll_loop s server_events).1)
    → bytes_of (printed (client a c client_events).0) ≡ bytes_of (all_typed s server_events)
mtls_chat_delivers s slot object server_events a c client_events v steady below runs stream =
    ap bytes_of (
      printed-heard a c client_events (client a c client_events) (client-Relays a c client_events)
        runs)
    ∙ stream
    ∙ ap bytes_of (poll_loop-writes s slot object server_events v steady below).0
