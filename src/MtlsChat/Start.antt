-- ===== src/MtlsChat/Start.antt =====
-- `server` and `setup_tcp` of projects/networking/mtls-chat/server.c: the set-up, and then the loop.
use c_systems_programming.Common.{ℕ, ◌≡◌, ◌⊎◌, List, true, false, Option, some, none}
use c_systems_programming.MtlsChat.Setup.{
  Context, Answers, Result, ok, exited, server_context, all_succeed,
}
use c_systems_programming.MtlsChat.Server.{Server, Call, Events, initial, poll_loop}
use c_systems_programming.MtlsChat.Server.Safety.{IsSafe}

-- How the calls of `setup_tcp` go.
pub data Listening : Type 0 where
  no_socket no_bind no_listen : Listening
  listening : ℕ → Listening

-- `setup_tcp`, with the socket, or an exit with status 1.
pub setup_tcp : Listening → Option ℕ
setup_tcp no_socket = none
setup_tcp no_bind = none
setup_tcp no_listen = none
setup_tcp (listening socket_fd) = some socket_fd

abbrev pub serve_on : Option ℕ → List Events → Option (Server × List Call)
serve_on none events = none
serve_on (some socket_fd) events = some (poll_loop (initial socket_fd) events)

abbrev pub after_context : Result Context → Listening → List Events → Option (Server × List Call)
after_context (exited why) t events = none
after_context (ok context) t events = serve_on (setup_tcp t) events

-- `server`, with the state after some rounds; `none` is the exit with status 1.
pub server : Answers → Listening → List Events → Option (Server × List Call)
unfolding setup_tcp
server a t events = after_context (server_context a) t events

-- A server that runs has a context for mutual authentication and is safe; else its set-up has failed.
abbrev pub IsListening : Listening → Type 0
IsListening t = (socket_fd : ℕ) × (t ≡ listening socket_fd)

abbrev pub Started : Answers → Listening → Option (Server × List Call) → Type 0
Started a t none = (all_succeed a ≡ false) ⊎ (setup_tcp t ≡ none)
Started a t (some (s, calls)) = (all_succeed a ≡ true) × IsListening t × IsSafe s
