-- ===== src/MtlsChat/Client.antt =====
-- projects/networking/mtls-chat/client.c: connecting, and the poll loop. The answers of the kernel and
-- of OpenSSL are inputs.
pub mod Relay
use c_systems_programming.Common.{
  ℕ, List, [], ◌∷◌, ◌++◌, Bool, true, false, ◌&&◌, Option, some, none, Text, if◌then◌else◌,
  next_step,
}
use c_systems_programming.MtlsChat.Setup.{Context, Answers, Result, ok, exited, client_context}
use c_systems_programming.MtlsChat.Server.{
  ReadAnswer, received, want_more, zero_return, error_syscall, error_ssl, error_other,
}

-- What the client does: `disconnected` is the message about the server, `report_errors` the errors of
-- OpenSSL, `report` a message on standard error.
pub data Call : Type 0 where
  ssl_write : Text → Call
  write : Text → Call
  disconnected report_errors report : Call

-- `monitor`, with whether it returns; else the process exits with status 1.
unfoldable pub monitor : ReadAnswer → List Call × Bool
monitor (received text) = (write text ∷ [], true)
monitor want_more = ([], true)
monitor zero_return = (disconnected ∷ [], false)
monitor error_syscall = (disconnected ∷ [], false)
monitor error_ssl = (disconnected ∷ [], false)
monitor error_other = (report_errors ∷ [], false)

-- A round of `poll_loop`: whether `poll` reported events, which of the two descriptors are ready, and
-- what `read` and `monitor` get from them.
pub record Events : Type 0 where
  pub reported : Bool
  pub stdin_ready : Bool
  pub server_ready : Bool
  pub stdin_answer : Option Text
  pub server_answer : ReadAnswer

unfoldable pub from_server : Bool → ReadAnswer → List Call × Bool
unfolding monitor
from_server ready answer = if ready then monitor answer else ([], true)

-- A round; where `read_client` returns 1, `continue` skips the server.
unfoldable pub from_stdin : Bool → Option Text → List Call × Bool → List Call × Bool
from_stdin false answer server = server
from_stdin true none server = ([], true)
from_stdin true (some text) server = next_step (ssl_write text ∷ [], true) server

-- `read_client`, on what `read` gives, with `none` for an error; `none` is the return value 1.
abbrev pub read_client : Option Text → Option Text
read_client none = none
read_client (some []) = none
read_client (some (c ∷ cs)) = some (c ∷ cs)

unfoldable pub client_round : Events → List Call × Bool
unfolding from_server from_stdin
client_round e =
    from_stdin (e.reported && e.stdin_ready) (read_client e.stdin_answer)
      (from_server (e.reported && e.server_ready) e.server_answer)

-- `poll_loop`, over the rounds that the environment gives, with whether it still runs.
unfoldable pub poll_loop : List Events → List Call × Bool
unfolding client_round
poll_loop [] = ([], true)
poll_loop (e ∷ es) = next_step (client_round e) (poll_loop es)

-- `tcp_tls_connect`: which of its calls fails, if one does.
pub data Connect : Type 0 where
  no_socket no_connect no_ssl no_set_fd no_handshake connected : Connect

-- Whether the socket is set to O_NONBLOCK, or the process has exited.
unfoldable pub tcp_tls_connect : Connect → Option Bool
tcp_tls_connect no_socket = none
tcp_tls_connect no_connect = none
tcp_tls_connect no_ssl = none
tcp_tls_connect no_set_fd = none
tcp_tls_connect no_handshake = none
tcp_tls_connect connected = some true

-- The exit status, `none` while the loop runs.
abbrev pub loop_status : List Call × Bool → List Call × Option ℕ
loop_status (calls, true) = (calls, none)
loop_status (calls, false) = (calls, some 1)

abbrev pub after_connect : Option Bool → List Events → List Call × Option ℕ
after_connect none events = (report ∷ [], some 1)
after_connect (some nonblocking) events = loop_status (poll_loop events)

abbrev pub after_context : Result Context → Connect → List Events → List Call × Option ℕ
after_context (exited why) c events = (report ∷ [], some 1)
after_context (ok context) c events = after_connect (tcp_tls_connect c) events

-- `client`
unfoldable pub client : Answers → Connect → List Events → List Call × Option ℕ
unfolding poll_loop tcp_tls_connect
client a c events = after_context (client_context a) c events
