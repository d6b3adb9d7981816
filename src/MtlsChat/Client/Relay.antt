-- ===== src/MtlsChat/Client/Relay.antt =====
-- What the mTLS client passes on in each direction.
use c_systems_programming.Common.{
  ℕ, ◌≡◌, refl, List, [], ◌∷◌, Bool, true, false, ◌&&◌, Option, some, none, Text, if◌then◌else◌,
  gathered, Passes, next_step-Passes,
}
use c_systems_programming.MtlsChat.Setup.{
  Context, Answers, Result, ok, exited, client_context, all_succeed, Promises, contexts-Promises,
}
use c_systems_programming.MtlsChat.Server.{
  ReadAnswer, received, want_more, zero_return, error_syscall, error_ssl, error_other,
}
use c_systems_programming.MtlsChat.Client.{
  Call, ssl_write, write, disconnected, report_errors, report, monitor, Events, from_server,
  from_stdin, read_client, client_round, poll_loop, Connect, no_socket, no_connect, no_ssl,
  no_set_fd, no_handshake, connected, tcp_tls_connect, loop_status, after_connect, after_context,
  client,
}

-- The texts of a call, printed or sent.
abbrev prints : Call → List Text
prints (write text) = text ∷ []
prints (ssl_write text) = []
prints disconnected = []
prints report_errors = []
prints report = []

abbrev sends : Call → List Text
sends (ssl_write text) = text ∷ []
sends (write text) = []
sends disconnected = []
sends report_errors = []
sends report = []

abbrev pub printed : List Call → List Text
printed = gathered prints

abbrev pub sent : List Call → List Text
sent = gathered sends

-- The text that is read from the server, and from stdin, if any.
abbrev pub text_of : ReadAnswer → List Text
text_of (received text) = text ∷ []
text_of answer = []

abbrev pub optional : Option Text → List Text
optional none = []
optional (some text) = text ∷ []

-- A round in which stdin is at its end.
abbrev pub is_cut : Bool → Option Text → Bool
is_cut true none = true
is_cut ready answer = false

-- What is read in a round from the server, which a round that is cut does not read, and from stdin.
abbrev pub heard : Events → List Text
heard e =
    if is_cut (e.reported && e.stdin_ready) (read_client e.stdin_answer)
    then []
    else if e.reported && e.server_ready
    then text_of e.server_answer
    else []

abbrev pub typed : Events → List Text
typed e = if e.reported && e.stdin_ready then optional (read_client e.stdin_answer) else []

monitor-Passes : (answer : ReadAnswer) → Passes prints sends (text_of answer) [] (monitor answer)
unfolding monitor
monitor-Passes (received text) = (refl, refl)
monitor-Passes want_more = (refl, refl)
monitor-Passes zero_return = tt
monitor-Passes error_syscall = tt
monitor-Passes error_ssl = tt
monitor-Passes error_other = tt

from_server-Passes :
    (ready : Bool) (answer : ReadAnswer)
    → Passes prints sends (if ready then text_of answer else []) [] (from_server ready answer)
unfolding from_server
from_server-Passes false answer = (refl, refl)
from_server-Passes true answer = monitor-Passes answer

from_stdin-Passes :
    (ready : Bool) (answer : Option Text) (texts : List Text) (server : List Call × Bool)
    → Passes prints sends texts [] server
    → Passes prints sends
        (if is_cut ready answer then [] else texts)
        (if ready then optional answer else [])
        (from_stdin ready answer server)
unfolding from_stdin
from_stdin-Passes false none texts server h = h
from_stdin-Passes false (some text) texts server h = h
from_stdin-Passes true none texts server h = (refl, refl)
from_stdin-Passes true (some text) texts server h =
    next_step-Passes prints sends [] (text ∷ []) texts [] (ssl_write text ∷ [], true) server
      (refl, refl) h

poll_loop-Passes :
    (events : List Events)
    → Passes prints sends (gathered heard events) (gathered typed events) (poll_loop events)
unfolding poll_loop client_round
poll_loop-Passes [] = (refl, refl)
poll_loop-Passes (e ∷ es) =
    let server : Bool = e.reported && e.server_ready in
    next_step-Passes prints sends (heard e) (typed e) (gathered heard es) (gathered typed es)
      (client_round e) (poll_loop es)
      (from_stdin-Passes (e.reported && e.stdin_ready) (read_client e.stdin_answer)
        (if server then text_of e.server_answer else []) (from_server server e.server_answer)
        (from_server-Passes server e.server_answer))
      (poll_loop-Passes es)

-- A client that runs has a context for mutual authentication and a connection, and has passed
-- everything on; one that has ended has the status 1.
abbrev pub Relays : Answers → Connect → List Events → List Call × Option ℕ → Type 0
Relays a c events (calls, none) =
    (all_succeed a ≡ true)
    × (c ≡ connected)
    × (printed calls ≡ gathered heard events)
    × (sent calls ≡ gathered typed events)
Relays a c events (calls, some status) = status ≡ 1

loop_status-Relays :
    (a : Answers) (events : List Events) (r : List Call × Bool)
    → all_succeed a ≡ true
    → Passes prints sends (gathered heard events) (gathered typed events) r
    → Relays a connected events (loop_status r)
loop_status-Relays a events (calls, true) s h = (s, refl, h.0, h.1)
loop_status-Relays a events (calls, false) s h = refl

connected-Relays :
    (a : Answers) (c : Connect) (events : List Events)
    → all_succeed a ≡ true
    → Relays a c events (after_connect (tcp_tls_connect c) events)
unfolding tcp_tls_connect
connected-Relays a no_socket events s = refl
connected-Relays a no_connect events s = refl
connected-Relays a no_ssl events s = refl
connected-Relays a no_set_fd events s = refl
connected-Relays a no_handshake events s = refl
connected-Relays a connected events s =
    loop_status-Relays a events (poll_loop events) s (poll_loop-Passes events)

context-Relays :
    (a : Answers) (c : Connect) (events : List Events) (r : Result Context)
    → Promises r (all_succeed a)
    → Relays a c events (after_context r c events)
context-Relays a c events (exited why) h = refl
context-Relays a c events (ok context) h = connected-Relays a c events h.0

-- A client that runs has made every call of its set-up with success, it has printed exactly the texts
-- that it read from the server and sent exactly those that were typed, in their order, where a round
-- with stdin at its end reads nothing from the server; a client that has ended has the status 1.
pub client-Relays :
    (a : Answers) (c : Connect) (events : List Events) → Relays a c events (client a c events)
unfolding client
client-Relays a c events = context-Relays a c events (client_context a) (contexts-Promises a).1
