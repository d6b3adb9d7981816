-- ===== src/MtlsChat/Server.antt =====
-- projects/networking/mtls-chat/server.c: the poll loop. The answers of the kernel and of OpenSSL
-- are inputs; `int` descriptors are never negative here, so `none` is the -1 of a free slot.
pub mod Accept
pub mod Safety
pub mod Rounds
pub mod Lost
pub mod Delivery
use c_systems_programming.Common.{
  ℕ, zero, suc, ◌+◌, ◌-◌, ◌≤◌, ◌<◌, ◌≡◌, List, [], ◌∷◌, ◌++◌, Bool, true, false, Option, some, none,
  Text, ltb, leb, ◌==◌, not, ◌&&◌, if◌then◌else◌,
}

-- MAX_CLIENTS
abbrev pub max_clients : ℕ
max_clients = 102

-- An array with one element replaced.
abbrev pub update {ℓ} : {A : Type ℓ} → (ℕ → A) → ℕ → A → ℕ → A
update f i v j = if j == i then v else f j

abbrev pub is_some {ℓ} : {A : Type ℓ} → Option A → Bool
is_some none = false
is_some (some a) = true

-- The locals of `poll_loop`: `fds[i].fd`, `fds[i].revents & POLLIN`, `ssls[i]` and `nfds`; `live`
-- says which SSL objects are allocated.
pub record Server : Type 0 where
  pub fd : ℕ → Option ℕ
  pub ready : ℕ → Bool
  pub ssl : ℕ → Option ℕ
  pub nfds : ℕ
  pub live : ℕ → Bool

-- What the process does to the outside.
pub data Call : Type 0 where
  close : ℕ → Call
  ssl_shutdown : Option ℕ → Call
  ssl_free : Option ℕ → Call
  ssl_write : Option ℕ → Text → Call
  print : Text → Call

-- The first slot from `i` on that holds no descriptor, of `rounds` slots.
pub find_free : (ℕ → Option ℕ) → ℕ → ℕ → Option ℕ
find_free fd zero i = none
find_free fd (suc rounds) i =
    let rest = find_free fd rounds (i + 1) in if is_some (fd i) then rest else some i

pub record Accepted : Type 0 where
  pub state : Server
  pub calls : List Call
  pub out_index : Option ℕ

-- Filling the slot that was found.
pub place_client : Server → ℕ → ℕ → Server
place_client s i client = record s {
  fd = update s.fd i (some client);
  ready = update s.ready i false;
  nfds = if leb s.nfds i then i + 1 else s.nfds;
}

-- `tcp_accept_function`; no `out_index` is the return value 1. The argument is what `accept` gave.
pub tcp_place : Server → ℕ → Option ℕ → Accepted
tcp_place s client none = record { state = s; calls = close client ∷ []; out_index = none }
tcp_place s client (some i) = record {
  state = place_client s i client;
  calls = [];
  out_index = some i;
}

pub tcp_accept : Server → Option ℕ → Accepted
tcp_accept s none = record { state = s; calls = []; out_index = none }
tcp_accept s (some client) = tcp_place s client (find_free s.fd (max_clients - 2) 2)

-- How `tls_accept_function` goes: SSL_new, SSL_set_fd or SSL_accept fails (the last with a negative
-- result or with zero), or the handshake succeeds; with the object that SSL_new gave.
pub data TlsAnswer : Type 0 where
  no_ssl : TlsAnswer
  no_set_fd : ℕ → TlsAnswer
  handshake_error : ℕ → TlsAnswer
  handshake_closed : ℕ → TlsAnswer
  handshake_done : ℕ → TlsAnswer

-- SSL_new stores its object; SSL_free leaves the pointer in the array.
pub ssl_new : Server → ℕ → ℕ → Server
ssl_new s i p = record s { ssl = update s.ssl i (some p); live = update s.live p true }

pub free_object : Server → ℕ → Server
free_object s p = record s { live = update s.live p false }

-- `tls_accept_function` for the slot `i`, with whether it returned 0.
pub tls_accept : Server → ℕ → TlsAnswer → Server × List Call × Bool
tls_accept s i no_ssl = (record s { ssl = update s.ssl i none }, [], false)
tls_accept s i (no_set_fd p) = (free_object (ssl_new s i p) p, ssl_free (some p) ∷ [], false)
tls_accept s i (handshake_error p) =
    (free_object (ssl_new s i p) p, ssl_shutdown (some p) ∷ ssl_free (some p) ∷ [], false)
tls_accept s i (handshake_closed p) = (free_object (ssl_new s i p) p, ssl_free (some p) ∷ [], false)
tls_accept s i (handshake_done p) = (ssl_new s i p, [], true)

-- The first part of a round: `none` is the `continue` after a refused connection.
pub drop_client : Server → ℕ → Server
drop_client s i = record s { fd = update s.fd i none; nfds = s.nfds - 1 }

pub accept_tls : Server → ℕ → ℕ → TlsAnswer → Server × List Call × Bool
accept_tls s i client tls =
    let (s', calls, done) = tls_accept s i tls in
    if done then (s', calls, true) else (drop_client s' i, calls ++ (close client ∷ []), false)

pub accept_placed : Accepted → ℕ → TlsAnswer → Option ℕ → Server × List Call × Bool
accept_placed r client tls none = (r.state, r.calls, false)
accept_placed r client tls (some i) = accept_tls r.state i client tls

pub accept_client : Server → Option ℕ → TlsAnswer → Server × List Call × Bool
accept_client s none tls = (s, [], false)
accept_client s (some client) tls =
    let r = tcp_accept s (some client) in accept_placed r client tls r.out_index

-- `broadcast`, from slot `i` with the slots that are left up to `nfds`.
pub broadcast_from : Server → Text → ℕ → ℕ → List Call
broadcast_from s text zero i = []
broadcast_from s text (suc rounds) i =
    (if is_some (s.fd i) then ssl_write (s.ssl i) text ∷ [] else [])
    ++ broadcast_from s text rounds (i + 1)

pub broadcast : Server → Text → List Call
broadcast s text = broadcast_from s text (s.nfds - 2) 2

-- What SSL_read and SSL_get_error say of a client.
pub data ReadAnswer : Type 0 where
  received : Text → ReadAnswer
  want_more zero_return error_syscall error_ssl error_other : ReadAnswer

-- The labels `cleanup` and `error` of `monitor`.
pub release : Server → ℕ → Server
release s i = record s {
  fd = update s.fd i none;
  ssl = update s.ssl i none;
  nfds = s.nfds - 1;
  live = elim (s.ssl i) [ none ↦ s.live | some p ↦ update s.live p false ];
}

pub release_calls : Server → ℕ → List Call
release_calls s i =
    ssl_free (s.ssl i) ∷ elim (s.fd i) [ none ↦ [] | some client ↦ close client ∷ [] ]

-- `monitor`
pub monitor : Server → ℕ → ReadAnswer → Server × List Call
monitor s i (received text) = (s, print text ∷ [])
monitor s i want_more = (s, [])
monitor s i zero_return = (release s i, ssl_shutdown (s.ssl i) ∷ release_calls s i)
monitor s i error_other = (release s i, ssl_shutdown (s.ssl i) ∷ release_calls s i)
monitor s i error_syscall = (release s i, release_calls s i)
monitor s i error_ssl = (release s i, release_calls s i)

-- One slot of the loop over the clients.
pub monitor_slot : Server → ℕ → ReadAnswer → Server × List Call
monitor_slot s i answer = if is_some (s.fd i) && s.ready i then monitor s i answer else (s, [])

-- The loop over the clients from slot `i`; it reads `nfds` again in each round.
pub monitor_all : (ℕ → ReadAnswer) → ℕ → ℕ → Server → Server × List Call
monitor_all answers zero i s = (s, [])
monitor_all answers (suc rounds) i s =
    let (s', calls) = monitor_slot s i (answers i) in
    let (s'', more) = monitor_all answers rounds (i + 1) s' in
    if ltb i s.nfds then (s'', calls ++ more) else (s, [])

-- What happens in one round of `poll_loop`: whether `poll` reported events, which slots below
-- `nfds` are ready, and the answers to the calls that the round may make.
pub record Events : Type 0 where
  pub reported : Bool
  pub revents : ℕ → Bool
  pub accept_answer : Option ℕ
  pub tls_answer : TlsAnswer
  pub stdin_answer : Option Text
  pub read_answers : ℕ → ReadAnswer

-- `poll` sets `revents` of the slots below `nfds`.
pub after_poll : Server → Events → Server
after_poll s e = record s { ready = λ i. if ltb i s.nfds then e.revents i else s.ready i }

-- The rest of a round, after the part that accepts; reading stdin may end it.
pub serve_clients : Server → Events → Server × List Call
serve_clients s e = monitor_all e.read_answers (max_clients - 2) 2 s

pub serve_stdin : Server → Events → Option Text → Server × List Call
serve_stdin s e none = (s, [])
serve_stdin s e (some text) = let (s', calls) = serve_clients s e in (s', broadcast s text ++ calls)

-- `read_server`, on what `read` gives, with `none` for an error; `none` is the return value 1.
abbrev pub read_server : Option Text → Option Text
read_server none = none
read_server (some []) = none
read_server (some (c ∷ cs)) = some (c ∷ cs)

pub serve : Server → Events → Server × List Call
serve s e = if s.ready 1 then serve_stdin s e (read_server e.stdin_answer) else serve_clients s e

pub serve_accepted : Server × List Call × Bool → Events → Server × List Call
serve_accepted (s, calls, false) e = (s, calls)
serve_accepted (s, calls, true) e = let (s', more) = serve s e in (s', calls ++ more)

-- One round of `poll_loop`.
pub poll_round : Server → Events → Server × List Call
poll_round s e =
    let p = after_poll s e in
    if not e.reported
    then (p, [])
    else if p.ready 0
    then serve_accepted (accept_client p e.accept_answer e.tls_answer) e
    else serve p e

-- The state before the first round: slots 0 and 1 hold the listening socket and stdin.
unfoldable pub initial : ℕ → Server
initial socket_fd = record {
  fd = λ i. if i == 0 then some socket_fd else if i == 1 then some 0 else none;
  ready = λ i. false;
  ssl = λ i. none;
  nfds = 2;
  live = λ p. false;
}

-- The rounds of `poll_loop` over a list of events.
pub poll_loop : Server → List Events → Server × List Call
poll_loop s [] = (s, [])
poll_loop s (e ∷ es) =
    let (s', calls) = poll_round s e in let (s'', more) = poll_loop s' es in (s'', calls ++ more)
