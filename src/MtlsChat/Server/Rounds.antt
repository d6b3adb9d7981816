-- ===== src/MtlsChat/Server/Rounds.antt =====
-- The rounds of `poll_loop` in projects/networking/mtls-chat/server.c.
use c_systems_programming.Common.{
  ℕ, zero, suc, ◌+◌, ◌-◌, ◌≤◌, ◌<◌, ◌≢◌, List, [], ◌∷◌, Bool, true, false, Option, some, none, ltb,
  ◌&&◌, not, arith, Text, if_elim,
}
use c_systems_programming.MtlsChat.Server.{
  Server, max_clients, is_some, Call, TlsAnswer, no_ssl, no_set_fd, handshake_error,
  handshake_closed, handshake_done, tls_accept, accept_tls, accept_client, accept_placed,
  place_client, tcp_accept, tcp_place, find_free, ReadAnswer, received, want_more, monitor,
  monitor_slot, monitor_all, Events, after_poll, serve_clients, serve_stdin, read_server, serve,
  serve_accepted, poll_round, poll_loop,
}
use c_systems_programming.MtlsChat.Server.Accept.{IsFirstFree, Found, find_free-Found}
use c_systems_programming.MtlsChat.Server.Safety.{
  IsSafe, IsFresh, release-IsSafe, failed-IsSafe, no_object-IsSafe, admitted-IsSafe,
}

accept_tls-IsSafe :
    (s : Server) (client i : ℕ) (tls : TlsAnswer)
    → IsFirstFree s.fd 2 max_clients i
    → IsSafe s
    → IsFresh s tls
    → IsSafe (accept_tls (place_client s i client) i client tls).0
unfolding accept_tls tls_accept place_client
accept_tls-IsSafe s client i no_ssl f v fresh = no_object-IsSafe s client i f v
accept_tls-IsSafe s client i (no_set_fd p) f v fresh = failed-IsSafe s client i f v p fresh
accept_tls-IsSafe s client i (handshake_error p) f v fresh = failed-IsSafe s client i f v p fresh
accept_tls-IsSafe s client i (handshake_closed p) f v fresh = failed-IsSafe s client i f v p fresh
accept_tls-IsSafe s client i (handshake_done p) f v fresh = admitted-IsSafe s client i f v p fresh

accept_placed-IsSafe :
    (s : Server) (client : ℕ) (tls : TlsAnswer) (o : Option ℕ)
    → Found s.fd 2 max_clients o
    → IsSafe s
    → IsFresh s tls
    → let r = tcp_place s client o in IsSafe (accept_placed r client tls r.out_index).0
unfolding tcp_place accept_placed
accept_placed-IsSafe s client tls none f v fresh = v
accept_placed-IsSafe s client tls (some i) f v fresh = accept_tls-IsSafe s client i tls f v fresh

accept_client-IsSafe :
    (s : Server) (client : Option ℕ) (tls : TlsAnswer)
    → IsSafe s
    → IsFresh s tls
    → IsSafe (accept_client s client tls).0
unfolding accept_client tcp_accept
accept_client-IsSafe s none tls v fresh = v
accept_client-IsSafe s (some client) tls v fresh =
    accept_placed-IsSafe s client tls (find_free s.fd (max_clients - 2) 2)
      (find_free-Found s.fd (max_clients - 2) 2) v fresh

pub monitor-IsSafe :
    (s : Server) (i : ℕ) (a : ReadAnswer)
    → 2 ≤ i
    → i < s.nfds
    → s.fd i ≢ none
    → IsSafe s
    → IsSafe (monitor s i a).0
unfolding monitor
monitor-IsSafe s i (received text) h lt ne v = v
monitor-IsSafe s i want_more h lt ne v = v
monitor-IsSafe s i _ h lt ne v = release-IsSafe s i h lt ne v

monitor_slot-IsSafe :
    (s : Server) (i : ℕ) (a : ReadAnswer)
    → 2 ≤ i
    → i < s.nfds
    → IsSafe s
    → IsSafe (monitor_slot s i a).0
unfolding monitor_slot
monitor_slot-IsSafe s i a h lt v =
    if_elim (λ (r : Server × List Call). IsSafe r.0) (is_some (s.fd i) && s.ready i)
      (λ e. monitor-IsSafe s i a h lt (λ n. ground arith) v) (λ e. v)

monitor_all-IsSafe :
    (answers : ℕ → ReadAnswer) (rounds i : ℕ) (s : Server)
    → 2 ≤ i
    → IsSafe s
    → IsSafe (monitor_all answers rounds i s).0
unfolding monitor_all
monitor_all-IsSafe answers zero i s h v = v
monitor_all-IsSafe answers (suc rounds) i s h v =
    if_elim (λ (r : Server × List Call). IsSafe r.0) (ltb i s.nfds)
      (λ e.
        monitor_all-IsSafe answers rounds (i + 1) (monitor_slot s i (answers i)).0 (omega arith)
          (monitor_slot-IsSafe s i (answers i) h (ground arith) v))
      (λ e. v)

serve_stdin-IsSafe :
    (s : Server) (e : Events) (o : Option Text) → IsSafe s → IsSafe (serve_stdin s e o).0
unfolding serve_stdin serve_clients
serve_stdin-IsSafe s e none v = v
serve_stdin-IsSafe s e (some text) v =
    monitor_all-IsSafe e.read_answers (max_clients - 2) 2 s (omega arith) v

serve-IsSafe : (s : Server) (e : Events) → IsSafe s → IsSafe (serve s e).0
unfolding serve serve_clients
serve-IsSafe s e v =
    if_elim (λ (r : Server × List Call). IsSafe r.0) (s.ready 1)
      (λ h. serve_stdin-IsSafe s e (read_server e.stdin_answer) v)
      (λ h. monitor_all-IsSafe e.read_answers (max_clients - 2) 2 s (omega arith) v)

serve_accepted-IsSafe :
    (r : Server × List Call × Bool) (e : Events) → IsSafe r.0 → IsSafe (serve_accepted r e).0
unfolding serve_accepted
serve_accepted-IsSafe (s, calls, false) e v = v
serve_accepted-IsSafe (s, calls, true) e v = serve-IsSafe s e v

after_poll-IsSafe : (s : Server) (e : Events) → IsSafe s → IsSafe (after_poll s e)
unfolding after_poll
after_poll-IsSafe s e v = record {
  nfds_min = v.nfds_min;
  nfds_max = v.nfds_max;
  object = v.object;
  apart = v.apart;
  in_range = v.in_range;
}

poll_round-IsSafe :
    (s : Server) (e : Events) → IsSafe s → IsFresh s e.tls_answer → IsSafe (poll_round s e).0
unfolding poll_round
poll_round-IsSafe s e v fresh =
    if_elim (λ (r : Server × List Call). IsSafe r.0) (not e.reported) (λ h. safe)
      (λ h.
        if_elim (λ (r : Server × List Call). IsSafe r.0) ((after_poll s e).ready 0)
          (λ k.
            serve_accepted-IsSafe (accept_client (after_poll s e) e.accept_answer e.tls_answer) e
              (accept_client-IsSafe (after_poll s e) e.accept_answer e.tls_answer safe still_fresh))
          (λ k. serve-IsSafe (after_poll s e) e safe))
  where
    safe : IsSafe (after_poll s e)
    safe = after_poll-IsSafe s e v

    still_fresh : IsFresh (after_poll s e) e.tls_answer
    still_fresh = unfold after_poll in fresh

-- SSL_new never returns an object that is still allocated.
abbrev pub FreshAlong : Server → List Events → Type 0
FreshAlong s [] = Unit
FreshAlong s (e ∷ es) = IsFresh s e.tls_answer × FreshAlong (poll_round s e).0 es

-- If SSL_new never returns an object that is still allocated, then after any sequence of rounds from
-- a safe state the server is safe: `nfds` is from 2 to 102, descriptors stand in the array, and each
-- client's slot holds an allocated SSL object that no other client's slot holds.
pub poll_loop-IsSafe :
    (s : Server) (events : List Events)
    → IsSafe s
    → FreshAlong s events
    → IsSafe (poll_loop s events).0
unfolding poll_loop
poll_loop-IsSafe s [] v fresh = v
poll_loop-IsSafe s (e ∷ es) v fresh =
    poll_loop-IsSafe (poll_round s e).0 es (poll_round-IsSafe s e v fresh.0) fresh.1
