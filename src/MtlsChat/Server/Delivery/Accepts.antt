-- ===== src/MtlsChat/Server/Delivery/Accepts.antt =====
-- What the server of projects/networking/mtls-chat writes to a client in the part of a round behind
-- `accept`.
use c_systems_programming.Common.{
  ℕ, ◌-◌, ◌≤◌, ◌<◌, ◌≡◌, ◌≢◌, refl, sym, ap, ap₂, ◌∙◌, inl, inr, List, [], ◌++◌, Bool, true, false,
  not, Option, some, none, Text, ◌&&◌, if◌then◌else◌, arith, Bool-cases,
}
use c_systems_programming.MtlsChat.Server.{
  Server, max_clients, is_some, find_free, place_client, tcp_place, tcp_accept, TlsAnswer, no_ssl,
  no_set_fd, handshake_error, handshake_closed, handshake_done, ssl_new, free_object, drop_client,
  tls_accept, accept_tls, accept_placed, accept_client, broadcast, Events, serve_clients,
  serve_stdin, read_server, serve, serve_accepted,
}
use c_systems_programming.MtlsChat.Server.Accept.{Found, find_free-Found}
use c_systems_programming.MtlsChat.Server.Delivery.{
  writes_to-append, IsServed, optional, broadcast-writes, stays, Gives, gone-IsServed,
  monitor_all-Gives,
}

serve_stdin-Gives :
    (s : Server) (i p : ℕ) (e : Events) (o : Option Text)
    → stays (e.read_answers i) ≡ true
    → i < s.nfds
    → IsServed s i p
    → Gives i p (optional o) (serve_stdin s e o)
unfolding serve_stdin serve_clients
serve_stdin-Gives s i p e none st below v = (v, refl)
serve_stdin-Gives s i p e (some text) st below v =
    let (w, t) = monitor_all-Gives e.read_answers (max_clients - 2) 2 s i p st v in
    (
      w,
      writes_to-append p (broadcast s text) (serve_clients s e).1
          ∙ ap₂ (λ a b. a ++ b) (broadcast-writes s text i p below v) t,
    )

pub serve-Gives :
    (s : Server) (i p : ℕ) (e : Events)
    → stays (e.read_answers i) ≡ true
    → i < s.nfds
    → IsServed s i p
    → Gives i p (if s.ready 1 then optional (read_server e.stdin_answer) else []) (serve s e)
unfolding serve serve_clients
serve-Gives s i p e st below v = elim (Bool-cases (s.ready 1)) [
  | inl h ↦ rw h (serve_stdin-Gives s i p e (read_server e.stdin_answer) st below v)
  | inr h ↦ rw h (monitor_all-Gives e.read_answers (max_clients - 2) 2 s i p st v)
]

-- A new client in a free slot, with another object, and one whose handshake has failed.
placed-IsServed :
    (s : Server) (i p j client q : ℕ)
    → s.fd j ≡ none
    → q ≢ p
    → IsServed s i p
    → IsServed (ssl_new (place_client s j client) j q) i p
unfolding ssl_new place_client
placed-IsServed s i p j client q free ne v =
    let apart : j ≢ i = λ e. cc (ap is_some (ap s.fd e), ap is_some free, v.connected) in
    record {
      slot = v.slot;
      connected = ground (arith, apart, v.connected);
      object = ground (arith, apart, v.object);
      alone = λ k c o. ground (arith, ne, c, o, v.alone k);
    }

abbrev dropped : Server → ℕ → ℕ → TlsAnswer → Server
dropped s j client tls = drop_client (tls_accept (place_client s j client) j tls).0 j

dropped-elsewhere :
    (s : Server) (j client : ℕ) (tls : TlsAnswer) (k : ℕ)
    → k ≢ j
    → ((dropped s j client tls).fd k ≡ s.fd k) × ((dropped s j client tls).ssl k ≡ s.ssl k)
unfolding drop_client tls_accept free_object ssl_new place_client
dropped-elsewhere s j client no_ssl k h = (ground (arith, h), ground (arith, h))
dropped-elsewhere s j client (no_set_fd q) k h = (ground (arith, h), ground (arith, h))
dropped-elsewhere s j client (handshake_error q) k h = (ground (arith, h), ground (arith, h))
dropped-elsewhere s j client (handshake_closed q) k h = (ground (arith, h), ground (arith, h))
dropped-elsewhere s j client (handshake_done q) k h = (ground (arith, h), ground (arith, h))

dropped-IsServed :
    (s : Server) (i p j client : ℕ) (tls : TlsAnswer)
    → s.fd j ≡ none
    → IsServed s i p
    → IsServed (dropped s j client tls) i p
unfolding drop_client
dropped-IsServed s i p j client tls free v =
    gone-IsServed s (dropped s j client tls) i p j
      (λ e. cc (ap is_some (ap s.fd e), ap is_some free, v.connected)) (ground arith)
      (dropped-elsewhere s j client tls) v

-- Whether a connection is there to accept, and cannot be, or its handshake fails: then the round ends
-- there.
abbrev pub is_done : TlsAnswer → Bool
is_done (handshake_done object) = true
is_done no_ssl = false
is_done (no_set_fd object) = false
is_done (handshake_error object) = false
is_done (handshake_closed object) = false

abbrev pub is_refused : Server → Option ℕ → TlsAnswer → Bool
is_refused s none tls = true
is_refused s (some client) tls = not (is_some (find_free s.fd (max_clients - 2) 2) && is_done tls)

-- What is read from stdin if the round gets there.
abbrev heard_if : Bool → Server → Events → List Text
heard_if b s e =
    if not b then [] else if s.ready 1 then optional (read_server e.stdin_answer) else []

placed-nfds :
    (s : Server) (i j client q : ℕ) → i < s.nfds → i < (ssl_new (place_client s j client) j q).nfds
unfolding ssl_new place_client
placed-nfds s i j client q h = ground (arith, h)

placed-ready :
    (s : Server) (j client q : ℕ)
    → 2 ≤ j
    → (ssl_new (place_client s j client) j q).ready 1 ≡ s.ready 1
unfolding ssl_new place_client
placed-ready s j client q h = ground (arith, h)

not-not : (b : Bool) → not (not b) ≡ b
not-not true = refl
not-not false = refl

-- The round behind `tcp_accept_function`, by how the handshake goes.
tls-Gives :
    (s : Server) (i p client j : ℕ) (e : Events) (tls : TlsAnswer)
    → stays (e.read_answers i) ≡ true
    → tls ≢ handshake_done p
    → i < s.nfds
    → 2 ≤ j
    → s.fd j ≡ none
    → IsServed s i p
    → Gives i p
        (heard_if (is_done tls) s e)
        (serve_accepted (accept_tls (place_client s j client) j client tls) e)
unfolding serve_accepted accept_tls tls_accept
tls-Gives s i p client j e no_ssl st ne below h free v =
    (dropped-IsServed s i p j client no_ssl free v, refl)
tls-Gives s i p client j e (no_set_fd q) st ne below h free v =
    (dropped-IsServed s i p j client (no_set_fd q) free v, refl)
tls-Gives s i p client j e (handshake_error q) st ne below h free v =
    (dropped-IsServed s i p j client (handshake_error q) free v, refl)
tls-Gives s i p client j e (handshake_closed q) st ne below h free v =
    (dropped-IsServed s i p j client (handshake_closed q) free v, refl)
tls-Gives s i p client j e (handshake_done q) st ne below h free v =
    let other : q ≢ p = λ k. ne (ap handshake_done k) in
    let s' = ssl_new (place_client s j client) j q in
    let (w, t) =
      serve-Gives s' i p e st (placed-nfds s i j client q below)
        (placed-IsServed s i p j client q free other v) in
    (
      w,
      t
          ∙ ap (λ b. if b then optional (read_server e.stdin_answer) else [])
              (placed-ready s j client q h),
    )

placed-Gives :
    (s : Server) (i p client : ℕ) (e : Events) (tls : TlsAnswer) (o : Option ℕ)
    → stays (e.read_answers i) ≡ true
    → tls ≢ handshake_done p
    → i < s.nfds
    → Found s.fd 2 max_clients o
    → IsServed s i p
    → Gives i p (heard_if (is_some o && is_done tls) s e) (
        serve_accepted
          (accept_placed (tcp_place s client o) client tls (tcp_place s client o).out_index)
          e)
unfolding serve_accepted accept_placed tcp_place
placed-Gives s i p client e tls none st ne below f v = (v, refl)
placed-Gives s i p client e tls (some j) st ne below f v =
    tls-Gives s i p client j e tls st ne below f.at_least f.free v

pub accepted-Gives :
    (s : Server) (i p : ℕ) (e : Events) (tls : TlsAnswer) (o : Option ℕ)
    → stays (e.read_answers i) ≡ true
    → tls ≢ handshake_done p
    → i < s.nfds
    → IsServed s i p
    → Gives i p (heard_if (not (is_refused s o tls)) s e) (serve_accepted (accept_client s o tls) e)
unfolding serve_accepted accept_client tcp_accept
accepted-Gives s i p e tls none st ne below v = (v, refl)
accepted-Gives s i p e tls (some client) st ne below v =
    let free = find_free s.fd (max_clients - 2) 2 in
    let (w, t) =
      placed-Gives s i p client e tls free st ne below (find_free-Found s.fd (max_clients - 2) 2)
        v in
    (w, t ∙ ap (λ b. heard_if b s e) (sym (not-not (is_some free && is_done tls))))
