-- ===== src/TcpServer/Delivery/Rounds.antt =====
-- The rounds of the server of projects/networking/tcp-suite while a client stays connected.
use c_systems_programming.Common.{
  ℕ, zero, suc, ◌+◌, ◌-◌, ◌<◌, ◌≡◌, ◌≢◌, refl, ap, ap₂, ◌∙◌, List, [], ◌∷◌, ◌++◌, append-nil, Bool,
  true, false, not, Option, some, none, Text, ◌&&◌, if◌then◌else◌, arith, All, if_elim,
}
use c_systems_programming.TcpServer.{
  Server, max_clients, is_some, Call, store_client, accept_client, broadcast, read_all, Events,
  after_poll, serve, serve_accepted, poll_round, serve_loop,
}
use c_systems_programming.TcpServer.Delivery.{
  IsConnected, writes_to, writes_to-append, text_list, broadcast-writes, read_all-writes,
}
use c_systems_programming.TcpServer.Delivery.Keeps.{
  store_client-IsConnected, is_received, read_all-IsConnected,
}

-- In a round the client in slot `i` neither leaves nor fails, `accept` gives a descriptor that is not
-- open already, and `poll` succeeds.
pub record Stays (i c : ℕ) (e : Events) : Type 0 where
  pub fresh : (ip : Text) → e.accept_answer ≢ some (c, ip)
  pub sends : is_received (e.read_answers i) ≡ true
  pub polled : e.poll_failed ≡ false

-- The texts that are read from stdin in a round: none if a refused `accept` ended it.
abbrev pub typed : Events → List Text
typed e =
    if e.reported && (e.revents 0 && not (is_some e.accept_answer))
    then []
    else if e.reported && e.revents 1
    then text_list e.stdin_answer
    else []

abbrev pub typed_all : List Events → List Text
typed_all [] = []
typed_all (e ∷ es) = typed e ++ typed_all es

-- What a round, or a part of one, has to give.
abbrev pub Gives : ℕ → ℕ → List Text → Server × List Call × Bool → Type 0
Gives i c texts r = IsConnected r.0 i c × (writes_to c r.1 ≡ texts) × (r.2 ≡ true)

sent-writes :
    (s : Server) (i c : ℕ) (b : Bool) (o : Option Text)
    → IsConnected s i c
    → writes_to c (if b then broadcast s o else []) ≡ (if b then text_list o else [])
sent-writes s i c true o v = broadcast-writes s i c o v
sent-writes s i c false o v = refl

serve-Gives :
    (s : Server) (i c : ℕ) (e : Events)
    → Stays i c e
    → IsConnected s i c
    → Gives i c (if e.reported && s.ready 1 then text_list e.stdin_answer else []) (serve s e)
unfolding serve
serve-Gives s i c e st v = (
  read_all-IsConnected e.read_answers i c (s.nfds - 2) 2 s st.sends v,
  writes_to-append c (if e.reported && s.ready 1 then broadcast s e.stdin_answer else [])
        (read_all e.read_answers (s.nfds - 2) 2 s).1
      ∙ ap₂ (λ a b. a ++ b) (sent-writes s i c (e.reported && s.ready 1) e.stdin_answer v)
          (read_all-writes c e.read_answers (s.nfds - 2) 2 s)
      ∙ append-nil _,
  rw (st.polled) refl,
)

pub store_client-ready :
    (s : Server) (client rounds lo : ℕ) → (store_client s client rounds lo).ready ≡ s.ready
unfolding store_client
store_client-ready s client zero lo = refl
store_client-ready s client (suc rounds) lo =
    if_elim (λ (t : Server). t.ready ≡ s.ready) (is_some (s.fd lo))
      (λ e. store_client-ready s client rounds (lo + 1)) (λ e. refl)

-- The part that accepts, when the listening socket is ready.
accepted-Gives :
    (s : Server) (i c : ℕ) (e : Events) (o : Option (ℕ × Text))
    → e.accept_answer ≡ o
    → Stays i c e
    → IsConnected s i c
    → Gives i c
        (if not (is_some o)
          then []
          else if e.reported && s.ready 1
          then text_list e.stdin_answer
          else [])
        (serve_accepted s e (accept_client s o))
unfolding serve_accepted accept_client
accepted-Gives s i c e none q st v = (v, refl, refl)
accepted-Gives s i c e (some (client, ip)) q st v =
    let ne : client ≢ c = λ k. st.fresh ip (q ∙ ap (λ d. some (d, ip)) k) in
    let stored =
      store_client-IsConnected s i c client (max_clients - 1) 2 ne (omega arith) (omega arith) v in
    let (w, t, g) = serve-Gives (store_client s client (max_clients - 1) 2) i c e st stored in
    (
      w,
      t
          ∙ ap (λ (r : ℕ → Bool). if e.reported && r 1 then text_list e.stdin_answer else [])
              (store_client-ready s client (max_clients - 1) 2),
      g,
    )

pub after_poll-IsConnected :
    (s : Server) (i c : ℕ) (e : Events) → IsConnected s i c → IsConnected (after_poll s e) i c
unfolding after_poll
after_poll-IsConnected s i c e v = record {
  covered = record {
    nfds_min = v.covered.nfds_min;
    nfds_max = v.covered.nfds_max;
    inside = v.covered.inside;
  };
  slot = v.slot;
  holds = v.holds;
  alone = v.alone;
}

pub after_poll-ready :
    (s : Server) (e : Events) (k : ℕ) → k < s.nfds → (after_poll s e).ready k ≡ e.revents k
unfolding after_poll
after_poll-ready s e k h = ground arith

pub poll_round-Gives :
    (s : Server) (i c : ℕ) (e : Events)
    → Stays i c e
    → IsConnected s i c
    → Gives i c (typed e) (poll_round s e)
unfolding poll_round
poll_round-Gives s i c e st v =
    let first : (after_poll s e).ready 0 ≡ e.revents 0 = after_poll-ready s e 0 (omega arith) in
    let second : (after_poll s e).ready 1 ≡ e.revents 1 = after_poll-ready s e 1 (omega arith) in
    let polled = after_poll-IsConnected s i c e v in
    if_elim (λ (r : Server × List Call × Bool). Gives i c (typed e) r)
      (e.reported && (after_poll s e).ready 0)
      (λ k.
        let (w, t, g) = accepted-Gives (after_poll s e) i c e e.accept_answer refl st polled in
        (w, t ∙ ground (arith, k, first, second), g))
      (λ k.
        let (w, t, g) = serve-Gives (after_poll s e) i c e st polled in
        (w, t ∙ ground (arith, k, first, second), g))

-- While a client stays connected and `poll` does not fail, it is written exactly the texts that are
-- read from stdin, each once and in their order, whoever else comes and goes, and it stands in its
-- slot afterwards.
pub serve_loop-writes :
    (s : Server) (socket_fd i c : ℕ) (events : List Events)
    → IsConnected s i c
    → All (Stays i c) events
    → (writes_to c (serve_loop s socket_fd events).1 ≡ typed_all events)
      × IsConnected (serve_loop s socket_fd events).0 i c
unfolding serve_loop
serve_loop-writes s socket_fd i c [] v st = (refl, v)
serve_loop-writes s socket_fd i c (e ∷ es) v st =
    let (w, t, g) = poll_round-Gives s i c e st.0 v in
    let (t', w') = serve_loop-writes (poll_round s e).0 socket_fd i c es w st.1 in
    rw g (
      writes_to-append c (poll_round s e).1 (serve_loop (poll_round s e).0 socket_fd es).1
          ∙ ap₂ (λ a b. a ++ b) t t',
      w',
    )
