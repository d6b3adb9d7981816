-- ===== src/MtlsChat/Server/Delivery/Rounds.antt =====
-- What the server of projects/networking/mtls-chat writes to a client over many rounds.
use c_systems_programming.Common.{
  ℕ, ◌<◌, ◌≡◌, ◌≢◌, refl, ap₂, ◌∙◌, List, [], ◌∷◌, ◌++◌, true, not, Option, some, none, Text, ◌&&◌,
  if◌then◌else◌, arith, All, if_elim,
}
use c_systems_programming.MtlsChat.Server.{
  Server, Call, TlsAnswer, handshake_done, Events, after_poll, read_server, poll_round, poll_loop,
}
use c_systems_programming.MtlsChat.Server.Delivery.{
  writes_to, writes_to-append, IsServed, optional, stays, Gives,
}
use c_systems_programming.MtlsChat.Server.Delivery.Accepts.{is_refused, serve-Gives, accepted-Gives}

-- A round in which the client in slot `i` stays, and each handshake that succeeds is one of another
-- object than `p`.
pub record IsSteady (i p : ℕ) (e : Events) : Type 0 where
  pub mine : stays (e.read_answers i) ≡ true
  pub fresh : e.tls_answer ≢ handshake_done p

-- The slot stays below `nfds` at the start of each round.
abbrev pub StaysBelow : ℕ → Server → List Events → Type 0
StaysBelow i s [] = Unit
StaysBelow i s (e ∷ es) = (i < s.nfds) × StaysBelow i (poll_round s e).0 es

-- The text that is read from stdin in a round.
abbrev pub typed : Server → Events → List Text
typed s e =
    if not e.reported
    then []
    else if e.revents 0 && is_refused s e.accept_answer e.tls_answer
    then []
    else if e.revents 1
    then optional (read_server e.stdin_answer)
    else []

abbrev pub all_typed : Server → List Events → List Text
all_typed s [] = []
all_typed s (e ∷ es) = typed s e ++ all_typed (poll_round s e).0 es

after_poll-IsServed :
    (s : Server) (i p : ℕ) (e : Events) → IsServed s i p → IsServed (after_poll s e) i p
unfolding after_poll
after_poll-IsServed s i p e v = record {
  slot = v.slot;
  connected = v.connected;
  object = v.object;
  alone = v.alone;
}

after_poll-nfds : (s : Server) (e : Events) → (after_poll s e).nfds ≡ s.nfds
unfolding after_poll
after_poll-nfds s e = refl

after_poll-ready :
    (s : Server) (e : Events) (k : ℕ) → k < s.nfds → (after_poll s e).ready k ≡ e.revents k
unfolding after_poll
after_poll-ready s e k h = ground (arith, h)

after_poll-is_refused :
    (s : Server) (e : Events) (o : Option ℕ) (tls : TlsAnswer)
    → is_refused (after_poll s e) o tls ≡ is_refused s o tls
unfolding after_poll
after_poll-is_refused s e none tls = refl
after_poll-is_refused s e (some client) tls = refl

poll_round-Gives :
    (s : Server) (i p : ℕ) (e : Events)
    → IsSteady i p e
    → i < s.nfds
    → IsServed s i p
    → Gives i p (typed s e) (poll_round s e)
unfolding poll_round
poll_round-Gives s i p e steady below v =
    let polled = after_poll-IsServed s i p e v in
    let below' : i < (after_poll s e).nfds = omega (arith, below, after_poll-nfds s e) in
    let first = after_poll-ready s e 0 (omega (arith, v.slot, below)) in
    let second = after_poll-ready s e 1 (omega (arith, v.slot, below)) in
    let refused = after_poll-is_refused s e e.accept_answer e.tls_answer in
    if_elim (λ (r : Server × List Call). Gives i p (typed s e) r) (not e.reported)
      (λ h. (polled, ground (arith, h)))
      (λ h.
        if_elim (λ (r : Server × List Call). Gives i p (typed s e) r) ((after_poll s e).ready 0)
          (λ k.
            let (w, t) =
              accepted-Gives (after_poll s e) i p e e.tls_answer e.accept_answer steady.mine
                steady.fresh below' polled in
            (w, t ∙ ground (arith, h, k, first, second, refused)))
          (λ k.
            let (w, t) = serve-Gives (after_poll s e) i p e steady.mine below' polled in
            (w, t ∙ ground (arith, h, k, first, second))))

-- Over rounds in which a client stays in its slot, the slot stays below `nfds`, and no handshake gives
-- its object to another client: the client is written exactly the texts that are read from stdin, each
-- once and in their order, whoever else comes and goes; and it stands in its slot afterwards. A round
-- ends before stdin where a connection cannot be accepted or its handshake fails.
pub poll_loop-writes :
    (s : Server) (i p : ℕ) (events : List Events)
    → IsServed s i p
    → All (IsSteady i p) events
    → StaysBelow i s events
    → (writes_to p (poll_loop s events).1 ≡ all_typed s events)
      × IsServed (poll_loop s events).0 i p
unfolding poll_loop
poll_loop-writes s i p [] v steady below = (refl, v)
poll_loop-writes s i p (e ∷ es) v steady below =
    let (w, t) = poll_round-Gives s i p e steady.0 below.0 v in
    let (t', w') = poll_loop-writes (poll_round s e).0 i p es w steady.1 below.1 in
    (
      writes_to-append p (poll_round s e).1 (poll_loop (poll_round s e).0 es).1
          ∙ ap₂ (λ a b. a ++ b) t t',
      w',
    )
