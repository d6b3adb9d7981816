-- ===== src/TcpServer/Cover.antt =====
-- The clients and `nfds` in the server of projects/networking/tcp-suite, and whom a broadcast
-- reaches.
use native.Mathlib.Decide.{ℕ_discrete}
use c_systems_programming.Common.{
  ℕ, zero, suc, ◌+◌, ◌-◌, ◌≤◌, ◌<◌, ◌≡◌, ◌≢◌, ap, ◌⊎◌, inl, inr, List, [], ◌∷◌, Bool, Option, some,
  none, Text, ◌&&◌, arith, Option-cases, if_elim,
}
use c_systems_programming.TcpServer.{
  Server, max_clients, is_some, Call, write, store_client, accept_client, send_all, report_none,
  broadcast, ReadAnswer, received, closed, failed, forget, read_client, read_slot, read_all, Events,
  after_poll, serve, serve_accepted, poll_round, serve_loop, initial,
}

-- Every descriptor stands below `nfds`, and no client behind the last slot that is searched.
pub record IsCovered (s : Server) : Type 0 where
  pub nfds_min : 2 ≤ s.nfds
  pub nfds_max : s.nfds ≤ max_clients + 1
  pub inside : (i : ℕ) → s.fd i ≢ none → i < s.nfds

pub initial-IsCovered : (socket_fd : ℕ) (stale : ℕ → Bool) → IsCovered (initial socket_fd stale)
unfolding initial
initial-IsCovered socket_fd stale = record {
  nfds_min = omega arith;
  nfds_max = omega arith;
  inside = λ i ne. ground arith;
}

pub store_client-IsCovered :
    (s : Server) (client rounds i : ℕ)
    → 2 ≤ i
    → i + rounds ≤ max_clients + 1
    → IsCovered s
    → IsCovered (store_client s client rounds i)
unfolding store_client
store_client-IsCovered s client zero i h k v = v
store_client-IsCovered s client (suc rounds) i h k v =
    if_elim IsCovered (is_some (s.fd i))
      (λ e. store_client-IsCovered s client rounds (i + 1) (omega arith) (omega arith) v)
      (λ e. record {
        nfds_min = ground (arith, v.nfds_min);
        nfds_max = ground (arith, v.nfds_max);
        inside = λ j ne. ground (arith, v.inside j);
      })

pub forget-IsCovered : (s : Server) (i : ℕ) → IsCovered s → IsCovered (forget s i)
unfolding forget
forget-IsCovered s i v = record {
  nfds_min = v.nfds_min;
  nfds_max = v.nfds_max;
  inside = λ j ne. v.inside j (λ e. ne (ground arith));
}

read_client-IsCovered :
    (s : Server) (i client : ℕ) (a : ReadAnswer)
    → IsCovered s
    → IsCovered (read_client s i client a).0
unfolding read_client
read_client-IsCovered s i client (received text) v = v
read_client-IsCovered s i client closed v = forget-IsCovered s i v
read_client-IsCovered s i client failed v = forget-IsCovered s i v

read_slot-IsCovered :
    (s : Server) (i : ℕ) (o : Option ℕ) (a : ReadAnswer)
    → IsCovered s
    → IsCovered (read_slot s i o a).0
unfolding read_slot
read_slot-IsCovered s i none a v = v
read_slot-IsCovered s i (some client) a v =
    if_elim (λ (r : Server × List Call). IsCovered r.0) (s.ready i)
      (λ e. read_client-IsCovered s i client a v) (λ e. v)

read_all-IsCovered :
    (answers : ℕ → ReadAnswer) (rounds i : ℕ) (s : Server)
    → IsCovered s
    → IsCovered (read_all answers rounds i s).0
unfolding read_all
read_all-IsCovered answers zero i s v = v
read_all-IsCovered answers (suc rounds) i s v =
    read_all-IsCovered answers rounds (i + 1) (read_slot s i (s.fd i) (answers i)).0
      (read_slot-IsCovered s i (s.fd i) (answers i) v)

serve-IsCovered : (s : Server) (e : Events) → IsCovered s → IsCovered (serve s e).0
unfolding serve
serve-IsCovered s e v = read_all-IsCovered e.read_answers (s.nfds - 2) 2 s v

serve_accepted-IsCovered :
    (s : Server) (e : Events) (o : Option (ℕ × Text))
    → IsCovered s
    → IsCovered (serve_accepted s e (accept_client s o)).0
unfolding serve_accepted accept_client
serve_accepted-IsCovered s e none v = v
serve_accepted-IsCovered s e (some (client, ip)) v =
    serve-IsCovered (store_client s client (max_clients - 1) 2) e
      (store_client-IsCovered s client (max_clients - 1) 2 (omega arith) (omega arith) v)

pub after_poll-IsCovered : (s : Server) (e : Events) → IsCovered s → IsCovered (after_poll s e)
unfolding after_poll
after_poll-IsCovered s e v = record {
  nfds_min = v.nfds_min;
  nfds_max = v.nfds_max;
  inside = v.inside;
}

pub poll_round-IsCovered : (s : Server) (e : Events) → IsCovered s → IsCovered (poll_round s e).0
unfolding poll_round
poll_round-IsCovered s e v =
    if_elim (λ (r : Server × List Call × Bool). IsCovered r.0)
      (e.reported && (after_poll s e).ready 0)
      (λ k.
        serve_accepted-IsCovered (after_poll s e) e e.accept_answer (after_poll-IsCovered s e v))
      (λ k. serve-IsCovered (after_poll s e) e (after_poll-IsCovered s e v))

-- After any sequence of rounds, whatever the kernel answers, every descriptor stands below `nfds`,
-- which is from 2 to 101.
pub serve_loop-IsCovered :
    (s : Server) (socket_fd : ℕ) (events : List Events)
    → IsCovered s
    → IsCovered (serve_loop s socket_fd events).0
unfolding serve_loop
serve_loop-IsCovered s socket_fd [] v = v
serve_loop-IsCovered s socket_fd (e ∷ es) v =
    if_elim (λ (r : Server × List Call). IsCovered r.0) (poll_round s e).2
      (λ k. serve_loop-IsCovered (poll_round s e).0 socket_fd es (poll_round-IsCovered s e v))
      (λ k. poll_round-IsCovered s e v)

abbrev pub Occurs : Call → List Call → Type 0
Occurs c [] = ⊥
Occurs c (x ∷ xs) = (c ≡ x) ⊎ Occurs c xs

send_all-Occurs :
    (s : Server) (text : Text) (client rounds i k : ℕ)
    → i ≤ k
    → k < i + rounds
    → s.fd k ≡ some client
    → Occurs (write client text) (send_all s text rounds i)
unfolding send_all
send_all-Occurs s text client zero i k h l e = absurd (omega arith)
send_all-Occurs s text client (suc rounds) i k h l e = elim (Option-cases (s.fd i)) [
  | inl free ↦
      let ne : i ≢ k = λ q. cc (ap s.fd q) in
      rw free (send_all-Occurs s text client rounds (i + 1) k (omega arith) (omega arith) e)
  | inr (other, taken) ↦ rw taken (elim (ℕ_discrete i k) [
    | yes same ↦ inl (cc (ap s.fd same))
    | no later ↦ inr (send_all-Occurs s text client rounds (i + 1) k (omega arith) (omega arith) e)
  ])
]

report_none-Occurs : (c : Call) (calls : List Call) → Occurs c calls → Occurs c (report_none calls)
unfolding report_none
report_none-Occurs c [] o = absurd o
report_none-Occurs c (x ∷ xs) o = o

-- While every descriptor stands below `nfds`, as after any sequence of rounds, a text read from
-- stdin is written to every connected client.
pub broadcast_reaches :
    (s : Server) (text : Text) (i client : ℕ)
    → IsCovered s
    → 2 ≤ i
    → s.fd i ≡ some client
    → Occurs (write client text) (broadcast s (some text))
unfolding broadcast
broadcast_reaches s text i client v h e = report_none-Occurs _ _ (
    send_all-Occurs s text client (s.nfds - 2) 2 i h
      (omega (arith, v.inside i (λ n. cc), v.nfds_min)) e)
