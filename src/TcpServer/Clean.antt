-- ===== src/TcpServer/Clean.antt =====
-- What the server of projects/networking/tcp-suite closes, and the connection that it does not.
use native.Mathlib.Decide.{ℕ_discrete}
use c_systems_programming.Common.{
  ℕ, zero, suc, ◌+◌, ◌-◌, ◌≤◌, ◌<◌, ◌≡◌, ◌≢◌, refl, ap, inl, inr, [], ◌∷◌, ◌++◌, some, none, Text,
  codes, arith, Option-cases,
}
use c_systems_programming.TcpServer.{
  Server, max_clients, close, print, store_client, accept_client, close_clients, cleanup,
}
use c_systems_programming.TcpServer.Cover.{IsCovered, Occurs}

close_clients-Occurs :
    (s : Server) (client rounds i k : ℕ)
    → i ≤ k
    → k < i + rounds
    → s.fd k ≡ some client
    → Occurs (close client) (close_clients s rounds i)
unfolding close_clients
close_clients-Occurs s client zero i k h l e = absurd (omega arith)
close_clients-Occurs s client (suc rounds) i k h l e = elim (Option-cases (s.fd i)) [
  | inl free ↦
      let ne : i ≢ k = λ q. cc (ap s.fd q) in
      rw free (close_clients-Occurs s client rounds (i + 1) k (omega arith) (omega arith) e)
  | inr (other, taken) ↦ rw taken (elim (ℕ_discrete i k) [
    | yes same ↦ inl (cc (ap s.fd same))
    | no later ↦ inr (close_clients-Occurs s client rounds (i + 1) k (omega arith) (omega arith) e)
  ])
]

-- The cleanup closes the listening socket and every connected client.
pub cleanup_closes :
    (s : Server) (socket_fd i client : ℕ)
    → IsCovered s
    → 2 ≤ i
    → s.fd i ≡ some client
    → Occurs (close socket_fd) (cleanup s socket_fd) × Occurs (close client) (cleanup s socket_fd)
unfolding cleanup
cleanup_closes s socket_fd i client v h e = (
  inl refl,
  inr (
      close_clients-Occurs s client (s.nfds - 2) 2 i h
        (omega (arith, v.inside i (λ n. cc), v.nfds_min)) e),
)

store_client_full :
    (s : Server) (client rounds i : ℕ)
    → ((k : ℕ) → i ≤ k → k < i + rounds → s.fd k ≢ none)
    → store_client s client rounds i ≡ s
unfolding store_client
store_client_full s client zero i full = refl
store_client_full s client (suc rounds) i full = elim (Option-cases (s.fd i)) [
  | inl free ↦ absurd (full i (omega arith) (omega arith) free)
  | inr (other, taken) ↦
      rw taken
        (store_client_full s client rounds (i + 1) (λ k h l. full k (omega arith) (omega arith)))
]

-- When the 99 slots from 2 to 100 are taken, a new connection is announced, but it is neither
-- stored nor closed: the state is as before, and printing is all that is done.
pub accept_client_full :
    (s : Server) (client : ℕ) (ip : Text)
    → ((k : ℕ) → 2 ≤ k → k ≤ max_clients → s.fd k ≢ none)
    → accept_client s (some (client, ip))
      ≡ some (s, print (codes "\n[client connected: " ++ (ip ++ codes "]\n")) ∷ [])
unfolding accept_client
accept_client_full s client ip full =
    rw (store_client_full s client (max_clients - 1) 2 (λ k h l. full k h (omega arith)))
