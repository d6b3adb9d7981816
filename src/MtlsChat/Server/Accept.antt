-- ===== src/MtlsChat/Server/Accept.antt =====
-- Accepting a connection in projects/networking/mtls-chat/server.c: which slot it gets, and what
-- becomes of its descriptor.
use native.Mathlib.Decide.{ℕ_discrete}
use c_systems_programming.Common.{
  ℕ, zero, suc, ◌+◌, ◌-◌, ◌≤◌, ◌<◌, ◌≡◌, ◌≢◌, refl, inl, inr, List, [], ◌∷◌, ◌++◌, Bool, true,
  false, Option, some, none, arith, Option-cases,
}
use c_systems_programming.MtlsChat.Server.{
  Server, max_clients, Call, close, find_free, place_client, tcp_accept, TlsAnswer, no_ssl,
  no_set_fd, handshake_error, handshake_closed, handshake_done, tls_accept, ssl_new, free_object,
  drop_client, accept_tls, tcp_place, accept_placed, accept_client,
}

-- `i` is the first slot without a descriptor from `lo` on, below `hi`.
pub record IsFirstFree (fd : ℕ → Option ℕ) (lo hi i : ℕ) : Type 0 where
  pub at_least : lo ≤ i
  pub below : i < hi
  pub free : fd i ≡ none
  pub taken_before : (j : ℕ) → lo ≤ j → j < i → fd j ≢ none

abbrev pub Found : (ℕ → Option ℕ) → ℕ → ℕ → Option ℕ → Type 0
Found fd lo hi none = (j : ℕ) → lo ≤ j → j < hi → fd j ≢ none
Found fd lo hi (some i) = IsFirstFree fd lo hi i

taken_cons :
    (fd : ℕ → Option ℕ) (i hi : ℕ)
    → fd i ≢ none
    → ((j : ℕ) → i + 1 ≤ j → j < hi → fd j ≢ none)
    → (j : ℕ) → i ≤ j
    → j < hi
    → fd j ≢ none
taken_cons fd i hi ne later j h k = elim (ℕ_discrete i j) [
  | yes same ↦ rw same at ne
  | no other ↦ later j (omega arith) k
]

Found-cons :
    (fd : ℕ → Option ℕ) (i hi : ℕ) (o : Option ℕ)
    → fd i ≢ none
    → Found fd (i + 1) hi o
    → Found fd i hi o
Found-cons fd i hi none ne f = taken_cons fd i hi ne f
Found-cons fd i hi (some k) ne f = record {
  at_least = omega (arith, f.at_least);
  below = f.below;
  free = f.free;
  taken_before = taken_cons fd i k ne f.taken_before;
}

pub find_free-Found :
    (fd : ℕ → Option ℕ) (rounds i : ℕ) → Found fd i (i + rounds) (find_free fd rounds i)
unfolding find_free
find_free-Found fd zero i = λ j h k e. absurd (omega arith)
find_free-Found fd (suc rounds) i = elim (Option-cases (fd i)) [
  | inl free ↦ rw free (record {
    at_least = omega arith;
    below = omega arith;
    free = free;
    taken_before = λ j h k. absurd (omega arith);
  })
  | inr (client, taken) ↦ rw taken (
      Found-cons fd i (i + suc rounds) (find_free fd rounds (i + 1)) (λ e. cc taken)
        (let e : i + suc rounds ≡ i + 1 + rounds = omega arith in
          rw e (find_free-Found fd rounds (i + 1))))
]

-- The connection has the first free slot of `s`, with an SSL object of its own; `nfds` covers it.
pub record Admitted (s : Server) (client : ℕ) (s' : Server) : Type 0 where
  pub slot : ℕ
  pub object : ℕ
  pub first_free : IsFirstFree s.fd 2 max_clients slot
  pub placed : s'.fd slot ≡ some client
  pub secured : (s'.ssl slot ≡ some object) × (s'.live object ≡ true)
  pub covered : slot < s'.nfds
  pub others : (j : ℕ) → j ≢ slot → (s'.fd j ≡ s.fd j) × (s'.ssl j ≡ s.ssl j)

-- The connection was closed last, and every slot holds the descriptor that it held.
pub record TurnedAway (s : Server) (client : ℕ) (s' : Server) (calls : List Call) : Type 0 where
  pub earlier : List Call
  pub closed : calls ≡ earlier ++ (close client ∷ [])
  pub same_fds : (j : ℕ) → s'.fd j ≡ s.fd j

abbrev pub Handled : Server → ℕ → Server × List Call × Bool → Type 0
Handled s client (s', calls, true) = Admitted s client s'
Handled s client (s', calls, false) = TurnedAway s client s' calls

module _ (s : Server) (client i : ℕ) (f : IsFirstFree s.fd 2 max_clients i) where
  same_fds_lem :
      (t : Server) (j : ℕ)
      → ((k : ℕ) → t.fd k ≡ (place_client s i client).fd k)
      → (drop_client t i).fd j ≡ s.fd j
  unfolding drop_client place_client
  same_fds_lem t j h = ground (arith, h j, f.free)

  accept_tls-Handled :
      (tls : TlsAnswer) → Handled s client (accept_tls (place_client s i client) i client tls)
  unfolding accept_tls tls_accept ssl_new free_object
  accept_tls-Handled no_ssl = record {
    earlier = [];
    closed = refl;
    same_fds = λ j. same_fds_lem _ j (λ k. refl);
  }
  accept_tls-Handled (no_set_fd p) = record {
    earlier = (tls_accept (place_client s i client) i (no_set_fd p)).1;
    closed = refl;
    same_fds = λ j. same_fds_lem _ j (λ k. refl);
  }
  accept_tls-Handled (handshake_error p) = record {
    earlier = (tls_accept (place_client s i client) i (handshake_error p)).1;
    closed = refl;
    same_fds = λ j. same_fds_lem _ j (λ k. refl);
  }
  accept_tls-Handled (handshake_closed p) = record {
    earlier = (tls_accept (place_client s i client) i (handshake_closed p)).1;
    closed = refl;
    same_fds = λ j. same_fds_lem _ j (λ k. refl);
  }
  accept_tls-Handled (handshake_done p) =
      unfold place_client in
      record {
        slot = i;
        object = p;
        first_free = f;
        placed = ground arith;
        secured = (ground arith, ground arith);
        covered = ground arith;
        others = λ j ne. (ground arith, ground arith);
      }

accept_placed-Handled :
    (s : Server) (client : ℕ) (tls : TlsAnswer) (o : Option ℕ)
    → Found s.fd 2 max_clients o
    → let r = tcp_place s client o in Handled s client (accept_placed r client tls r.out_index)
unfolding tcp_place accept_placed
accept_placed-Handled s client tls none f = record {
  earlier = [];
  closed = refl;
  same_fds = λ j. refl;
}
accept_placed-Handled s client tls (some i) f = accept_tls-Handled s client i f tls

-- A connection that `accept` gave is handled in one of two ways. Either it gets the first free slot,
-- below the new `nfds`, with a live SSL object, every other slot is as it was, and the round goes
-- on. Or its descriptor is closed by the last call made, every slot has the descriptor that it had,
-- and the round ends: so no descriptor is leaked, whichever step fails and if no slot is free.
pub accept_client-Handled :
    (s : Server) (client : ℕ) (tls : TlsAnswer)
    → Handled s client (accept_client s (some client) tls)
unfolding accept_client tcp_accept
accept_client-Handled s client tls =
    accept_placed-Handled s client tls (find_free s.fd (max_clients - 2) 2)
      (find_free-Found s.fd (max_clients - 2) 2)
