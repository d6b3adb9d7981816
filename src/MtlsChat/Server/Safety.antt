-- ===== src/MtlsChat/Server/Safety.antt =====
-- The state of the server in projects/networking/mtls-chat/server.c: its SSL objects and the bounds of
-- its arrays.
use native.Mathlib.Decide.{ℕ_discrete}
use c_systems_programming.Common.{
  ℕ, ◌≤◌, ◌<◌, ◌≡◌, ◌≢◌, true, false, some, none, ◌==◌, if◌then◌else◌, arith,
}
use c_systems_programming.MtlsChat.Server.{
  Server, max_clients, update, TlsAnswer, no_ssl, no_set_fd, handshake_error, handshake_closed,
  handshake_done, ssl_new, free_object, drop_client, place_client, release, initial,
}
use c_systems_programming.MtlsChat.Server.Accept.{IsFirstFree}

-- Every client's slot holds an SSL object that is allocated and that no other client's slot holds.
pub record IsSafe (s : Server) : Type 0 where
  pub nfds_min : 2 ≤ s.nfds
  pub nfds_max : s.nfds ≤ max_clients
  pub object : (i : ℕ) → 2 ≤ i → s.fd i ≢ none → (p : ℕ) × (s.ssl i ≡ some p) × (s.live p ≡ true)
  pub apart :
      (i j p : ℕ)
      → 2 ≤ i
      → 2 ≤ j
      → s.fd i ≢ none
      → s.fd j ≢ none
      → s.ssl i ≡ some p
      → s.ssl j ≡ some p
      → i ≡ j
  pub in_range : (i : ℕ) → s.fd i ≢ none → i < max_clients

-- The object that SSL_new gives was not allocated.
abbrev pub IsFresh : Server → TlsAnswer → Type 0
IsFresh s no_ssl = Unit
IsFresh s (no_set_fd p) = s.live p ≡ false
IsFresh s (handshake_error p) = s.live p ≡ false
IsFresh s (handshake_closed p) = s.live p ≡ false
IsFresh s (handshake_done p) = s.live p ≡ false

pub initial-IsSafe : (socket_fd : ℕ) → IsSafe (initial socket_fd)
unfolding initial
initial-IsSafe socket_fd = record {
  nfds_min = omega arith;
  nfds_max = omega arith;
  object = λ i h ne. absurd (ne (ground arith));
  apart = λ i j p h k ni nj. absurd (ni (ground arith));
  in_range = λ i ne. ground arith;
}

-- Releasing a client.
pub release-IsSafe :
    (s : Server) (i : ℕ) → 2 ≤ i → i < s.nfds → s.fd i ≢ none → IsSafe s → IsSafe (release s i)
unfolding release
release-IsSafe s i h lt ne v =
    let (q, eq, lq) = v.object i h ne in
    record {
      nfds_min = omega (arith, v.nfds_min);
      nfds_max = omega (arith, v.nfds_max);
      object = λ j hj nj.
          let (jne, fj) = other j nj in
          let (p, ep, lp) = v.object j hj fj in
          (p, ground (arith, jne, ep), ground (arith, eq, lp, ep, v.apart i j p h hj ne fj, jne));
      apart = λ j k p hj hk nj nk ej ek.
          let (jne, fj) = other j nj in
          let (kne, fk) = other k nk in
          v.apart j k p hj hk fj fk (ground (arith, jne, ej)) (ground (arith, kne, ek));
      in_range = λ j nj. v.in_range j (other j nj).1;
    }
  where
    other : (j : ℕ) → (release s i).fd j ≢ none → (j ≢ i) × (s.fd j ≢ none)
    other j nj = (λ e. nj (ground arith), λ e. nj (ground arith))

module _ (s : Server) (client i : ℕ) (f : IsFirstFree s.fd 2 max_clients i) (v : IsSafe s) where
  -- After a failed handshake: the slot is free again, and its object is not allocated.
  pub failed-IsSafe :
      (p : ℕ)
      → s.live p ≡ false
      → IsSafe (drop_client (free_object (ssl_new (place_client s i client) i p) p) i)
  unfolding drop_client free_object ssl_new place_client
  failed-IsSafe p fresh = record {
    nfds_min = ground (arith, v.nfds_min, f.at_least);
    nfds_max = ground (arith, v.nfds_max, f.below);
    object = λ j hj nj.
        let (jne, fj) = other j nj in
        let (q, eq, lq) = v.object j hj fj in
        (q, ground (arith, jne, eq), ground (arith, lq, fresh));
    apart = λ j k q hj hk nj nk ej ek.
        let (jne, fj) = other j nj in
        let (kne, fk) = other k nk in
        v.apart j k q hj hk fj fk (ground (arith, jne, ej)) (ground (arith, kne, ek));
    in_range = λ j nj. v.in_range j (other j nj).1;
  }
    where
      other :
          (j : ℕ)
          → (drop_client (free_object (ssl_new (place_client s i client) i p) p) i).fd j ≢ none
          → (j ≢ i) × (s.fd j ≢ none)
      other j nj = (λ e. nj (ground arith), λ e. nj (ground arith))

  -- After SSL_new failed.
  pub no_object-IsSafe :
      IsSafe (drop_client (record (place_client s i client) { ssl = update s.ssl i none }) i)
  unfolding drop_client place_client
  no_object-IsSafe = record {
    nfds_min = ground (arith, v.nfds_min, f.at_least);
    nfds_max = ground (arith, v.nfds_max, f.below);
    object = λ j hj nj.
        let (jne, fj) = other j nj in
        let (q, eq, lq) = v.object j hj fj in (q, ground (arith, jne, eq), lq);
    apart = λ j k q hj hk nj nk ej ek.
        let (jne, fj) = other j nj in
        let (kne, fk) = other k nk in
        v.apart j k q hj hk fj fk (ground (arith, jne, ej)) (ground (arith, kne, ek));
    in_range = λ j nj. v.in_range j (other j nj).1;
  }
    where
      other :
          (j : ℕ)
          → (if j == i then none else if j == i then some client else s.fd j) ≢ none
          → (j ≢ i) × (s.fd j ≢ none)
      other j nj = (λ e. nj (ground arith), λ e. nj (ground arith))

  pub admitted-IsSafe : (p : ℕ) → s.live p ≡ false → IsSafe (ssl_new (place_client s i client) i p)
  unfolding ssl_new place_client
  admitted-IsSafe p fresh = record {
    nfds_min = ground (arith, v.nfds_min, f.at_least);
    nfds_max = ground (arith, v.nfds_max, f.below);
    object = λ j hj nj. elim (ℕ_discrete j i) [
      | yes same ↦ (p, ground arith, ground arith)
      | no ne ↦
          let (q, eq, lq) = v.object j hj (λ e. nj (ground arith)) in
          (q, ground arith, ground (arith, lq))
    ];
    apart = λ j k q hj hk nj nk ej ek. elim (ℕ_discrete j i) [
      | yes js ↦ elim (ℕ_discrete k i) [
        | yes ks ↦ omega arith
        | no kne ↦
            let (r, er, lr) = v.object k hk (λ e. nk (ground arith)) in
            absurd (ground (arith, er, lr, fresh, ej, ek))
      ]
      | no jne ↦ elim (ℕ_discrete k i) [
        | yes ks ↦
            let (r, er, lr) = v.object j hj (λ e. nj (ground arith)) in
            absurd (ground (arith, er, lr, fresh, ej, ek))
        | no kne ↦
            v.apart j k q hj hk (λ e. nj (ground arith)) (λ e. nk (ground arith))
              (ground (arith, ej)) (ground (arith, ek))
      ]
    ];
    in_range = λ j nj. elim (ℕ_discrete j i) [
      | yes same ↦ omega (arith, f.below)
      | no ne ↦ v.in_range j (λ e. nj (ground arith))
    ];
  }
