-- ===== src/MtlsChat/Server/Lost.antt =====
-- Which clients a broadcast of projects/networking/mtls-chat/server.c reaches, and the clients that
-- are lost when another one disconnects.
use native.Mathlib.Decide.{ℕ_discrete}
use c_systems_programming.Common.{
  ℕ, zero, suc, ◌+◌, ◌-◌, ◌≤◌, ◌<◌, ◌≡◌, ◌≢◌, refl, sym, ◌∙◌, ◌↔◌, ◌⊎◌, inl, inr, List, [], ◌∷◌,
  ◌++◌, Bool, true, false, some, none, if◌then◌else◌, arith, Option-cases, Text,
}
use c_systems_programming.MtlsChat.Server.{
  Server, is_some, Call, ssl_write, ReadAnswer, received, want_more, zero_return, error_syscall,
  error_ssl, error_other, release, monitor, broadcast, broadcast_from,
}
use c_systems_programming.MtlsChat.Server.Safety.{IsSafe, release-IsSafe}

abbrev pub Occurs : Call → List Call → Type 0
Occurs c [] = ⊥
Occurs c (x ∷ xs) = (c ≡ x) ⊎ Occurs c xs

-- The object `p` belongs to a connected client in a slot from `lo` on, below `hi`.
abbrev pub Serves : Server → ℕ → ℕ → ℕ → Type 0
Serves s p lo hi = (i : ℕ) × (lo ≤ i) × (i < hi) × (s.fd i ≢ none) × (s.ssl i ≡ some p)

Occurs-append_right : (c : Call) (xs ys : List Call) → Occurs c ys → Occurs c (xs ++ ys)
Occurs-append_right c [] ys o = o
Occurs-append_right c (x ∷ xs) ys o = inr (Occurs-append_right c xs ys o)

Serves-suc :
    (s : Server) (p i rounds : ℕ)
    → Serves s p (i + 1) (i + 1 + rounds)
    → Serves s p i (i + suc rounds)
Serves-suc s p i rounds (k, lo, hi, connected, object) =
    (k, omega arith, omega arith, connected, object)

module _ (s : Server) (text : Text) (p : ℕ) where
  broadcast_from-Serves :
      (rounds i : ℕ)
      → Occurs (ssl_write (some p) text) (broadcast_from s text rounds i)
      → Serves s p i (i + rounds)
  unfolding broadcast_from
  broadcast_from-Serves zero i o = absurd o
  broadcast_from-Serves (suc rounds) i o = elim (Option-cases (s.fd i)) [
    | inl free ↦ Serves-suc s p i rounds (broadcast_from-Serves rounds (i + 1) (rw free at o))
    | inr (client, taken) ↦ elim (rw taken at o) [
      | inl e ↦ (i, omega arith, omega arith, (λ n. cc taken), cc)
      | inr later ↦ Serves-suc s p i rounds (broadcast_from-Serves rounds (i + 1) later)
    ]
  ]

  broadcast_from-Occurs :
      (rounds i k : ℕ)
      → i ≤ k
      → k < i + rounds
      → s.fd k ≢ none
      → s.ssl k ≡ some p
      → Occurs (ssl_write (some p) text) (broadcast_from s text rounds i)
  unfolding broadcast_from
  broadcast_from-Occurs zero i k h l c e = absurd (omega arith)
  broadcast_from-Occurs (suc rounds) i k h l c e = elim (ℕ_discrete i k) [
    | yes same ↦ elim (Option-cases (s.fd i)) [
      | inl free ↦ absurd (c (rw (← same) free))
      | inr (client, taken) ↦ rw taken (inl (rw (same, e)))
    ]
    | no later ↦
        Occurs-append_right _ (if is_some (s.fd i) then ssl_write (s.ssl i) text ∷ [] else []) _
          (broadcast_from-Occurs rounds (i + 1) k (omega arith) (omega arith) c e)
  ]

-- A broadcast writes the text to an SSL object exactly if the object belongs to a connected client
-- whose slot is below `nfds`.
pub broadcast_iff :
    (s : Server) (text : Text) (p : ℕ)
    → 2 ≤ s.nfds
    → Occurs (ssl_write (some p) text) (broadcast s text) ↔ Serves s p 2 s.nfds
unfolding broadcast
broadcast_iff s text p h =
    let e : 2 + (s.nfds - 2) ≡ s.nfds = omega arith in
    (
      λ o. rw e at (broadcast_from-Serves s text p (s.nfds - 2) 2 o),
      λ (k, lo, hi, connected, object).
          broadcast_from-Occurs s text p (s.nfds - 2) 2 k lo (omega arith) connected object,
    )

-- The answers on which `monitor` gives a client up.
abbrev pub gives_up : ReadAnswer → Bool
gives_up (received text) = false
gives_up want_more = false
gives_up zero_return = true
gives_up error_syscall = true
gives_up error_ssl = true
gives_up error_other = true

monitor-release :
    (s : Server) (i : ℕ) (a : ReadAnswer) → gives_up a ≡ true → (monitor s i a).0 ≡ release s i
unfolding monitor
monitor-release s i (received text) h = cc
monitor-release s i want_more h = cc
monitor-release s i zero_return h = refl
monitor-release s i error_syscall h = refl
monitor-release s i error_ssl h = refl
monitor-release s i error_other h = refl

release-nfds : (s : Server) (i : ℕ) → (release s i).nfds ≡ s.nfds - 1
unfolding release
release-nfds s i = refl

release_other :
    (s : Server) (i j : ℕ) → j ≢ i → ((release s i).fd j ≡ s.fd j) × ((release s i).ssl j ≡ s.ssl j)
unfolding release
release_other s i j ne = (ground arith, ground arith)

release_silent :
    (s : Server) (i last p : ℕ) (text : Text)
    → IsSafe (release s i)
    → 2 ≤ last
    → last + 1 ≡ s.nfds
    → (release s i).fd last ≢ none
    → (release s i).ssl last ≡ some p
    → ¬ Occurs (ssl_write (some p) text) (broadcast (release s i) text)
release_silent s i last p text v h e c sp o =
    let (k, lo, hi, ck, ek) = (broadcast_iff (release s i) text p v.nfds_min).0 o in
    omega (arith, release-nfds s i, v.apart k last p lo h ck c ek sp)

-- From a safe state, when a client in a lower slot disconnects, the client in the last slot below
-- `nfds` stays connected with the same descriptor and the same SSL object, but its slot is no longer
-- below `nfds`, and no later broadcast in that state writes to it.
pub monitor_loses_last :
    (s : Server) (i last p : ℕ) (a : ReadAnswer) (text : Text)
    → IsSafe s
    → 2 ≤ i
    → i < last
    → last + 1 ≡ s.nfds
    → s.fd i ≢ none
    → s.fd last ≢ none
    → s.ssl last ≡ some p
    → gives_up a ≡ true
    → let s' = (monitor s i a).0 in
      (s'.fd last ≡ s.fd last)
      × (s'.ssl last ≡ some p)
      × (s'.nfds ≡ last)
      × ¬ Occurs (ssl_write (some p) text) (broadcast s' text)
monitor_loses_last s i last p a text v h lt e ci cl sp g =
    let (same_fd, same_ssl) = release_other s i last (omega arith) in
    rw (monitor-release s i a g) (
      same_fd,
      same_ssl ∙ sp,
      omega (arith, release-nfds s i),
      release_silent s i last p text (release-IsSafe s i h (omega arith) ci v) (omega arith) e
          (λ n. cl (sym same_fd ∙ n)) (same_ssl ∙ sp),
    )
