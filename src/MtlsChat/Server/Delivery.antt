-- ===== src/MtlsChat/Server/Delivery.antt =====
-- What the server of projects/networking/mtls-chat writes to a client while others come and go.
pub mod Accepts
pub mod Rounds
use native.Mathlib.Decide.{ℕ_discrete}
use c_systems_programming.Common.{
  ℕ, zero, suc, ◌+◌, ◌-◌, ◌≤◌, ◌<◌, ◌≡◌, ◌≢◌, refl, sym, ap, ap₂, ◌∙◌, inl, inr, List, [], ◌∷◌,
  ◌++◌, Bool, true, false, not, Option, some, none, Text, ltb, leb, ◌==◌, ◌&&◌, if◌then◌else◌,
  arith, All, Bool-cases, Option-cases, if_elim,
}
use c_systems_programming.MtlsChat.Server.{
  Server, max_clients, is_some, Call, close, ssl_shutdown, ssl_free, ssl_write, print, find_free,
  place_client, tcp_place, tcp_accept, TlsAnswer, handshake_done, ssl_new, tls_accept, accept_tls,
  accept_placed, accept_client, broadcast_from, broadcast, ReadAnswer, received, want_more,
  zero_return, error_syscall, error_ssl, error_other, release, release_calls, monitor, monitor_slot,
  monitor_all, Events, after_poll, serve_clients, serve_stdin, serve, serve_accepted, poll_round,
  poll_loop,
}
use c_systems_programming.MtlsChat.Server.Accept.{Found, find_free-Found}

-- The texts that are written to an SSL object, in order.
abbrev pub is_object : ℕ → Option ℕ → Bool
is_object p none = false
is_object p (some q) = q == p

abbrev pub writes_to : ℕ → List Call → List Text
writes_to p [] = []
writes_to p (ssl_write o text ∷ calls) =
    let rest = writes_to p calls in if is_object p o then text ∷ rest else rest
writes_to p (close d ∷ calls) = writes_to p calls
writes_to p (ssl_shutdown o ∷ calls) = writes_to p calls
writes_to p (ssl_free o ∷ calls) = writes_to p calls
writes_to p (print text ∷ calls) = writes_to p calls

pub writes_to-append :
    (p : ℕ) (xs ys : List Call) → writes_to p (xs ++ ys) ≡ writes_to p xs ++ writes_to p ys
writes_to-append p [] ys = refl
writes_to-append p (ssl_write o text ∷ xs) ys = elim (Bool-cases (is_object p o)) [
  | inl same ↦ rw (same, writes_to-append p xs ys) refl
  | inr other ↦ rw (other, writes_to-append p xs ys) refl
]
writes_to-append p (close d ∷ xs) ys = writes_to-append p xs ys
writes_to-append p (ssl_shutdown o ∷ xs) ys = writes_to-append p xs ys
writes_to-append p (ssl_free o ∷ xs) ys = writes_to-append p xs ys
writes_to-append p (print text ∷ xs) ys = writes_to-append p xs ys

-- A client in slot `i`, with the SSL object `p`, which no other client has.
pub record IsServed (s : Server) (i p : ℕ) : Type 0 where
  pub slot : 2 ≤ i
  pub connected : is_some (s.fd i) ≡ true
  pub object : s.ssl i ≡ some p
  pub alone : (j : ℕ) → is_some (s.fd j) ≡ true → s.ssl j ≡ some p → j ≡ i

other_object : (p : ℕ) (o : Option ℕ) → o ≢ some p → is_object p o ≡ false
other_object p none h = refl
other_object p (some q) h = let ne : q ≢ p = λ e. h (ap some e) in ground (arith, ne)

-- The text goes to the object once, in its slot.
broadcast_from-writes :
    (s : Server) (text : Text) (i p rounds lo : ℕ)
    → IsServed s i p
    → writes_to p (broadcast_from s text rounds lo)
      ≡ (if leb lo i && ltb i (lo + rounds) then text ∷ [] else [])
unfolding broadcast_from
broadcast_from-writes s text i p zero lo v = ground arith
broadcast_from-writes s text i p (suc rounds) lo v =
    let later = broadcast_from-writes s text i p rounds (lo + 1) v in
    elim (ℕ_discrete lo i) [
      | yes same ↦
          let taken : is_some (s.fd lo) ≡ true = ap (λ k. is_some (s.fd k)) same ∙ v.connected in
          let mine : s.ssl lo ≡ some p = ap s.ssl same ∙ v.object in
          rw (taken, mine) (ground (arith, same, later))
      | no other ↦ elim (Bool-cases (is_some (s.fd lo))) [
        | inl taken ↦
            let theirs : is_object p (s.ssl lo) ≡ false =
              other_object p (s.ssl lo) (λ e. other (v.alone lo taken e)) in
            rw (taken, theirs) (later ∙ ground (arith, other))
        | inr free ↦ rw free (later ∙ ground (arith, other))
      ]
    ]

abbrev pub optional : Option Text → List Text
optional none = []
optional (some text) = text ∷ []

pub broadcast-writes :
    (s : Server) (text : Text) (i p : ℕ)
    → i < s.nfds
    → IsServed s i p
    → writes_to p (broadcast s text) ≡ text ∷ []
unfolding broadcast
broadcast-writes s text i p below v =
    broadcast_from-writes s text i p (s.nfds - 2) 2 v ∙ ground (arith, v.slot, below)

-- A client from which something is read, or nothing yet, stays.
abbrev pub stays : ReadAnswer → Bool
stays (received text) = true
stays want_more = true
stays answer = false

-- What a part of a round has to give.
abbrev pub Gives : ℕ → ℕ → List Text → Server × List Call → Type 0
Gives i p texts r = IsServed r.0 i p × (writes_to p r.1 ≡ texts)

-- Another client is released: nothing is written to `p`, and its client stays.
release_calls-writes : (p : ℕ) (s : Server) (j : ℕ) → writes_to p (release_calls s j) ≡ []
unfolding release_calls
release_calls-writes p s j = elim (Option-cases (s.fd j)) [
  | inl e ↦ rw e refl
  | inr (client, e) ↦ rw e refl
]

-- A client in another slot has gone.
pub gone-IsServed :
    (s s' : Server) (i p j : ℕ)
    → j ≢ i
    → s'.fd j ≡ none
    → ((k : ℕ) → k ≢ j → (s'.fd k ≡ s.fd k) × (s'.ssl k ≡ s.ssl k))
    → IsServed s i p
    → IsServed s' i p
gone-IsServed s s' i p j ne gone same v =
    let (f, o) = same i (λ e. ne (sym e)) in
    record {
      slot = v.slot;
      connected = ap is_some f ∙ v.connected;
      object = o ∙ v.object;
      alone = λ k c h. elim (ℕ_discrete k j) [
        | yes e ↦ absurd (cc (c, ap is_some (ap s'.fd e ∙ gone)))
        | no other ↦ let (f', o') = same k other in v.alone k (ap is_some (sym f') ∙ c) (sym o' ∙ h)
      ];
    }

release-IsServed : (s : Server) (i p j : ℕ) → j ≢ i → IsServed s i p → IsServed (release s j) i p
unfolding release
release-IsServed s i p j ne v =
    gone-IsServed s (release s j) i p j ne (ground arith)
      (λ k h. (ground (arith, h), ground (arith, h))) v

monitor-Gives :
    (s : Server) (i p j : ℕ) (a : ReadAnswer)
    → (j ≡ i → stays a ≡ true)
    → IsServed s i p
    → Gives i p [] (monitor s j a)
unfolding monitor
monitor-Gives s i p j (received text) h v = (v, refl)
monitor-Gives s i p j want_more h v = (v, refl)
monitor-Gives s i p j zero_return h v =
    (release-IsServed s i p j (λ e. cc (h e)) v, release_calls-writes p s j)
monitor-Gives s i p j error_syscall h v =
    (release-IsServed s i p j (λ e. cc (h e)) v, release_calls-writes p s j)
monitor-Gives s i p j error_ssl h v =
    (release-IsServed s i p j (λ e. cc (h e)) v, release_calls-writes p s j)
monitor-Gives s i p j error_other h v =
    (release-IsServed s i p j (λ e. cc (h e)) v, release_calls-writes p s j)

monitor_slot-Gives :
    (s : Server) (i p j : ℕ) (a : ReadAnswer)
    → (j ≡ i → stays a ≡ true)
    → IsServed s i p
    → Gives i p [] (monitor_slot s j a)
unfolding monitor_slot
monitor_slot-Gives s i p j a h v =
    if_elim (λ (r : Server × List Call). Gives i p [] r) (is_some (s.fd j) && s.ready j)
      (λ k. monitor-Gives s i p j a h v) (λ k. (v, refl))

pub monitor_all-Gives :
    (answers : ℕ → ReadAnswer) (rounds j : ℕ) (s : Server) (i p : ℕ)
    → stays (answers i) ≡ true
    → IsServed s i p
    → Gives i p [] (monitor_all answers rounds j s)
unfolding monitor_all
monitor_all-Gives answers zero j s i p h v = (v, refl)
monitor_all-Gives answers (suc rounds) j s i p h v =
    let (w, e) =
      monitor_slot-Gives s i p j (answers j) (λ k. ap (λ n. stays (answers n)) k ∙ h) v in
    let (w', e') =
      monitor_all-Gives answers rounds (j + 1) (monitor_slot s j (answers j)).0 i p h w in
    if_elim (λ (r : Server × List Call). Gives i p [] r) (ltb j s.nfds)
      (λ k. (
        w',
        writes_to-append p (monitor_slot s j (answers j)).1
              (monitor_all answers rounds (j + 1) (monitor_slot s j (answers j)).0).1
            ∙ ap₂ (λ a b. a ++ b) e e',
      ))
      (λ k. (v, refl))
