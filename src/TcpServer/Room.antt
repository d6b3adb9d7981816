-- ===== src/TcpServer/Room.antt =====
-- The clients of the server of projects/networking/tcp-suite as a room, whose members stand in no
-- order.
pub mod Loop
use mathlib.Core.List.{Perm, perm_middle}
use mathlib.Core.List.Perm
use mathlib.Core.Path.{subst}
use native.Mathlib.Decide.{ℕ_discrete}
use c_systems_programming.Common.{
  ℕ, zero, suc, ◌+◌, ◌-◌, ◌≤◌, ◌<◌, ◌≡◌, ◌≢◌, refl, sym, ap, ap₂, ◌∙◌, inl, inr, List, [], ◌∷◌,
  ◌++◌, append-nil, append_assoc, map, length, Bool, true, false, not, Option, some, none, Text,
  ltb, leb, ◌==◌, ◌&&◌, if◌then◌else◌, arith, Bool-cases, Option-cases, if_elim,
}
use c_systems_programming.TcpServer.{
  Server, max_clients, update, is_some, Call, close, write, print, print_garbage, store_client,
  on_client, send_all, forget, close_clients, cleanup,
}
use c_systems_programming.TcpServer.Cover.{IsCovered}

-- The descriptors in some slots.
abbrev pub in_slot : Option ℕ → List ℕ
in_slot none = []
in_slot (some client) = client ∷ []

abbrev pub members_from : (ℕ → Option ℕ) → ℕ → ℕ → List ℕ
members_from fd zero i = []
members_from fd (suc rounds) i = in_slot (fd i) ++ members_from fd rounds (i + 1)

-- The room has 99 places, which are the slots 2 to 100.
abbrev pub places : ℕ
places = max_clients - 1

abbrev pub members : Server → List ℕ
members s = members_from s.fd places 2

members_from-max : (fd : ℕ → Option ℕ) (rounds i : ℕ) → length (members_from fd rounds i) ≤ rounds
members_from-max fd zero i = omega arith
members_from-max fd (suc rounds) i = elim (Option-cases (fd i)) [
  | inl free ↦ rw free (omega (arith, members_from-max fd rounds (i + 1)))
  | inr (client, taken) ↦ rw taken (omega (arith, members_from-max fd rounds (i + 1)))
]

-- Slots that agree have the same members.
members_from-same :
    (fd fd' : ℕ → Option ℕ) (rounds i : ℕ)
    → ((k : ℕ) → i ≤ k → fd k ≡ fd' k)
    → members_from fd rounds i ≡ members_from fd' rounds i
members_from-same fd fd' zero i h = refl
members_from-same fd fd' (suc rounds) i h =
    ap₂ (λ a b. in_slot a ++ b) (h i (omega arith))
      (members_from-same fd fd' rounds (i + 1) (λ k l. h k (omega (arith, l))))

-- `store_client` changes no slot before the one it starts at.
store_client-before :
    (s : Server) (client rounds i k : ℕ) → k < i → (store_client s client rounds i).fd k ≡ s.fd k
unfolding store_client
store_client-before s client zero i k h = refl
store_client-before s client (suc rounds) i k h =
    ground (arith, h, store_client-before s client rounds (i + 1) k (omega (arith, h)))

-- Who is in the room after somebody has come.
abbrev pub joined : ℕ → ℕ → List ℕ → List ℕ
joined client rounds room = if ltb (length room) rounds then client ∷ room else room

joined-behind :
    (client d rounds : ℕ) (room : List ℕ)
    → Perm (d ∷ joined client rounds room) (joined client (suc rounds) (d ∷ room))
joined-behind client d rounds room = elim (Bool-cases (ltb (length room) rounds)) [
  | inl e ↦
      let e' : ltb (length (d ∷ room)) (suc rounds) ≡ true = ground (arith, e) in
      rw (e, e') (Perm.swap client d room)
  | inr e ↦
      let e' : ltb (length (d ∷ room)) (suc rounds) ≡ false = ground (arith, e) in
      rw (e, e') (Perm.refl (d ∷ room))
]

joined-room :
    (client rounds : ℕ) (room : List ℕ)
    → length room < rounds
    → joined client rounds room ≡ client ∷ room
joined-room client rounds room h = ground (arith, h)

pub same-Perm : {xs ys : List ℕ} → xs ≡ ys → Perm xs ys
same-Perm {xs} e = subst (λ zs. Perm xs zs) e (Perm.refl xs)

store_client-free :
    (s : Server) (client rounds i : ℕ)
    → s.fd i ≡ none
    → (store_client s client (suc rounds) i).fd ≡ update s.fd i (some client)
unfolding store_client
store_client-free s client rounds i free = rw free refl

store_client-taken :
    (s : Server) (client d rounds i : ℕ)
    → s.fd i ≡ some d
    → store_client s client (suc rounds) i ≡ store_client s client rounds (i + 1)
unfolding store_client
store_client-taken s client d rounds i taken = rw taken refl

members_from-update :
    (fd : ℕ → Option ℕ) (client rounds i : ℕ)
    → members_from (update fd i (some client)) (suc rounds) i
      ≡ client ∷ members_from fd rounds (i + 1)
members_from-update fd client rounds i =
    let here : update fd i (some client) i ≡ some client = ground arith in
    ap₂ (λ a b. in_slot a ++ b) here
      (members_from-same (update fd i (some client)) fd rounds (i + 1) (λ k l. ground (arith, l)))

pub store_client-joined :
    (s : Server) (client rounds i : ℕ)
    → Perm
        (members_from (store_client s client rounds i).fd rounds i)
        (joined client rounds (members_from s.fd rounds i))
unfolding store_client
store_client-joined s client zero i = Perm.refl []
store_client-joined s client (suc rounds) i = elim (Option-cases (s.fd i)) [
  | inl free ↦
      let more = members_from s.fd rounds (i + 1) in
      let new : members_from (store_client s client (suc rounds) i).fd (suc rounds) i
          ≡ client ∷ more =
        ap (λ (f : ℕ → Option ℕ). members_from f (suc rounds) i)
          (store_client-free s client rounds i free)
        ∙ members_from-update s.fd client rounds i in
      let old : members_from s.fd (suc rounds) i ≡ more = ap (λ o. in_slot o ++ more) free in
      same-Perm (
        new
        ∙ sym (
            ap (joined client (suc rounds)) old
            ∙ joined-room client (suc rounds) more
                (omega (arith, members_from-max s.fd rounds (i + 1)))))
  | inr (d, taken) ↦
      let more = members_from s.fd rounds (i + 1) in
      let later = store_client s client rounds (i + 1) in
      let new : members_from (store_client s client (suc rounds) i).fd (suc rounds) i
          ≡ d ∷ members_from later.fd rounds (i + 1) =
        ap (λ (u : Server). members_from u.fd (suc rounds) i)
          (store_client-taken s client d rounds i taken)
        ∙ ap (λ o. in_slot o ++ members_from later.fd rounds (i + 1))
            (store_client-before s client rounds (i + 1) i (omega arith) ∙ taken) in
      let old : d ∷ more ≡ members_from s.fd (suc rounds) i =
        ap (λ o. in_slot o ++ more) (sym taken) in
      Perm.trans (same-Perm new) (
        Perm.trans (Perm.cons d (store_client-joined s client rounds (i + 1))) (
          Perm.trans (joined-behind client d rounds more)
            (same-Perm (ap (joined client (suc rounds)) old))))
]

-- A client leaves the room.
pub forget-members :
    (fd : ℕ → Option ℕ) (client rounds i k : ℕ)
    → i ≤ k
    → k < i + rounds
    → fd k ≡ some client
    → Perm (client ∷ members_from (update fd k none) rounds i) (members_from fd rounds i)
forget-members fd client zero i k h l e = absurd (omega (arith, h, l))
forget-members fd client (suc rounds) i k h l e = elim (ℕ_discrete i k) [
  | yes same ↦
      let here : update fd k none i ≡ none = ground (arith, same) in
      let there : fd i ≡ some client = ap fd same ∙ e in
      let rest : members_from (update fd k none) rounds (i + 1) ≡ members_from fd rounds (i + 1) =
        members_from-same (update fd k none) fd rounds (i + 1) (λ j m. ground (arith, m, same)) in
      rw (here, there, rest) (Perm.refl (client ∷ members_from fd rounds (i + 1)))
  | no other ↦
      let here : update fd k none i ≡ fd i = ground (arith, other) in
      let later =
        forget-members fd client rounds (i + 1) k (omega (arith, h, other)) (omega (arith, l)) e in
      rw here (elim (Option-cases (fd i)) [
        | inl free ↦ rw free later
        | inr (d, taken) ↦ rw taken (
            Perm.trans (Perm.swap d client (members_from (update fd k none) rounds (i + 1)))
              (Perm.cons d later))
      ])
]

members_from-cut :
    (fd : ℕ → Option ℕ) (top i rounds few : ℕ)
    → ((k : ℕ) → top ≤ k → fd k ≡ none)
    → i + few ≡ top
    → few ≤ rounds
    → members_from fd rounds i ≡ members_from fd few i
members_from-cut fd top i zero zero h e m = refl
members_from-cut fd top i zero (suc few) h e m = absurd (omega (arith, m))
members_from-cut fd top i (suc rounds) zero h e m = rw (h i (omega (arith, e))) (
    members_from-cut fd (top + 1) (i + 1) rounds zero (λ k l. h k (omega (arith, l)))
      (omega (arith, e)) (omega arith))
members_from-cut fd top i (suc rounds) (suc few) h e m =
    ap (λ t. in_slot (fd i) ++ t)
      (members_from-cut fd top (i + 1) rounds few h (omega (arith, e)) (omega (arith, m)))

-- The places behind `nfds` are free.
pub members-nfds : (s : Server) → IsCovered s → members s ≡ members_from s.fd (s.nfds - 2) 2
members-nfds s v =
    members_from-cut s.fd s.nfds 2 places (s.nfds - 2) (λ k l. free k l) (omega (arith, v.nfds_min))
      (omega (arith, v.nfds_max))
  where
    free : (k : ℕ) → s.nfds ≤ k → s.fd k ≡ none
    free k l = elim (Option-cases (s.fd k)) [
      | inl e ↦ e
      | inr (d, e) ↦ absurd (omega (arith, l, v.inside k (λ n. cc)))
    ]

-- A text goes to the members, each once; and a clean-up closes them.
pub send_all-members :
    (s : Server) (text : Text) (rounds i : ℕ)
    → send_all s text rounds i ≡ map (λ client. write client text) (members_from s.fd rounds i)
unfolding send_all
send_all-members s text zero i = refl
send_all-members s text (suc rounds) i = elim (Option-cases (s.fd i)) [
  | inl free ↦ rw free (send_all-members s text rounds (i + 1))
  | inr (d, taken) ↦ rw taken (ap (λ t. write d text ∷ t) (send_all-members s text rounds (i + 1)))
]

pub close_clients-members :
    (s : Server) (rounds i : ℕ) → close_clients s rounds i ≡ map close (members_from s.fd rounds i)
unfolding close_clients
close_clients-members s zero i = refl
close_clients-members s (suc rounds) i = elim (Option-cases (s.fd i)) [
  | inl free ↦ rw free (close_clients-members s rounds (i + 1))
  | inr (d, taken) ↦ rw taken (ap (λ t. close d ∷ t) (close_clients-members s rounds (i + 1)))
]
