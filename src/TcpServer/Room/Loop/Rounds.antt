-- ===== src/TcpServer/Room/Loop/Rounds.antt =====
-- Who has come to the server of projects/networking/tcp-suite over many rounds, and who has been
-- closed.
use mathlib.Core.List.{Perm, perm_append_comm, perm_middle}
use mathlib.Core.List.Perm
use mathlib.Core.Path.{subst}
use c_systems_programming.Common.{
  ℕ, ◌-◌, ◌≡◌, sym, ap, ◌∙◌, inl, inr, List, [], ◌∷◌, ◌++◌, append_assoc, length, Option, some,
  none, Text, ltb, Bool, true, false, not, ◌||◌, ◌&&◌, if◌then◌else◌, arith, Bool-cases,
}
use c_systems_programming.TcpServer.{
  Server, Call, store_client, accept_client, Events, after_poll, serve, serve_accepted, poll_round,
  cleanup, serve_loop,
}
use c_systems_programming.TcpServer.Cover.{
  IsCovered, store_client-IsCovered, after_poll-IsCovered, poll_round-IsCovered,
}
use c_systems_programming.TcpServer.Room.{
  places, members, members_from, joined, store_client-joined, members-nfds, same-Perm,
  close_clients-members,
}
use c_systems_programming.TcpServer.Room.Loop.{
  closes, closes-append, closes-map, Balanced, serve-Balanced,
}

-- Who comes into the room in a round: a client that is accepted while there is a place.
abbrev pub admitted : List ℕ → ℕ → List ℕ
admitted room client = if ltb (length room) places then client ∷ [] else []

abbrev pub arrival : List ℕ → Option (ℕ × Text) → List ℕ
arrival room none = []
arrival room (some (client, ip)) = admitted room client

abbrev pub arrivals : Server → Events → List ℕ
arrivals s e =
    if e.reported && (after_poll s e).ready 0 then arrival (members s) e.accept_answer else []

-- Whether accept gives a client.
abbrev pub accepts : Option (ℕ × Text) → Bool
accepts none = false
accepts (some client) = true

-- A round ends the loop if poll has failed, unless an accept that fails skips the test.
abbrev pub is_last : Events → Bool
is_last e = e.poll_failed && not (e.reported && (e.revents 0 && not (accepts e.accept_answer)))

abbrev pub has_ended : List Events → Bool
has_ended [] = false
has_ended (e ∷ es) = is_last e || has_ended es

-- Who comes over some rounds, up to the one that ends the loop.
abbrev pub all_arrivals : Server → List Events → List ℕ
all_arrivals s [] = []
all_arrivals s (e ∷ es) =
    let later = all_arrivals (poll_round s e).0 es in
    (if is_last e then [] else later) ++ arrivals s e

joined-admitted :
    (client : ℕ) (room : List ℕ) → joined client places room ≡ admitted room client ++ room
joined-admitted client room = ground arith

serve_accepted-Balanced :
    (s : Server) (e : Events) (o : Option (ℕ × Text))
    → IsCovered s
    → Balanced
        (arrival (members s) o ++ members s)
        (serve_accepted s e (accept_client s o)).1
        (serve_accepted s e (accept_client s o)).0
unfolding serve_accepted accept_client
serve_accepted-Balanced s e none v = Perm.refl (members s)
serve_accepted-Balanced s e (some (client, ip)) v =
    let s' = store_client s client places 2 in
    Perm.trans
      (serve-Balanced s' e (store_client-IsCovered s client places 2 (omega arith) (omega arith) v))
      (Perm.trans (store_client-joined s client places 2)
        (same-Perm (joined-admitted client (members s))))

poll_round-Balanced :
    (s : Server) (e : Events)
    → IsCovered s
    → Balanced (arrivals s e ++ members s) (poll_round s e).1 (poll_round s e).0
unfolding poll_round after_poll
poll_round-Balanced s e v =
    let p = after_poll s e in
    elim (Bool-cases (e.reported && p.ready 0)) [
      | inl h ↦ rw h (serve_accepted-Balanced p e e.accept_answer (after_poll-IsCovered s e v))
      | inr h ↦ rw h (serve-Balanced p e (after_poll-IsCovered s e v))
    ]

swap_parts : (xs ys zs : List ℕ) → Perm (xs ++ (ys ++ zs)) (ys ++ (xs ++ zs))
swap_parts xs ys zs =
    Perm.trans (same-Perm (sym (append_assoc xs ys zs))) (
      Perm.trans (Perm.append_right zs (perm_append_comm xs ys))
        (same-Perm (append_assoc ys xs zs)))

-- The clean-up closes the listening socket, and the members.
closes-cleanup :
    (s : Server) (socket_fd : ℕ)
    → IsCovered s
    → closes (cleanup s socket_fd) ≡ socket_fd ∷ members s
unfolding cleanup
closes-cleanup s socket_fd v =
    ap (λ t. socket_fd ∷ t)
      (ap closes (close_clients-members s (s.nfds - 2) 2)
        ∙ closes-map (members_from s.fd (s.nfds - 2) 2)
        ∙ sym (members-nfds s v))

-- What a loop that runs has closed, and one that has ended.
abbrev pub Settled : Bool → List ℕ → ℕ → Server × List Call → Type 0
Settled false all socket_fd (s, calls) = Perm (closes calls ++ members s) all
Settled true all socket_fd (s, calls) = Perm (closes calls) (socket_fd ∷ all)

serve_accepted-is_last :
    (s : Server) (e : Events) (o : Option (ℕ × Text))
    → (serve_accepted s e (accept_client s o)).2 ≡ not (e.poll_failed && accepts o)
unfolding serve_accepted accept_client serve
serve_accepted-is_last s e none = ground arith
serve_accepted-is_last s e (some (client, ip)) = ground arith

poll_round-is_last : (s : Server) (e : Events) → IsCovered s → (poll_round s e).2 ≡ not (is_last e)
unfolding poll_round after_poll serve
poll_round-is_last s e v =
    let p = after_poll s e in
    let polled : p.ready 0 ≡ e.revents 0 = ground (arith, v.nfds_min) in
    elim (Bool-cases (e.reported && p.ready 0)) [
      | inl h ↦ rw h (serve_accepted-is_last p e e.accept_answer ∙ ground (arith, h, polled))
      | inr h ↦ rw h (ground (arith, h, polled))
    ]

parts_behind :
    (c m all arrived room : List ℕ)
    → Perm (c ++ m) (arrived ++ room)
    → Perm (c ++ (all ++ m)) ((all ++ arrived) ++ room)
parts_behind c m all arrived room h =
    Perm.trans (swap_parts c all m)
      (Perm.trans (Perm.append_left all h) (same-Perm (sym (append_assoc all arrived room))))

parts_run :
    (c c' m m' all arrived room : List ℕ)
    → Perm (c ++ m) (arrived ++ room)
    → Perm (c' ++ m') (all ++ m)
    → Perm ((c ++ c') ++ m') ((all ++ arrived) ++ room)
parts_run c c' m m' all arrived room h k =
    Perm.trans (same-Perm (append_assoc c c' m'))
      (Perm.trans (Perm.append_left c k) (parts_behind c m all arrived room h))

parts_end :
    (c c' m all arrived room : List ℕ) (d : ℕ)
    → Perm (c ++ m) (arrived ++ room)
    → Perm c' (d ∷ (all ++ m))
    → Perm (c ++ c') (d ∷ ((all ++ arrived) ++ room))
parts_end c c' m all arrived room d h k =
    Perm.trans (Perm.append_left c k)
      (Perm.trans (perm_middle c (all ++ m)) (Perm.cons d (parts_behind c m all arrived room h)))

later_rounds :
    (ended : Bool) (calls : List Call) (s : Server) (all arrived room : List ℕ) (socket_fd : ℕ)
    (r : Server × List Call)
    → Balanced (arrived ++ room) calls s
    → Settled ended (all ++ members s) socket_fd r
    → Settled ended ((all ++ arrived) ++ room) socket_fd (r.0, calls ++ r.1)
later_rounds false calls s all arrived room socket_fd r h k =
    (subst (λ c. Perm (c ++ members r.0) ((all ++ arrived) ++ room)) (sym (closes-append calls r.1))
      (parts_run (closes calls) (closes r.1) (members s) (members r.0) all arrived room h k))
later_rounds true calls s all arrived room socket_fd r h k =
    (subst (λ c. Perm c (socket_fd ∷ ((all ++ arrived) ++ room))) (sym (closes-append calls r.1))
      (parts_end (closes calls) (closes r.1) (members s) all arrived room socket_fd h k))

last_round :
    (calls : List Call) (s : Server) (arrived room : List ℕ) (socket_fd : ℕ)
    → IsCovered s
    → Balanced (arrived ++ room) calls s
    → Settled true (arrived ++ room) socket_fd (s, calls ++ cleanup s socket_fd)
last_round calls s arrived room socket_fd v h =
    (subst (λ c. Perm c (socket_fd ∷ (arrived ++ room)))
      (sym (
        closes-append calls (cleanup s socket_fd)
        ∙ ap (λ t. closes calls ++ t) (closes-cleanup s socket_fd v)))
      (parts_end (closes calls) (socket_fd ∷ members s) (members s) [] arrived room socket_fd h
        (Perm.refl (socket_fd ∷ members s))))

-- Over any rounds from a state with every descriptor below `nfds`. If no round was one in which poll
-- failed and no accept did, the server runs, and the clients that it has closed and those that it
-- holds are together, in some order and each as often, those that it held and those that it accepted
-- while one of its 99 places was free. Otherwise it has ended with the first such round, and has
-- closed exactly the clients that it held and accepted so up to then, and the listening socket.
pub serve_loop-Settled :
    (s : Server) (socket_fd : ℕ) (events : List Events)
    → IsCovered s
    → Settled
        (has_ended events)
        (all_arrivals s events ++ members s)
        socket_fd
        (serve_loop s socket_fd events)
unfolding serve_loop
serve_loop-Settled s socket_fd [] v = Perm.refl (members s)
serve_loop-Settled s socket_fd (e ∷ es) v =
    let r = poll_round s e in
    let round = poll_round-Balanced s e v in
    let last : r.2 ≡ not (is_last e) = poll_round-is_last s e v in
    elim (Bool-cases (is_last e)) [
      | inr h ↦
          rw (last, h)
            (later_rounds (has_ended es) r.1 r.0 (all_arrivals r.0 es) (arrivals s e) (members s)
              socket_fd (serve_loop r.0 socket_fd es) round
              (serve_loop-Settled r.0 socket_fd es (poll_round-IsCovered s e v)))
      | inl h ↦
          rw (last, h)
            (last_round r.1 r.0 (arrivals s e) (members s) socket_fd (poll_round-IsCovered s e v)
              round)
    ]
