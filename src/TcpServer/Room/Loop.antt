-- ===== src/TcpServer/Room/Loop.antt =====
-- Who has come to the room of the server of projects/networking/tcp-suite, and who has been closed.
pub mod Rounds
use mathlib.Core.List.{Perm, perm_append_comm, perm_middle}
use mathlib.Core.List.Perm
use mathlib.Core.Path.{subst}
use c_systems_programming.Common.{
  ℕ, zero, suc, ◌+◌, ◌-◌, ◌≤◌, ◌<◌, ◌≡◌, refl, sym, ap, ◌∙◌, ◌⊎◌, inl, inr, List, [], ◌∷◌, ◌++◌,
  append_assoc, map, length, Option, some, none, Text, ltb, ◌&&◌, if◌then◌else◌, arith, Bool-cases,
  if_elim,
}
use c_systems_programming.TcpServer.{
  Server, max_clients, Call, close, write, print, print_garbage, store_client, accept_client,
  send_all, report_none, broadcast, ReadAnswer, received, closed, failed, forget, read_client,
  read_slot, read_all, Events, after_poll, serve, serve_accepted, poll_round, cleanup, serve_loop,
}
use c_systems_programming.TcpServer.Cover.{
  IsCovered, store_client-IsCovered, after_poll-IsCovered, poll_round-IsCovered,
}
use c_systems_programming.TcpServer.Room.{
  places, members, members_from, joined, store_client-joined, forget-members, members-nfds,
  same-Perm, send_all-members, close_clients-members,
}

-- The descriptors that are closed.
abbrev pub closes : List Call → List ℕ
closes [] = []
closes (close d ∷ calls) = d ∷ closes calls
closes (write d text ∷ calls) = closes calls
closes (print text ∷ calls) = closes calls
closes (print_garbage ∷ calls) = closes calls

pub closes-append : (xs ys : List Call) → closes (xs ++ ys) ≡ closes xs ++ closes ys
closes-append [] ys = refl
closes-append (close d ∷ xs) ys = ap (λ t. d ∷ t) (closes-append xs ys)
closes-append (write d text ∷ xs) ys = closes-append xs ys
closes-append (print text ∷ xs) ys = closes-append xs ys
closes-append (print_garbage ∷ xs) ys = closes-append xs ys

pub closes-map : (ds : List ℕ) → closes (map close ds) ≡ ds
closes-map [] = refl
closes-map (d ∷ ds) = ap (λ t. d ∷ t) (closes-map ds)

-- Who was in the room or has come is in it or has been closed.
abbrev pub Balanced : List ℕ → List Call → Server → Type 0
Balanced room calls s = Perm (closes calls ++ members s) room

-- One part of a round after another.
Balanced-append :
    (room : List ℕ) (calls more : List Call) (s' s'' : Server)
    → Balanced room calls s'
    → Balanced (members s') more s''
    → Balanced room (calls ++ more) s''
Balanced-append room calls more s' s'' h k =
    Perm.trans
      (same-Perm (
        ap (λ t. t ++ members s'') (closes-append calls more)
        ∙ append_assoc (closes calls) (closes more) (members s'')))
      (Perm.trans (Perm.append_left (closes calls) k) h)

read_client-Balanced :
    (s : Server) (i client : ℕ) (a : ReadAnswer)
    → 2 ≤ i
    → i < max_clients + 1
    → s.fd i ≡ some client
    → Balanced (members s) (read_client s i client a).1 (read_client s i client a).0
unfolding read_client forget
read_client-Balanced s i client (received text) h l e = Perm.refl (members s)
read_client-Balanced s i client closed h l e =
    forget-members s.fd client places 2 i h (omega (arith, l)) e
read_client-Balanced s i client failed h l e =
    forget-members s.fd client places 2 i h (omega (arith, l)) e

read_slot-Balanced :
    (s : Server) (i : ℕ) (o : Option ℕ) (a : ReadAnswer)
    → 2 ≤ i
    → i < max_clients + 1
    → s.fd i ≡ o
    → Balanced (members s) (read_slot s i o a).1 (read_slot s i o a).0
unfolding read_slot
read_slot-Balanced s i none a h l e = Perm.refl (members s)
read_slot-Balanced s i (some client) a h l e =
    if_elim (λ (r : Server × List Call). Balanced (members s) r.1 r.0) (s.ready i)
      (λ k. read_client-Balanced s i client a h l e) (λ k. Perm.refl (members s))

read_all-Balanced :
    (answers : ℕ → ReadAnswer) (rounds i : ℕ) (s : Server)
    → 2 ≤ i
    → i + rounds ≤ max_clients + 1
    → Balanced (members s) (read_all answers rounds i s).1 (read_all answers rounds i s).0
unfolding read_all
read_all-Balanced answers zero i s h l = Perm.refl (members s)
read_all-Balanced answers (suc rounds) i s h l =
    let r = read_slot s i (s.fd i) (answers i) in
    Balanced-append (members s) r.1 (read_all answers rounds (i + 1) r.0).1 r.0
      (read_all answers rounds (i + 1) r.0).0
      (read_slot-Balanced s i (s.fd i) (answers i) h (omega (arith, l)) refl)
      (read_all-Balanced answers rounds (i + 1) r.0 (omega (arith, h)) (omega (arith, l)))

-- A broadcast closes nothing.
closes-writes : (text : Text) (ds : List ℕ) → closes (map (λ d. write d text) ds) ≡ []
closes-writes text [] = refl
closes-writes text (d ∷ ds) = closes-writes text ds

closes-report_none : (calls : List Call) → closes (report_none calls) ≡ closes calls
unfolding report_none
closes-report_none [] = refl
closes-report_none (x ∷ xs) = refl

closes-broadcast : (s : Server) (o : Option Text) → closes (broadcast s o) ≡ []
unfolding broadcast
closes-broadcast s none = refl
closes-broadcast s (some text) =
    closes-report_none (send_all s text (s.nfds - 2) 2)
    ∙ ap closes (send_all-members s text (s.nfds - 2) 2)
    ∙ closes-writes text (members_from s.fd (s.nfds - 2) 2)

pub serve-Balanced :
    (s : Server) (e : Events) → IsCovered s → Balanced (members s) (serve s e).1 (serve s e).0
unfolding serve
serve-Balanced s e v =
    let sent = if e.reported && s.ready 1 then broadcast s e.stdin_answer else [] in
    let r = read_all e.read_answers (s.nfds - 2) 2 s in
    let quiet : closes sent ≡ [] =
      if_elim (λ calls. closes calls ≡ []) (e.reported && s.ready 1)
        (λ k. closes-broadcast s e.stdin_answer) (λ k. refl) in
    Balanced-append (members s) sent r.1 s r.0 (same-Perm (ap (λ t. t ++ members s) quiet)) (
      read_all-Balanced e.read_answers (s.nfds - 2) 2 s (omega arith)
        (omega (arith, v.nfds_min, v.nfds_max)))
