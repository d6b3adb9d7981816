-- ===== src/TcpServer/Heard.antt =====
-- What the server of projects/networking/tcp-suite prints of what a client sends.
use mathlib.Core.List.{Sublist, nil-sublist, sublist-append_left}
use mathlib.Core.List.Sublist
use mathlib.Core.Path.{subst}
use c_systems_programming.Common.{
  ℕ, zero, suc, ◌+◌, ◌-◌, ◌≤◌, ◌<◌, ◌≡◌, ◌≢◌, refl, sym, ap, ◌∙◌, inl, inr, List, [], ◌∷◌, ◌++◌,
  append_assoc, Bool, true, not, Option, some, none, Text, codes, ◌&&◌, ◌==◌, ==_iff, if◌then◌else◌,
  arith, All, Bool-cases, if_elim,
}
use c_systems_programming.TcpServer.{
  Server, max_clients, is_some, Call, close, write, print, print_garbage, store_client,
  accept_client, broadcast, ReadAnswer, received, closed, failed, forget, read_client, read_slot,
  read_all, Events, after_poll, serve, serve_accepted, poll_round, serve_loop,
}
use c_systems_programming.TcpServer.Delivery.{IsConnected}
use c_systems_programming.TcpServer.Delivery.Keeps.{
  is_received, read_slot-IsConnected, store_client-IsConnected,
}
use c_systems_programming.TcpServer.Delivery.Rounds.{
  Stays, store_client-ready, after_poll-IsConnected, after_poll-ready, poll_round-Gives,
}

-- The bytes that are printed on standard output.
abbrev pub printed : List Call → Text
printed [] = []
printed (print text ∷ calls) = text ++ printed calls
printed (write d text ∷ calls) = printed calls
printed (close d ∷ calls) = printed calls
printed (print_garbage ∷ calls) = printed calls

printed-append : (xs ys : List Call) → printed (xs ++ ys) ≡ printed xs ++ printed ys
printed-append [] ys = refl
printed-append (print text ∷ xs) ys =
    ap (λ t. text ++ t) (printed-append xs ys) ∙ sym (append_assoc text (printed xs) (printed ys))
printed-append (write d text ∷ xs) ys = printed-append xs ys
printed-append (close d ∷ xs) ys = printed-append xs ys
printed-append (print_garbage ∷ xs) ys = printed-append xs ys

-- What a read gives.
abbrev pub said : ReadAnswer → Text
said (received text) = text
said closed = []
said failed = []

-- Among other output, some bytes are printed in their order.
abbrev pub Prints : Text → List Call → Type 0
Prints text calls = Sublist text (printed calls)

Prints-append :
    (a b : Text) (xs ys : List Call) → Prints a xs → Prints b ys → Prints (a ++ b) (xs ++ ys)
Prints-append a b xs ys h k = rw (printed-append xs ys) (Sublist.append h k)

Prints-later : (b : Text) (xs ys : List Call) → Prints b ys → Prints b (xs ++ ys)
Prints-later b xs ys h = Prints-append [] b xs ys (nil-sublist (printed xs)) h

Prints-first : (a : Text) (xs ys : List Call) → Prints a xs → Prints a (xs ++ ys)
Prints-first a xs ys h =
    rw (printed-append xs ys) (Sublist.trans h (sublist-append_left (printed xs) (printed ys)))

read_slot-Prints :
    (s : Server) (i c : ℕ) (a : ReadAnswer)
    → is_received a ≡ true
    → Prints (if s.ready i then said a else []) (read_slot s i (some c) a).1
unfolding read_slot read_client
read_slot-Prints s i c (received text) h = elim (Bool-cases (s.ready i)) [
  | inl e ↦ rw e (sublist-append_left text [])
  | inr e ↦ rw e (nil-sublist [])
]
read_slot-Prints s i c closed h = cc
read_slot-Prints s i c failed h = cc

read_slot-ready :
    (s : Server) (j : ℕ) (o : Option ℕ) (a : ReadAnswer) → (read_slot s j o a).0.ready ≡ s.ready
unfolding read_slot read_client forget
read_slot-ready s j none a = refl
read_slot-ready s j (some d) (received text) = ground arith
read_slot-ready s j (some d) closed = ground arith
read_slot-ready s j (some d) failed = ground arith

-- The loop over the clients prints what the client in slot `i` has sent.
read_all-Prints :
    (answers : ℕ → ReadAnswer) (i c rounds lo : ℕ) (s : Server)
    → is_received (answers i) ≡ true
    → IsConnected s i c
    → lo ≤ i
    → i < lo + rounds
    → Prints (if s.ready i then said (answers i) else []) (read_all answers rounds lo s).1
unfolding read_all
read_all-Prints answers i c zero lo s h v l m = absurd (omega (arith, l, m))
read_all-Prints answers i c (suc rounds) lo s h v l m =
    let slot = read_slot s lo (s.fd lo) (answers lo) in
    let later = (read_all answers rounds (lo + 1) slot.0).1 in
    elim (Bool-cases (lo == i)) [
      | inl e ↦
          let here : lo ≡ i = (==_iff lo i).0 e in
          Prints-first _ slot.1 later (
            subst
              (λ k.
                Prints (if s.ready i then said (answers i) else [])
                  (read_slot s k (s.fd k) (answers k)).1)
              (sym here) (rw (v.holds) (read_slot-Prints s i c (answers i) h)))
      | inr e ↦
          let apart : lo ≢ i = λ q. cc (e, (==_iff lo i).1 q) in
          Prints-later _ slot.1 later (
            subst (λ (r : ℕ → Bool). Prints (if r i then said (answers i) else []) later)
              (read_slot-ready s lo (s.fd lo) (answers lo))
              (read_all-Prints answers i c rounds (lo + 1) slot.0 h
                (read_slot-IsConnected s i c lo (s.fd lo) (answers lo) (λ q. absurd (apart q)) v)
                (omega (arith, l, apart)) (omega (arith, m))))
    ]

serve-Prints :
    (s : Server) (i c : ℕ) (e : Events)
    → is_received (e.read_answers i) ≡ true
    → IsConnected s i c
    → Prints (if s.ready i then said (e.read_answers i) else []) (serve s e).1
unfolding serve
serve-Prints s i c e h v =
    Prints-later _ (if e.reported && s.ready 1 then broadcast s e.stdin_answer else [])
      (read_all e.read_answers (s.nfds - 2) 2 s).1
      (read_all-Prints e.read_answers i c (s.nfds - 2) 2 s h v v.slot
        (omega (arith, v.covered.nfds_min, v.covered.inside i (λ q. cc (q, v.holds)))))

-- What the client in slot `i` has sent in a round: nothing if a refused `accept` ended it.
abbrev pub told : ℕ → Events → Text
told i e =
    if e.reported && (e.revents 0 && not (is_some e.accept_answer))
    then []
    else if e.revents i
    then said (e.read_answers i)
    else []

abbrev pub told_all : ℕ → List Events → Text
told_all i [] = []
told_all i (e ∷ es) = told i e ++ told_all i es

accepted-Prints :
    (s : Server) (i c : ℕ) (e : Events) (o : Option (ℕ × Text))
    → e.accept_answer ≡ o
    → Stays i c e
    → IsConnected s i c
    → Prints
        (if not (is_some o) then [] else if s.ready i then said (e.read_answers i) else [])
        (serve_accepted s e (accept_client s o)).1
unfolding serve_accepted accept_client
accepted-Prints s i c e none q st v = nil-sublist []
accepted-Prints s i c e (some (client, ip)) q st v =
    let ne : client ≢ c = λ k. st.fresh ip (q ∙ ap (λ d. some (d, ip)) k) in
    let s' = store_client s client (max_clients - 1) 2 in
    let stored =
      store_client-IsConnected s i c client (max_clients - 1) 2 ne (omega arith) (omega arith) v in
    let hello = print (codes "\n[client connected: " ++ (ip ++ codes "]\n")) ∷ [] in
    Prints-later _ hello (serve s' e).1 (
      subst (λ (r : ℕ → Bool). Prints (if r i then said (e.read_answers i) else []) (serve s' e).1)
        (store_client-ready s client (max_clients - 1) 2) (serve-Prints s' i c e st.sends stored))

poll_round-Prints :
    (s : Server) (i c : ℕ) (e : Events)
    → Stays i c e
    → IsConnected s i c
    → Prints (told i e) (poll_round s e).1
unfolding poll_round
poll_round-Prints s i c e st v =
    let p = after_poll s e in
    let polled = after_poll-IsConnected s i c e v in
    let first : (after_poll s e).ready 0 ≡ e.revents 0 =
      after_poll-ready s e 0 (omega (arith, v.covered.nfds_min)) in
    let mine : (after_poll s e).ready i ≡ e.revents i =
      after_poll-ready s e i (v.covered.inside i (λ q. cc (q, v.holds))) in
    if_elim (λ (r : Server × List Call × Bool). Prints (told i e) r.1)
      (e.reported && (after_poll s e).ready 0)
      (λ k.
        subst (λ text. Prints text (serve_accepted p e (accept_client p e.accept_answer)).1)
          (ground (arith, k, first, mine)) (accepted-Prints p i c e e.accept_answer refl st polled))
      (λ k.
        subst (λ text. Prints text (serve p e).1) (ground (arith, k, first, mine))
          (serve-Prints p i c e st.sends polled))

-- While a client stays connected and `poll` does not fail, the bytes that it sends, as the server
-- reads them, are all printed, in their order, among what others say, whoever else comes and goes.
pub serve_loop-Prints :
    (s : Server) (socket_fd i c : ℕ) (events : List Events)
    → IsConnected s i c
    → All (Stays i c) events
    → Prints (told_all i events) (serve_loop s socket_fd events).1
unfolding serve_loop
serve_loop-Prints s socket_fd i c [] v st = nil-sublist []
serve_loop-Prints s socket_fd i c (e ∷ es) v st =
    let (w, t, g) = poll_round-Gives s i c e st.0 v in
    rw g (
      Prints-append (told i e) (told_all i es) (poll_round s e).1
        (serve_loop (poll_round s e).0 socket_fd es).1 (poll_round-Prints s i c e st.0 v)
        (serve_loop-Prints (poll_round s e).0 socket_fd i c es w st.1))
