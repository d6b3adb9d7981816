-- ===== src/TcpServer/Delivery.antt =====
-- What the server of projects/networking/tcp-suite writes to a client over many rounds, in order.
pub mod Keeps
pub mod Rounds
use native.Mathlib.Decide.{ℕ_discrete}
use c_systems_programming.Common.{
  ℕ, zero, suc, ◌+◌, ◌-◌, ◌≤◌, ◌<◌, ◌≡◌, ◌≢◌, refl, sym, ap, ap₂, ◌∙◌, inl, inr, List, [], ◌∷◌,
  ◌++◌, append-nil, append_assoc, Bool, true, false, not, Option, some, none, Text, ltb, leb, ◌==◌,
  ◌&&◌, if◌then◌else◌, arith, All, Bool-cases, Option-cases, if_elim,
}
use c_systems_programming.TcpServer.{
  Server, max_clients, update, is_some, Call, close, write, print, print_garbage, store_client,
  accept_client, on_client, send_all, report_none, broadcast, ReadAnswer, received, closed, failed,
  forget, read_client, read_slot, read_all, Events, after_poll, serve, serve_accepted, poll_round,
  serve_loop,
}
use c_systems_programming.TcpServer.Cover.{IsCovered}

-- The texts that are written to a descriptor, in order.
abbrev pub writes_to : ℕ → List Call → List Text
writes_to c [] = []
writes_to c (write d text ∷ calls) =
    let rest = writes_to c calls in if d == c then text ∷ rest else rest
writes_to c (close d ∷ calls) = writes_to c calls
writes_to c (print text ∷ calls) = writes_to c calls
writes_to c (print_garbage ∷ calls) = writes_to c calls

pub writes_to-append :
    (c : ℕ) (xs ys : List Call) → writes_to c (xs ++ ys) ≡ writes_to c xs ++ writes_to c ys
writes_to-append c [] ys = refl
writes_to-append c (write d text ∷ xs) ys = elim (Bool-cases (d == c)) [
  | inl same ↦ rw (same, writes_to-append c xs ys) refl
  | inr other ↦ rw (other, writes_to-append c xs ys) refl
]
writes_to-append c (close d ∷ xs) ys = writes_to-append c xs ys
writes_to-append c (print text ∷ xs) ys = writes_to-append c xs ys
writes_to-append c (print_garbage ∷ xs) ys = writes_to-append c xs ys

-- The client `c` stands in slot `i` and in no other.
pub record IsConnected (s : Server) (i c : ℕ) : Type 0 where
  pub covered : IsCovered s
  pub slot : 2 ≤ i
  pub holds : s.fd i ≡ some c
  pub alone : (j : ℕ) → 2 ≤ j → s.fd j ≡ some c → j ≡ i

send_all-writes :
    (s : Server) (text : Text) (i c rounds lo : ℕ)
    → 2 ≤ lo
    → IsConnected s i c
    → writes_to c (send_all s text rounds lo)
      ≡ (if leb lo i && ltb i (lo + rounds) then text ∷ [] else [])
unfolding send_all
send_all-writes s text i c zero lo h v = ground arith
send_all-writes s text i c (suc rounds) lo h v =
    let later = send_all-writes s text i c rounds (lo + 1) (omega (arith, h)) v in
    elim (Option-cases (s.fd lo)) [
      | inl free ↦
          let ne : lo ≢ i = λ q. cc (ap s.fd q, v.holds) in rw free (later ∙ ground (arith, ne))
      | inr (d, taken) ↦ elim (ℕ_discrete d c) [
        | yes same ↦
            let here : lo ≡ i = v.alone lo h (taken ∙ ap some same) in
            rw taken (ground (arith, same, here, later))
        | no other ↦
            let ne : lo ≢ i = λ q. other (cc (ap s.fd q, v.holds, taken)) in
            rw taken (ground (arith, other, ne, later))
      ]
    ]

report_none-writes :
    (c : ℕ) (calls : List Call) → writes_to c (report_none calls) ≡ writes_to c calls
unfolding report_none
report_none-writes c [] = refl
report_none-writes c (x ∷ xs) = refl

abbrev pub text_list : Option Text → List Text
text_list none = []
text_list (some text) = text ∷ []

pub broadcast-writes :
    (s : Server) (i c : ℕ) (o : Option Text)
    → IsConnected s i c
    → writes_to c (broadcast s o) ≡ text_list o
unfolding broadcast
broadcast-writes s i c none v = refl
broadcast-writes s i c (some text) v =
    report_none-writes c (send_all s text (s.nfds - 2) 2)
    ∙ send_all-writes s text i c (s.nfds - 2) 2 (omega arith) v
    ∙ ground (arith, v.slot, v.covered.inside i (λ q. cc (q, v.holds)), v.covered.nfds_min)

-- Reading the clients writes nothing.
read_slot-writes :
    (c : ℕ) (s : Server) (i : ℕ) (o : Option ℕ) (a : ReadAnswer)
    → writes_to c (read_slot s i o a).1 ≡ []
unfolding read_slot read_client
read_slot-writes c s i none a = refl
read_slot-writes c s i (some d) (received text) = ground arith
read_slot-writes c s i (some d) closed = ground arith
read_slot-writes c s i (some d) failed = ground arith

pub read_all-writes :
    (c : ℕ) (answers : ℕ → ReadAnswer) (rounds i : ℕ) (s : Server)
    → writes_to c (read_all answers rounds i s).1 ≡ []
unfolding read_all
read_all-writes c answers zero i s = refl
read_all-writes c answers (suc rounds) i s =
    writes_to-append c (read_slot s i (s.fd i) (answers i)).1
      (read_all answers rounds (i + 1) (read_slot s i (s.fd i) (answers i)).0).1
    ∙ ap₂ (λ a b. a ++ b) (read_slot-writes c s i (s.fd i) (answers i))
        (read_all-writes c answers rounds (i + 1) (read_slot s i (s.fd i) (answers i)).0)
