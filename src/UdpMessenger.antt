-- ===== src/UdpMessenger.antt =====
-- projects/networking/udp-messenger/main.c: a message, sent ten times. The results of `write` are
-- inputs.
mod Tests
use c_systems_programming.Common.{
  ℕ, zero, suc, ◌+◌, ◌<◌, ◌≤◌, ◌≡◌, refl, sym, ap, ◌∙◌, List, [], ◌∷◌, ◌++◌, length, Bool-cases,
  inl, inr, Bool, true, false, not, ◌&&◌, Option, some, none, Text, codes, ℤ, atoi, leb, min, ◌==◌,
  if◌then◌else◌, arith,
}

-- NUMBER
abbrev pub number : ℕ
number = 10

-- What the process does: `connects` with the address and the port of the arguments.
pub data Call : Type 0 where
  print : Text → Call
  report : Call
  connects : ℕ → Text → ℤ → Call
  write : ℕ → Text → Call
  close : ℕ → Call

abbrev pub closed_text : Text
closed_text = codes "Connection closed"

-- What `write` of the message gives in a round: a count, or `none` for -1.
abbrev pub is_sent : Option ℕ → Bool
is_sent none = false
is_sent (some zero) = false
is_sent (some (suc n)) = true

-- `sendf`, with the rounds that are left and the results of the writes of the message.
pub sendf : ℕ → Text → (ℕ → Option ℕ) → ℕ → ℕ → List Call
sendf socket_fd message written i zero = []
sendf socket_fd message written i (suc left) =
    let rest = sendf socket_fd message written (suc i) left in
    if is_sent (written i)
    then write socket_fd message ∷ write socket_fd (codes "\n") ∷ rest
    else write socket_fd message ∷ print closed_text ∷ []

-- How the calls of `main` before `sendf` go.
pub data Setup : Type 0 where
  no_socket : Setup
  no_connect connected : ℕ → Setup

-- `main`, with its exit status.
pub udp_main : List Text → Setup → (ℕ → Option ℕ) → List Call × ℕ
unfolding sendf
udp_main (name ∷ ip ∷ port ∷ message ∷ []) no_socket written = (report ∷ [], 1)
udp_main (name ∷ ip ∷ port ∷ message ∷ []) (no_connect socket_fd) written =
    (connects socket_fd ip (atoi port) ∷ report ∷ close socket_fd ∷ [], 1)
udp_main (name ∷ ip ∷ port ∷ message ∷ []) (connected socket_fd) written = (
  connects socket_fd ip (atoi port) ∷ sendf socket_fd message written 0 number
      ++ (close socket_fd ∷ []),
  0,
)
udp_main args setup written = (print (codes "Usage: ./main <IP> <PORT> <MESSAGE>") ∷ [], 1)

-- The rounds before the first write of the message that fails or sends nothing.
abbrev pub sent_rounds : (ℕ → Option ℕ) → ℕ → ℕ → ℕ
sent_rounds written i zero = 0
sent_rounds written i (suc left) =
    let rest = sent_rounds written (suc i) left in if is_sent (written i) then suc rest else 0

abbrev pub all_sent : (ℕ → Option ℕ) → ℕ → ℕ → Bool
all_sent written i zero = true
all_sent written i (suc left) = is_sent (written i) && all_sent written (suc i) left

-- So many messages, each with a newline of its own.
abbrev pub repeated : ℕ → Text → ℕ → List Call
repeated socket_fd message zero = []
repeated socket_fd message (suc n) =
    write socket_fd message ∷ write socket_fd (codes "\n") ∷ repeated socket_fd message n

-- The failed write, where not all of the rounds were sent.
abbrev pub given_up : ℕ → Text → Bool → List Call
given_up socket_fd message true = []
given_up socket_fd message false = write socket_fd message ∷ print closed_text ∷ []

sendf_lem :
    (socket_fd : ℕ) (message : Text) (written : ℕ → Option ℕ) (i left : ℕ)
    → sendf socket_fd message written i left
      ≡ repeated socket_fd message (sent_rounds written i left)
        ++ given_up socket_fd message (all_sent written i left)
unfolding sendf
sendf_lem socket_fd message written i zero = refl
sendf_lem socket_fd message written i (suc left) = elim (Bool-cases (is_sent (written i))) [
  | inl h ↦ rw h (
      ap (λ t. write socket_fd message ∷ write socket_fd (codes "\n") ∷ t)
        (sendf_lem socket_fd message written (suc i) left))
  | inr h ↦ rw h refl
]

-- With an address, a port and a message, a connected socket is sent the message and a newline, each in
-- a write of its own, ten times, or until a write of the message fails or sends nothing, as that of an
-- empty message does; then this is reported. In both cases the socket is closed and the status is 0.
pub udp_main_lem :
    (name ip port message : Text) (socket_fd : ℕ) (written : ℕ → Option ℕ)
    → udp_main (name ∷ ip ∷ port ∷ message ∷ []) (connected socket_fd) written ≡ (
      connects socket_fd ip (atoi port)
            ∷ (repeated socket_fd message (sent_rounds written 0 number)
                ++ given_up socket_fd message (all_sent written 0 number))
          ++ (close socket_fd ∷ []),
      0,
    )
unfolding udp_main
udp_main_lem name ip port message socket_fd written =
    ap (λ t. (connects socket_fd ip (atoi port) ∷ t ++ (close socket_fd ∷ []), 0))
      (sendf_lem socket_fd message written 0 number)
