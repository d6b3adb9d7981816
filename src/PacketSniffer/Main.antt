-- ===== src/PacketSniffer/Main.antt =====
-- `main` of projects/networking/packet-sniffer/main.c: the interfaces, the capture, and the clean-up.
use c_systems_programming.Common.{
  ℕ, ◌≡◌, refl, List, [], ◌∷◌, ◌==◌, arith, append-nil, Bool, true, false, Option, some, none, Text,
  if_elim, if◌then◌else◌,
}
use c_systems_programming.PacketSniffer.{pcap_header, Round, Progress, cleanup, capture_loop}
use c_systems_programming.PacketSniffer.Promisc.{
  Interfaces, chosen, set_all, unset_all, unset_all-set_all,
}
use c_systems_programming.PacketSniffer.Rounds.{IsReadable, file_of, capture_loop-IsReadable}

-- What the calls of `main` give: `socket`, `if_nameindex`, the two ioctl for each interface when it is
-- set and when it is unset, `fopen`, the clock, and the rounds. `fwrite`, `fflush` and `strdup` succeed.
pub record World : Type 0 where
  pub socket : Option ℕ
  pub names : Option (List Text)
  pub succeeds : ℕ → Bool
  pub restores : ℕ → Bool
  pub file_ok : Bool
  pub start_time : ℕ
  pub rounds : List Round

-- How a run ends: its exit status, the file that it has written, which interfaces are promiscuous, and
-- the sockets that are open.
pub record Outcome : Type 0 where
  pub status : ℕ
  pub file : Option (List ℕ)
  pub flags : Text → Bool
  pub sockets : List ℕ

-- `close` of a socket, on the sockets that are open.
abbrev pub close_fd : ℕ → List ℕ → List ℕ
close_fd fd [] = []
close_fd fd (d ∷ ds) = if d == fd then ds else d ∷ close_fd fd ds

-- The interfaces to set; `none` is a failure of `if_nameindex`, which is called without arguments
-- only.
abbrev pub to_set : List Text → Option (List Text) → Option (List Text)
to_set [] none = none
to_set [] (some names) = some (chosen [] names)
to_set (arg ∷ args) names = some (chosen (arg ∷ args) [])

-- From `fopen` to the label `cleanup`.
pub capture : List Text → World → Progress
capture args w =
    if w.file_ok
    then capture_loop args (record { start_time = w.start_time; file = pcap_header }) w.rounds
    else cleanup none

-- The rest of `main`, from the interfaces that were set; `none` is a write behind the array.
pub capture_set : List Text → World → ℕ → Option Interfaces → Option Outcome
unfolding capture
capture_set args w socket_fd none = none
capture_set args w socket_fd (some s) = some (record {
  status = 0;
  file = file_of (capture args w);
  flags = unset_all w.restores s.promisc s.flags;
  sockets = close_fd socket_fd (socket_fd ∷ []);
})

-- `main` behind its `socket`, from that descriptor and the interfaces to set.
pub sniff : List Text → World → (Text → Bool) → ℕ → Option (List Text) → Option Outcome
unfolding capture_set
sniff args w flags socket_fd none = some (record {
  status = 1;
  file = none;
  flags = flags;
  sockets = close_fd socket_fd (socket_fd ∷ []);
})
sniff args w flags socket_fd (some names) =
    capture_set args w socket_fd (set_all w.succeeds names (record { flags = flags; promisc = [] }))

pub sniff_on : List Text → World → (Text → Bool) → Option ℕ → Option Outcome
unfolding sniff
sniff_on args w flags none = some (record { status = 1; file = none; flags = flags; sockets = [] })
sniff_on args w flags (some socket_fd) = sniff args w flags socket_fd (to_set args w.names)

pub sniffer_main : List Text → World → (Text → Bool) → Option Outcome
unfolding sniff_on
sniffer_main args w flags = sniff_on args w flags w.socket

-- A run has put back what it changed, and what it has written is a capture.
abbrev pub Restored : (Text → Bool) → Text → Option Outcome → Type 0
Restored flags k none = Unit
Restored flags k (some r) =
    (flags k ≡ false → r.flags k ≡ false) × IsReadable r.file × (r.sockets ≡ [])

capture-IsReadable : (args : List Text) (w : World) → IsReadable (file_of (capture args w))
unfolding capture
capture-IsReadable args w =
    if_elim (λ p. IsReadable (file_of p)) w.file_ok
      (λ h.
        capture_loop-IsReadable args (record { start_time = w.start_time; file = pcap_header })
          w.rounds [] (append-nil pcap_header, tt))
      (λ h. tt)

capture_set-Restored :
    (args list names : List Text) (w : World) (flags : Text → Bool) (k : Text) (socket_fd : ℕ)
    (o : Option Interfaces)
    → set_all w.succeeds (chosen list names) (record { flags = flags; promisc = [] }) ≡ o
    → ((i : ℕ) → w.restores i ≡ true)
    → Restored flags k (capture_set args w socket_fd o)
unfolding capture_set
capture_set-Restored args list names w flags k socket_fd none e ok = tt
capture_set-Restored args list names w flags k socket_fd (some s) e ok = (
  λ off. unset_all-set_all w.succeeds w.restores list names flags s k e ok off,
  capture-IsReadable args w,
  ground arith,
)

sniff-Restored :
    (args : List Text) (w : World) (flags : Text → Bool) (k : Text) (socket_fd : ℕ)
    (names : Option (List Text))
    → ((i : ℕ) → w.restores i ≡ true)
    → Restored flags k (sniff args w flags socket_fd (to_set args names))
unfolding sniff
sniff-Restored [] w flags k socket_fd none ok = (λ off. off, tt, ground arith)
sniff-Restored [] w flags k socket_fd (some names) ok =
    capture_set-Restored [] [] names w flags k socket_fd
      (set_all w.succeeds (chosen [] names) (record { flags = flags; promisc = [] })) refl ok
sniff-Restored (arg ∷ args) w flags k socket_fd names ok =
    capture_set-Restored (arg ∷ args) (arg ∷ args) [] w flags k socket_fd
      (set_all w.succeeds (arg ∷ args) (record { flags = flags; promisc = [] })) refl ok

sniff_on-Restored :
    (args : List Text) (w : World) (flags : Text → Bool) (k : Text) (socket : Option ℕ)
    → ((i : ℕ) → w.restores i ≡ true)
    → Restored flags k (sniff_on args w flags socket)
unfolding sniff_on
sniff_on-Restored args w flags k none ok = (λ off. off, tt, refl)
sniff_on-Restored args w flags k (some socket_fd) ok =
    sniff-Restored args w flags k socket_fd w.names ok

-- Whichever calls of socket, if_nameindex, fopen and recvfrom, and of the ioctl that set an interface,
-- fail, while those that unset one succeed, and fwrite, fflush and strdup do: if the run does not write
-- behind its array of interfaces, no interface that was not promiscuous before is left so, the file
-- that it has open at the end, if any, is one that the reader takes, and no socket is open.
pub sniffer_main-Restored :
    (args : List Text) (w : World) (flags : Text → Bool) (k : Text)
    → ((i : ℕ) → w.restores i ≡ true)
    → Restored flags k (sniffer_main args w flags)
unfolding sniffer_main
sniffer_main-Restored args w flags k ok = sniff_on-Restored args w flags k w.socket ok
