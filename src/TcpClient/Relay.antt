-- ===== src/TcpClient/Relay.antt =====
-- What the client of projects/networking/tcp-suite passes on in each direction.
use c_systems_programming.Common.{
  ℕ, ◌≡◌, refl, sym, List, [], ◌∷◌, ◌++◌, append-nil, Bool, true, false, ◌&&◌, Option, some, none,
  Text, gathered, Passes, next_step-Passes,
}
use c_systems_programming.TcpClient.{
  Call, close, write, print, report, Events, from_server, from_stdin, client_round, readaw,
  connected, finish, client_main,
}

-- The texts that are printed, and those that are written to the server.
abbrev prints : Call → List Text
prints (print text) = text ∷ []
prints (write d text) = []
prints (close d) = []
prints report = []

abbrev writes : Call → List Text
writes (write d text) = text ∷ []
writes (print text) = []
writes (close d) = []
writes report = []

abbrev pub printed : List Call → List Text
printed = gathered prints

abbrev pub written : List Call → List Text
written = gathered writes

-- The texts that one direction gives in a round.
abbrev pub given : Bool → Option Text → List Text
given false answer = []
given true none = []
given true (some text) = text ∷ []

abbrev pub received : List Events → List Text
received [] = []
received (e ∷ es) = given (e.reported && e.server_ready) e.server_answer ++ received es

abbrev pub typed : List Events → List Text
typed [] = []
typed (e ∷ es) = given (e.reported && e.stdin_ready) e.stdin_answer ++ typed es

from_server-Passes :
    (b : Bool) (o : Option Text) → Passes prints writes (given b o) [] (from_server b o)
unfolding from_server
from_server-Passes false o = (refl, refl)
from_server-Passes true none = tt
from_server-Passes true (some text) = (refl, refl)

from_stdin-Passes :
    (socket_fd : ℕ) (b : Bool) (o : Option Text)
    → Passes prints writes [] (given b o) (from_stdin b o socket_fd)
unfolding from_stdin
from_stdin-Passes socket_fd false o = (refl, refl)
from_stdin-Passes socket_fd true none = tt
from_stdin-Passes socket_fd true (some text) = (refl, refl)

readaw-Passes :
    (socket_fd : ℕ) (events : List Events)
    → Passes prints writes (received events) (typed events) (readaw socket_fd events)
unfolding readaw client_round
readaw-Passes socket_fd [] = (refl, refl)
readaw-Passes socket_fd (e ∷ es) =
    next_step-Passes prints writes (given first e.server_answer) (given second e.stdin_answer)
      (received es) (typed es) (client_round socket_fd e) (readaw socket_fd es)
      (rw (sym (append-nil (given first e.server_answer))) (
        next_step-Passes prints writes (given first e.server_answer) [] []
          (given second e.stdin_answer) (from_server first e.server_answer)
          (from_stdin second e.stdin_answer socket_fd) (from_server-Passes first e.server_answer)
          (from_stdin-Passes socket_fd second e.stdin_answer)))
      (readaw-Passes socket_fd es)
  where
    first : Bool
    first = e.reported && e.server_ready

    second : Bool
    second = e.reported && e.stdin_ready

-- A connected client that runs has passed everything on, and one that has ended has closed its socket.
abbrev pub Relays : List Events → ℕ → List Call × Option ℕ → Type 0
Relays events socket_fd (calls, none) =
    (printed calls ≡ received events) × (written calls ≡ typed events)
Relays events socket_fd (calls, some status) =
    (status ≡ 0) × (before : List Call) × (calls ≡ before ++ (close socket_fd ∷ []))

finish-Relays :
    (events : List Events) (socket_fd : ℕ) (r : List Call × Bool)
    → Passes prints writes (received events) (typed events) r
    → Relays events socket_fd (finish socket_fd r)
finish-Relays events socket_fd (calls, true) h = h
finish-Relays events socket_fd (calls, false) h = (refl, calls, refl)

-- While a connected client runs, it has printed exactly the texts that it received and written exactly
-- the texts that were typed, in their order. When it ends, its last call closes the socket, and the
-- exit status is 0, also after an error.
pub client_main-Relays :
    (ip port : Text) (socket_fd : ℕ) (events : List Events)
    → Relays events socket_fd (client_main (ip ∷ port ∷ []) (connected socket_fd) events)
unfolding client_main
client_main-Relays ip port socket_fd events =
    finish-Relays events socket_fd (readaw socket_fd events) (readaw-Passes socket_fd events)
