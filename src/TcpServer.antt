-- ===== src/TcpServer.antt =====
-- projects/networking/tcp-suite/server.c: the poll loop of the plain chat server. The answers of the
-- kernel are inputs; `none` in a slot is the descriptor -1.
pub mod Cover
pub mod Clean
pub mod Delivery
pub mod Heard
pub mod Room
pub mod Main
mod Tests
use c_systems_programming.Common.{
  ℕ, zero, suc, ◌+◌, ◌-◌, ◌≤◌, ◌<◌, ◌≡◌, List, [], ◌∷◌, ◌++◌, Bool, true, false, Option, some, none,
  Text, codes, ltb, leb, ◌==◌, not, ◌&&◌, if◌then◌else◌,
}

-- MAX_CLIENTS; the loops over the slots run from 2 up to and including it.
abbrev pub max_clients : ℕ
max_clients = 100

-- The locals of `main`: `pollt[i].fd`, `pollt[i].revents & POLLIN` and `nfds`.
pub record Server : Type 0 where
  pub fd : ℕ → Option ℕ
  pub ready : ℕ → Bool
  pub nfds : ℕ

abbrev pub update {ℓ} : {A : Type ℓ} → (ℕ → A) → ℕ → A → ℕ → A
update f i v j = if j == i then v else f j

abbrev pub is_some {ℓ} : {A : Type ℓ} → Option A → Bool
is_some none = false
is_some (some a) = true

-- What the process does; `print` is standard output, and `print_garbage` an `fwrite` whose size is
-- the -1 of a failed `read`.
pub data Call : Type 0 where
  close : ℕ → Call
  write : ℕ → Text → Call
  print : Text → Call
  print_garbage : Call

-- The loop that stores a new client: the first slot of `rounds` slots from `i` on that is free.
pub store_client : Server → ℕ → ℕ → ℕ → Server
store_client s client zero i = s
store_client s client (suc rounds) i =
    let later = store_client s client rounds (i + 1) in
    if is_some (s.fd i) then later else record s {
      fd = update s.fd i (some client);
      nfds = if leb s.nfds i then i + 1 else s.nfds;
    }

-- Accepting: `none` is the `continue` after a failed `accept`. The message names the client.
pub accept_client : Server → Option (ℕ × Text) → Option (Server × List Call)
accept_client s none = none
accept_client s (some (client, ip)) = some (
  store_client s client (max_clients - 1) 2,
  print (codes "\n[client connected: " ++ (ip ++ codes "]\n")) ∷ [],
)

-- A call that is made if the slot holds a descriptor.
abbrev pub on_client : Option ℕ → (ℕ → Call) → List Call
on_client none call = []
on_client (some client) call = call client ∷ []

-- The loop that sends a text to the clients; the count of sends decides the message.
pub send_all : Server → Text → ℕ → ℕ → List Call
send_all s text zero i = []
send_all s text (suc rounds) i =
    on_client (s.fd i) (λ client. write client text) ++ send_all s text rounds (i + 1)

pub report_none : List Call → List Call
report_none [] = print (codes "\n[no clients connected]\n") ∷ []
report_none (c ∷ calls) = c ∷ calls

-- Reading stdin: at the end of the input or on an error nothing is sent.
pub broadcast : Server → Option Text → List Call
broadcast s none = []
broadcast s (some text) = report_none (send_all s text (s.nfds - 2) 2)

-- The result of reading a client: bytes, the end of the stream, or an error.
pub data ReadAnswer : Type 0 where
  received : Text → ReadAnswer
  closed failed : ReadAnswer

pub forget : Server → ℕ → Server
forget s i = record s { fd = update s.fd i none }

pub read_client : Server → ℕ → ℕ → ReadAnswer → Server × List Call
read_client s i client (received text) = (s, print text ∷ [])
read_client s i client closed =
    (forget s i, print (codes "\n[client disconnected]\n") ∷ close client ∷ print [] ∷ [])
read_client s i client failed = (forget s i, close client ∷ print_garbage ∷ [])

pub read_slot : Server → ℕ → Option ℕ → ReadAnswer → Server × List Call
read_slot s i none answer = (s, [])
read_slot s i (some client) answer = if s.ready i then read_client s i client answer else (s, [])

-- The loop over the clients.
pub read_all : (ℕ → ReadAnswer) → ℕ → ℕ → Server → Server × List Call
read_all answers zero i s = (s, [])
read_all answers (suc rounds) i s =
    let (s', calls) = read_slot s i (s.fd i) (answers i) in
    let (s'', more) = read_all answers rounds (i + 1) s' in (s'', calls ++ more)

-- What happens in one round; `poll_failed` is the result -1.
pub record Events : Type 0 where
  pub reported : Bool
  pub poll_failed : Bool
  pub revents : ℕ → Bool
  pub accept_answer : Option (ℕ × Text)
  pub stdin_answer : Option Text
  pub read_answers : ℕ → ReadAnswer

pub after_poll : Server → Events → Server
after_poll s e = record s { ready = λ i. if ltb i s.nfds then e.revents i else s.ready i }

-- A round after the part that accepts, with whether the loop goes on.
pub serve : Server → Events → Server × List Call × Bool
serve s e =
    let sent = if e.reported && s.ready 1 then broadcast s e.stdin_answer else [] in
    let (s', calls) = read_all e.read_answers (s.nfds - 2) 2 s in
    (s', sent ++ calls, not e.poll_failed)

pub serve_accepted : Server → Events → Option (Server × List Call) → Server × List Call × Bool
serve_accepted s e none = (s, [], true)
serve_accepted s e (some (s', calls)) =
    let (s'', more, goes_on) = serve s' e in (s'', calls ++ more, goes_on)

-- One round of the loop of `main`.
pub poll_round : Server → Events → Server × List Call × Bool
poll_round s e =
    let p = after_poll s e in
    if e.reported && p.ready 0
    then serve_accepted p e (accept_client p e.accept_answer)
    else serve p e

-- The label `cleanup`: the listening socket, then the clients.
pub close_clients : Server → ℕ → ℕ → List Call
close_clients s zero i = []
close_clients s (suc rounds) i = on_client (s.fd i) close ++ close_clients s rounds (i + 1)

pub cleanup : Server → ℕ → List Call
cleanup s socket_fd = close socket_fd ∷ close_clients s (s.nfds - 2) 2

-- The loop, over the rounds that the environment gives.
pub serve_loop : Server → ℕ → List Events → Server × List Call
serve_loop s socket_fd [] = (s, [])
serve_loop s socket_fd (e ∷ es) =
    let (s', calls, goes_on) = poll_round s e in
    let (s'', more) = serve_loop s' socket_fd es in
    if goes_on then (s'', calls ++ more) else (s', calls ++ cleanup s' socket_fd)

-- The state before the loop; slots 0 and 1 are the listening socket and stdin. The code does not
-- initialise `revents` of the other slots, so `ready` is arbitrary.
pub initial : ℕ → (ℕ → Bool) → Server
initial socket_fd stale = record {
  fd = λ i. if i == 0 then some socket_fd else if i == 1 then some 0 else none;
  ready = λ i. leb 2 i && stale i;
  nfds = 2;
}
