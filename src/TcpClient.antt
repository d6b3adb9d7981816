-- ===== src/TcpClient.antt =====
-- projects/networking/tcp-suite/client.c: the chat client. The answers of the kernel are inputs.
pub mod Relay
pub mod Chat
mod Tests
use c_systems_programming.Common.{
  ℕ, List, [], ◌∷◌, ◌++◌, Bool, true, false, ◌&&◌, Option, some, none, Text, if◌then◌else◌,
  next_step,
}

-- What the process does: `print` is standard output, `report` a message on standard error.
pub data Call : Type 0 where
  close : ℕ → Call
  write : ℕ → Text → Call
  print : Text → Call
  report : Call

-- A round of `readaw`: whether `poll` reported events, which of the two descriptors are ready, and
-- what their reads give; `none` is the end of the input or an error.
pub record Events : Type 0 where
  pub reported : Bool
  pub server_ready : Bool
  pub stdin_ready : Bool
  pub server_answer : Option Text
  pub stdin_answer : Option Text

-- The two halves of a round, each with whether the loop goes on.
pub from_server : Bool → Option Text → List Call × Bool
from_server false answer = ([], true)
from_server true none = (report ∷ [], false)
from_server true (some text) = (print text ∷ [], true)

pub from_stdin : Bool → Option Text → ℕ → List Call × Bool
from_stdin false answer socket_fd = ([], true)
from_stdin true none socket_fd = (report ∷ [], false)
from_stdin true (some text) socket_fd = (write socket_fd text ∷ [], true)

pub client_round : ℕ → Events → List Call × Bool
unfolding from_server from_stdin
client_round socket_fd e =
    next_step (from_server (e.reported && e.server_ready) e.server_answer)
      (from_stdin (e.reported && e.stdin_ready) e.stdin_answer socket_fd)

-- `readaw`, over the rounds that the environment gives, with whether it still runs.
pub readaw : ℕ → List Events → List Call × Bool
unfolding client_round
readaw socket_fd [] = ([], true)
readaw socket_fd (e ∷ es) = next_step (client_round socket_fd e) (readaw socket_fd es)

-- How `main` goes: the arguments are wrong, a call fails, or the client is connected.
pub data Setup : Type 0 where
  no_socket : Setup
  no_connect connected : ℕ → Setup

-- The label `cleanup`, where `readaw` returned.
abbrev pub finish : ℕ → List Call × Bool → List Call × Option ℕ
finish socket_fd (calls, true) = (calls, none)
finish socket_fd (calls, false) = (calls ++ (close socket_fd ∷ []), some 0)

-- `main` after the test of the arguments; the exit status is `none` while the loop runs.
pub client_main : List Text → Setup → List Events → List Call × Option ℕ
unfolding readaw
client_main (ip ∷ (port ∷ [])) no_socket events = (report ∷ [], some 1)
client_main (ip ∷ (port ∷ [])) (no_connect socket_fd) events =
    (report ∷ close socket_fd ∷ [], some 0)
client_main (ip ∷ (port ∷ [])) (connected socket_fd) events =
    finish socket_fd (readaw socket_fd events)
client_main args setup events = (report ∷ [], some 1)
