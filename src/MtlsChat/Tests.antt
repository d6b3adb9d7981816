-- ===== src/MtlsChat/Tests.antt =====
-- The chat server of projects/networking/mtls-chat at small states.
use c_systems_programming.Common.{
  sym, ap, gathered, bytes_of, ℕ, ◌≡◌, ◌≢◌, refl, [], ◌∷◌, true, false, some, none, Text, codes,
  ◌==◌, ◌||◌, if◌then◌else◌, arith,
}
use c_systems_programming.MtlsChat.Setup.{
  Answers, Promises, server_context, client_context, all_succeed, contexts-Promises,
}
use c_systems_programming.MtlsChat.Server.{
  Server, ssl_write, handshake_done, received, want_more, zero_return, monitor, broadcast,
  accept_client, Events, poll_loop, initial,
}
use c_systems_programming.MtlsChat.Client
use c_systems_programming.MtlsChat.Client.{connected, client}
use c_systems_programming.MtlsChat.Client.Relay.{Relays, client-Relays}
use c_systems_programming.MtlsChat.Client.Relay.{heard, printed}
use c_systems_programming.MtlsChat.Server.Delivery.{IsServed, writes_to}
use c_systems_programming.MtlsChat.Server.Delivery.Rounds.{IsSteady, all_typed, poll_loop-writes}
use c_systems_programming.MtlsChat.Chat.{mtls_chat_delivers}
use c_systems_programming.MtlsChat.Server.Accept.{Handled, accept_client-Handled}
use c_systems_programming.MtlsChat.Server.Safety.{IsSafe, initial-IsSafe}
use c_systems_programming.MtlsChat.Server.Rounds.{poll_loop-IsSafe}
use c_systems_programming.MtlsChat.Server.Lost.{Occurs, monitor_loses_last}

abbrev bad_key : Answers
bad_key = record {
  new = true;
  load_ca = true;
  use_certificate = true;
  use_key = true;
  check_key = false;
}

contexts-Promises_example :
    Promises (server_context bad_key) (all_succeed bad_key)
    × Promises (client_context bad_key) (all_succeed bad_key)
contexts-Promises_example = contexts-Promises bad_key

-- Clients in slots 2 and 3.
abbrev two : Server
two = record {
  fd = λ i. if i == 2 then some 7 else if i == 3 then some 8 else none;
  ready = λ i. false;
  ssl = λ i. if i == 2 then some 70 else if i == 3 then some 80 else none;
  nfds = 4;
  live = λ p. true;
}

two-IsSafe : IsSafe two
two-IsSafe = record {
  nfds_min = omega arith;
  nfds_max = omega arith;
  object = λ i h ne. slot i ne;
  apart = λ i j p h k ni nj ei ej. ground arith;
  in_range = λ i ne. ground arith;
}
  where
    slot : (i : ℕ) → two.fd i ≢ none → (p : ℕ) × (two.ssl i ≡ some p) × (true ≡ true)
    slot i ne = (if i == 2 then 70 else 80, ground arith, refl)

abbrev hello : Text
hello = codes "hi"

accept_client-Handled_example : Handled two 9 (accept_client two (some 9) (handshake_done 90))
accept_client-Handled_example = accept_client-Handled two 9 (handshake_done 90)

monitor_loses_last_example :
    let s' = (monitor two 2 zero_return).0 in
    (s'.fd 3 ≡ some 8)
    × (s'.ssl 3 ≡ some 80)
    × (s'.nfds ≡ 3)
    × ¬ Occurs (ssl_write (some 80) hello) (broadcast s' hello)
monitor_loses_last_example =
    monitor_loses_last two 2 3 80 zero_return hello two-IsSafe (omega arith) (omega arith) refl
      (λ e. cc) (λ e. cc) refl refl

abbrev arrives : Events
arrives = record {
  reported = true;
  revents = λ i. i == 0;
  accept_answer = some 5;
  tls_answer = handshake_done 50;
  stdin_answer = none;
  read_answers = λ i. want_more;
}

poll_loop-IsSafe_example : IsSafe (poll_loop (initial 3) (arrives ∷ [])).0
unfolding initial
poll_loop-IsSafe_example = poll_loop-IsSafe (initial 3) (arrives ∷ []) (initial-IsSafe 3) (refl, tt)

abbrev good : Answers
good = record bad_key { check_key = true }

-- An answer from the server and a line, and then the end of stdin.
abbrev talks : Client.Events
talks = record {
  reported = true;
  stdin_ready = true;
  server_ready = true;
  stdin_answer = some hello;
  server_answer = received hello;
}

abbrev ends : Client.Events
ends = record talks { stdin_answer = some [] }

client-Relays_example :
    Relays good connected (talks ∷ ends ∷ []) (client good connected (talks ∷ ends ∷ []))
client-Relays_example = client-Relays good connected (talks ∷ ends ∷ [])

-- A line is typed at the server, and the client in slot 3 leaves; the one in slot 2 reads the line.
abbrev line : Events
line = record {
  reported = true;
  revents = λ i. (i == 1) || (i == 3);
  accept_answer = none;
  tls_answer = handshake_done 90;
  stdin_answer = some hello;
  read_answers = λ i. if i == 3 then zero_return else want_more;
}

abbrev hears : Client.Events
hears = record talks { stdin_ready = false }

two-IsServed : IsServed two 2 70
two-IsServed = record {
  slot = omega arith;
  connected = refl;
  object = refl;
  alone = λ j h e. ground arith;
}

line-IsSteady : IsSteady 2 70 line
line-IsSteady = record { mine = refl; fresh = λ e. ground (arith, e) }

hears-runs : (client good connected (hears ∷ [])).1 ≡ none
unfolding client client_context Client.poll_loop Client.client_round Client.from_server
    Client.from_stdin Client.monitor Client.tcp_tls_connect
hears-runs = refl

heard-written :
    bytes_of (gathered heard (hears ∷ [])) ≡ bytes_of (writes_to 70 (poll_loop two (line ∷ [])).1)
heard-written = ap bytes_of (
    sym
      (poll_loop-writes two 2 70 (line ∷ []) two-IsServed (line-IsSteady, tt) (omega arith, tt)).0)

mtls_chat_delivers_example :
    bytes_of (printed (client good connected (hears ∷ [])).0) ≡ bytes_of (all_typed two (line ∷ []))
mtls_chat_delivers_example =
    mtls_chat_delivers two 2 70 (line ∷ []) good connected (hears ∷ []) two-IsServed
      (line-IsSteady, tt) (omega arith, tt) hears-runs heard-written
