-- ===== src/PortScanner/Scan.antt =====
-- `main`, `local_ipget` and `syn_scan` of projects/networking/port-scanner/main.c. What the kernel
-- answers to their calls is an input, and the calls that matter are the output.
pub mod Sockets
pub mod Ports
pub mod Found
use c_systems_programming.Common.{
  ℕ, zero, suc, ◌+◌, ◌-◌, List, [], ◌∷◌, ◌++◌, Bool, true, false, Option, some, none, Text, take,
  ltb, ◌==◌, not, ◌||◌, if◌then◌else◌, ◌^◌,
}
use c_systems_programming.Common.CLib.{ℤ, pos, atoi, int_ltb, to_ℕ}
use c_systems_programming.PortScanner.{ScanConfig, source_port}
use c_systems_programming.PortScanner.Packet.{syn_packet}

-- `socket`, `close`, a `sendto` that succeeded with its port and packet, and the message of `main`
-- for a port to which nothing could be sent.
pub data Call : Type 0 where
  opened : ℕ → Call
  closed : ℕ → Call
  sent : ℕ → List ℕ → Call
  send_failed : ℕ → Call

-- The kernel's answers to one `local_ipget`: which call failed, or the address found.
pub data LocalAnswer : Type 0 where
  no_socket : LocalAnswer
  no_connect : ℕ → LocalAnswer
  no_sockname : ℕ → LocalAnswer
  address : ℕ → Text → LocalAnswer

-- `local_ipget`: `none` is the return value 1.
pub local_ipget : LocalAnswer → List Call × Option Text
local_ipget no_socket = ([], none)
local_ipget (no_connect fd) = (opened fd ∷ closed fd ∷ [], none)
local_ipget (no_sockname fd) = (opened fd ∷ closed fd ∷ [], none)
local_ipget (address fd text) = (opened fd ∷ closed fd ∷ [], some (take 19 text))

-- The kernel's answers to one `syn_scan`, with the two random numbers of the headers.
pub data Answer : Type 0 where
  no_socket : Answer
  no_option : ℕ → Answer
  no_send : ℕ → ℕ → ℕ → Answer
  sends : ℕ → ℕ → ℕ → Answer

-- How `main` ends: its exit status, and the calls made.
pub record Run : Type 0 where
  pub status : ℕ
  pub calls : List Call

module _ (inet_addr : Text → ℕ) where
  -- `syn_scan`, with its return value.
  pub syn_scan : ScanConfig → ℕ → Answer → List Call × ℕ
  syn_scan config port Answer.no_socket = ([], 1)
  syn_scan config port (no_option fd) = (opened fd ∷ closed fd ∷ [], 1)
  syn_scan config port (no_send fd id seq) = (opened fd ∷ closed fd ∷ [], 1)
  syn_scan config port (sends fd id seq) =
      (opened fd ∷ sent port (syn_packet inet_addr id seq config port) ∷ closed fd ∷ [], 0)

  -- One round of the loop of `main`.
  pub scan_port : ScanConfig → ℕ → Answer → List Call
  scan_port config port answer =
      let (calls, status) = syn_scan config port answer in
      calls ++ (if not (status == 0) then send_failed port ∷ [] else [])

  -- The loop, with the rounds that are left.
  pub scan_loop : ScanConfig → (ℕ → Answer) → ℕ → ℕ → List Call
  scan_loop config answers zero port = []
  scan_loop config answers (suc rounds) port =
      scan_port config port (answers port) ++ scan_loop config answers rounds (port + 1)

  abbrev pub make_config : Text → Text → ℕ → ℕ → ScanConfig
  make_config src target start end = record {
    src_ip = src;
    dst_ip = take 20 target;
    src_port = source_port;
    port_start = start;
    port_end = end;
    dest = inet_addr target;
  }

  -- `main` after the arguments: the thread is created, and the ports are scanned.
  pub scan_from : Text → ℕ → ℕ → Bool → (ℕ → Answer) → List Call × Option Text → Run
  scan_from target start end thread answers (calls, none) = record { status = 1; calls = calls }
  scan_from target start end false answers (calls, some src) = record { status = 1; calls = calls }
  scan_from target start end true answers (calls, some src) = record {
    status = 0;
    calls = calls ++ scan_loop (make_config src target start end) answers (end + 1 - start) start;
  }

  -- The tests of `main` on the target and the ports.
  pub scan_checked : Text → ℤ → ℤ → LocalAnswer → Bool → (ℕ → Answer) → Run
  scan_checked target start end local thread answers =
      if inet_addr target == 2 ^ 32 - 1
      then record { status = 1; calls = [] }
      else if int_ltb start (pos 1) || (int_ltb (pos 65535) end || int_ltb end start)
      then record { status = 1; calls = [] }
      else scan_from target (to_ℕ start) (to_ℕ end) thread answers (local_ipget local)

  -- `main`, on the arguments behind the program's name.
  pub scanner_main : List Text → LocalAnswer → Bool → (ℕ → Answer) → Run
  scanner_main (target ∷ (start ∷ (end ∷ more))) local thread answers =
      scan_checked target (atoi start) (atoi end) local thread answers
  scanner_main args local thread answers = record { status = 1; calls = [] }
