-- ===== src/PortScanner/Listen.antt =====
-- `listen_synacks` and `process` of projects/networking/port-scanner/main.c: reading the replies.
pub mod Reply
pub mod Stream
use c_systems_programming.Common.{
  ℕ, ◌+◌, ◌*◌, ◌/◌, ◌%◌, List, [], ◌∷◌, ◌++◌, Bool, true, false, Option, some, none, load8, load16,
  load32, ltb, ◌==◌, not, ◌&&◌, ◌||◌, if◌then◌else◌, take, drop, length,
}
use c_systems_programming.PortScanner.{ScanConfig, htons, buffer_size}

-- Every load of `process` is inside the buffer of SIZE bytes: its offset is below 15 * 4 + 20.

-- The tests of `process` on the header at `tcph`, once the addresses have been checked.
unfoldable pub process_tcp : List ℕ → ℕ → ScanConfig → Option ℕ
process_tcp buffer tcph config =
    let src_port = htons (load16 buffer tcph) in
    let flags = load8 buffer (tcph + 13) in
    if not (htons (load16 buffer (tcph + 2)) == config.src_port)
    then none
    else if ltb src_port config.port_start || ltb config.port_end src_port
    then none
    else if (flags / 2 % 2 == 1) && (flags / 16 % 2 == 1)
    then some src_port
    else none

-- `process`: the port that it reports as open, if it reports one.
unfoldable pub process : List ℕ → ℕ → ScanConfig → Option ℕ
process buffer size config =
    if ltb size 40
    then none
    else if not (load32 buffer 12 == config.dest)
    then none
    else process_tcp buffer (load8 buffer 0 % 16 * 4) config

-- What `read` gives: a packet, or an error that is or is not EINTR.
pub data ReadResult : Type 0 where
  packet : List ℕ → ReadResult
  interrupted failed : ReadResult

-- The buffer after a packet has been read over what it held.
abbrev pub overwrite : List ℕ → List ℕ → List ℕ
overwrite buffer bytes = take buffer_size bytes ++ drop (length (take buffer_size bytes)) buffer

-- The message of `process`, if there is one, before what follows.
abbrev pub report : Option ℕ → List ℕ → List ℕ
report none more = more
report (some port) more = port ∷ more

-- The loop of the thread, over the results of `read`, with the ports reported in order.
pub listen_loop : ScanConfig → List ℕ → List ReadResult → List ℕ
listen_loop config buffer [] = []
listen_loop config buffer (failed ∷ results) = []
listen_loop config buffer (interrupted ∷ results) = listen_loop config buffer results
listen_loop config buffer (packet bytes ∷ results) =
    let full = overwrite buffer bytes in
    let more = listen_loop config full results in
    report (process full (length (take buffer_size bytes)) config) more

-- `listen_synacks`, from whether its `socket` succeeds.
pub listen_synacks : Bool → ScanConfig → List ℕ → List ReadResult → List ℕ
unfolding listen_loop
listen_synacks false config buffer results = []
listen_synacks true config buffer results = listen_loop config buffer results
