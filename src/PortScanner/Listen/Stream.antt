-- ===== src/PortScanner/Listen/Stream.antt =====
-- What the thread of `listen_synacks` of projects/networking/port-scanner/main.c reports of a stream of replies.
use c_systems_programming.Common.{
  ℕ, ◌+◌, ◌*◌, ◌≤◌, ◌≡◌, refl, ap, ap₂, ◌∙◌, List, [], ◌∷◌, ◌++◌, append_assoc, map, Bool, true,
  false, Option, some, none, All, length, length-append, take, take_all, drop, arith, if◌then◌else◌,
}
use c_systems_programming.PortScanner.{
  ScanConfig, Iphdr, Tcphdr, htons, buffer_size, iph_bytes, tcph_bytes,
}
use c_systems_programming.PortScanner.Listen.{
  process, overwrite, ReadResult, packet, interrupted, report, listen_loop, listen_synacks,
}
use c_systems_programming.PortScanner.Listen.Reply.{
  IsHeader, is_open, length-iph_bytes, process_lem,
}

-- A packet: an IP header with its options, a TCP header, and what follows.
pub record Reply : Type 0 where
  pub iph : Iphdr
  pub options : List ℕ
  pub tcph : Tcphdr
  pub back : List ℕ

abbrev pub reply_bytes : Reply → List ℕ
reply_bytes r = iph_bytes r.iph ++ (r.options ++ (tcph_bytes r.tcph ++ r.back))

-- Its fields fit, `ihl` counts the options, and `read` gives all of it.
pub record IsReply (r : Reply) : Type 0 where
  pub header : IsHeader r.iph r.tcph
  pub ihl : r.iph.ihl * 4 ≡ 20 + length r.options
  pub fits : length (reply_bytes r) ≤ buffer_size

-- A reply is read, or a signal interrupts `read`.
abbrev pub result_of : Option Reply → ReadResult
result_of none = interrupted
result_of (some r) = packet (reply_bytes r)

abbrev pub IsRead : Option Reply → Type 0
IsRead none = Unit
IsRead (some r) = IsReply r

-- The ports of the replies with SYN and ACK from the target to the scanner, in their order.
abbrev pub open_ports : ScanConfig → List (Option Reply) → List ℕ
open_ports config [] = []
open_ports config (none ∷ events) = open_ports config events
open_ports config (some r ∷ events) =
    let more = open_ports config events in
    if is_open config r.iph r.tcph then htons r.tcph.source ∷ more else more

length-tcph_bytes : (t : Tcphdr) → length (tcph_bytes t) ≡ 20
unfolding tcph_bytes
length-tcph_bytes t = refl

long_enough : (r : Reply) → 40 ≤ length (reply_bytes r)
long_enough r = omega (
  arith,
  length-append (iph_bytes r.iph) (r.options ++ (tcph_bytes r.tcph ++ r.back)),
  length-append r.options (tcph_bytes r.tcph ++ r.back),
  length-append (tcph_bytes r.tcph) r.back,
  length-iph_bytes r.iph,
  length-tcph_bytes r.tcph,
)

-- A reply that has been read over an older one stands at the start of the buffer.
reply_over :
    (r : Reply) (rest : List ℕ)
    → reply_bytes r ++ rest
      ≡ iph_bytes r.iph ++ (r.options ++ (tcph_bytes r.tcph ++ (r.back ++ rest)))
reply_over r rest =
    append_assoc (iph_bytes r.iph) (r.options ++ (tcph_bytes r.tcph ++ r.back)) rest
    ∙ ap (λ t. iph_bytes r.iph ++ t)
        (append_assoc r.options (tcph_bytes r.tcph ++ r.back) rest
          ∙ ap (λ t. r.options ++ t) (append_assoc (tcph_bytes r.tcph) r.back rest))

process-reply :
    (config : ScanConfig) (buffer : List ℕ) (r : Reply)
    → IsReply r
    → process (overwrite buffer (reply_bytes r)) (length (take buffer_size (reply_bytes r))) config
      ≡ (if is_open config r.iph r.tcph then some (htons r.tcph.source) else none)
process-reply config buffer r h = rw (take_all buffer_size (reply_bytes r) h.fits) (
    rw (reply_over r (drop (length (reply_bytes r)) buffer)) (
      process_lem config r.iph r.tcph r.options (r.back ++ drop (length (reply_bytes r)) buffer)
        (length (reply_bytes r)) h.header h.ihl (long_enough r)))

report_if :
    (b : Bool) (port : ℕ) (more : List ℕ)
    → report (if b then some port else none) more ≡ (if b then port ∷ more else more)
report_if true port more = refl
report_if false port more = refl

-- Of a stream of whole packets and interruptions, the loop reports exactly the ports of the
-- replies with SYN and ACK from the target to the scanner's port, in their order, each as often as
-- it answers, whatever the buffer held before.
listen_loop_lem :
    (config : ScanConfig) (buffer : List ℕ) (events : List (Option Reply))
    → All IsRead events
    → listen_loop config buffer (map result_of events) ≡ open_ports config events
unfolding listen_loop
listen_loop_lem config buffer [] h = refl
listen_loop_lem config buffer (none ∷ events) h = listen_loop_lem config buffer events h.1
listen_loop_lem config buffer (some r ∷ events) h =
    ap₂ report (process-reply config buffer r h.0)
      (listen_loop_lem config (overwrite buffer (reply_bytes r)) events h.1)
    ∙ report_if (is_open config r.iph r.tcph) (htons r.tcph.source) (open_ports config events)

-- The same of the whole thread, where its socket opens.
pub listen_synacks_lem :
    (config : ScanConfig) (buffer : List ℕ) (events : List (Option Reply))
    → All IsRead events
    → listen_synacks true config buffer (map result_of events) ≡ open_ports config events
unfolding listen_synacks
listen_synacks_lem config buffer events h = listen_loop_lem config buffer events h
