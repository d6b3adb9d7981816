-- ===== src/PortScanner/Scan/Found.antt =====
-- The two threads of projects/networking/port-scanner/main.c together: what is found of a target that
-- answers every probe.
use c_systems_programming.Common.{
  ℕ, zero, suc, ◌+◌, ◌-◌, ◌≤◌, ◌<◌, ◌≡◌, ◌≢◌, refl, sym, ap, ap₂, ◌∙◌, List, [], ◌∷◌, ◌++◌, map,
  Bool, true, false, ◌&&◌, ◌==◌, Option, some, Text, All, take, arith, if◌then◌else◌, ◌^◌, ◌||◌,
}
use c_systems_programming.Common.CLib.{pos, atoi, int_ltb}
use c_systems_programming.PortScanner.{ScanConfig, htons}
use c_systems_programming.PortScanner.Packet.{syn_packet}
use c_systems_programming.PortScanner.Receiver.{IsSyn, syn_packet-IsSyn}
use c_systems_programming.PortScanner.Listen.{ReadResult, packet, listen_synacks}
use c_systems_programming.PortScanner.Listen.Reply.{is_open}
use c_systems_programming.PortScanner.Listen.Stream.{
  Reply, IsReply, reply_bytes, result_of, open_ports, IsRead, listen_synacks_lem,
}
use c_systems_programming.PortScanner.Scan.{
  Call, opened, closed, sent, send_failed, LocalAnswer, local_ipget, Answer, syn_scan, scan_port,
  scan_loop, make_config, scan_from, scan_checked, scanner_main,
}
use c_systems_programming.PortScanner.Scan.Ports.{range_from}

-- What is read back where the target answers each packet that is sent.
abbrev pub answers_to : (List ℕ → List ℕ) → List Call → List ReadResult
answers_to host [] = []
answers_to host (sent port bytes ∷ calls) = packet (host bytes) ∷ answers_to host calls
answers_to host (opened fd ∷ calls) = answers_to host calls
answers_to host (closed fd ∷ calls) = answers_to host calls
answers_to host (send_failed port ∷ calls) = answers_to host calls

abbrev pub is_sent : Answer → Bool
is_sent (Answer.sends fd id seq) = true
is_sent Answer.no_socket = false
is_sent (Answer.no_option fd) = false
is_sent (Answer.no_send fd id seq) = false

abbrev pub keep : (ℕ → Bool) → List ℕ → List ℕ
keep p [] = []
keep p (x ∷ xs) = if p x then x ∷ keep p xs else keep p xs

-- A target answers each SYN of the scanner to one of its ports, read as the RFCs say, from that port,
-- with SYN and ACK if the port is open, and without SYN if it is not.
pub record IsTarget (inet_addr : Text → ℕ) (config : ScanConfig) (is_open_port : ℕ → Bool)
    (host : List ℕ → List ℕ) : Type 0 where
  pub reply : ℕ → List ℕ → Reply
  pub answers :
      (port : ℕ) (bytes : List ℕ)
      → port < 65536
      → IsSyn (inet_addr config.src_ip) config.dest config.src_port port bytes
      → host bytes ≡ reply_bytes (reply port bytes)
  pub whole : (port : ℕ) (bytes : List ℕ) → IsReply (reply port bytes)
  pub from_target : (port : ℕ) (bytes : List ℕ) → (reply port bytes).iph.saddr ≡ config.dest
  pub from_port : (port : ℕ) (bytes : List ℕ) → (reply port bytes).tcph.source ≡ htons port
  pub to_scanner :
      (port : ℕ) (bytes : List ℕ) → (reply port bytes).tcph.dest ≡ htons config.src_port
  pub syn :
      (port : ℕ) (bytes : List ℕ)
      → (reply port bytes).tcph.syn ≡ (if is_open_port port then 1 else 0)
  pub ack : (port : ℕ) (bytes : List ℕ) → (reply port bytes).tcph.ack ≡ 1

htons_twice : (n : ℕ) → n < 65536 → htons (htons n) ≡ n
htons_twice n h = omega arith

answers_to-append :
    (host : List ℕ → List ℕ) (xs ys : List Call)
    → answers_to host (xs ++ ys) ≡ answers_to host xs ++ answers_to host ys
answers_to-append host [] ys = refl
answers_to-append host (sent port bytes ∷ xs) ys =
    ap (λ t. packet (host bytes) ∷ t) (answers_to-append host xs ys)
answers_to-append host (opened fd ∷ xs) ys = answers_to-append host xs ys
answers_to-append host (closed fd ∷ xs) ys = answers_to-append host xs ys
answers_to-append host (send_failed port ∷ xs) ys = answers_to-append host xs ys

map-append :
    (f : Option Reply → ReadResult) (xs ys : List (Option Reply))
    → map f (xs ++ ys) ≡ map f xs ++ map f ys
map-append f [] ys = refl
map-append f (x ∷ xs) ys = ap (λ t. f x ∷ t) (map-append f xs ys)

All-append : (xs ys : List (Option Reply)) → All IsRead xs → All IsRead ys → All IsRead (xs ++ ys)
All-append [] ys h k = k
All-append (x ∷ xs) ys h k = (h.0, All-append xs ys h.1 k)

-- The ports that are reported of a target.
module _ (inet_addr : Text → ℕ) (config : ScanConfig) (p : ℕ → Bool) (host : List ℕ → List ℕ)
    (t : IsTarget inet_addr config p host) (small : config.src_port < 65536) where
  abbrev probe : ℕ → ℕ → ℕ → List ℕ
  probe id seq port = syn_packet inet_addr id seq config port

  abbrev of_answer : ℕ → Answer → List (Option Reply)
  of_answer port (Answer.sends fd id seq) = some (t.reply port (probe id seq port)) ∷ []
  of_answer port Answer.no_socket = []
  of_answer port (Answer.no_option fd) = []
  of_answer port (Answer.no_send fd id seq) = []

  abbrev replies : (ℕ → Answer) → ℕ → ℕ → List (Option Reply)
  replies answers zero port = []
  replies answers (suc rounds) port =
      of_answer port (answers port) ++ replies answers rounds (port + 1)

  answers_to-scan_port :
      (port : ℕ) (a : Answer)
      → port < 65536
      → answers_to host (scan_port inet_addr config port a) ≡ map result_of (of_answer port a)
  unfolding scan_port syn_scan
  answers_to-scan_port port (Answer.sends fd id seq) m =
      ap (λ b. packet b ∷ [])
        (t.answers port (probe id seq port) m
          (syn_packet-IsSyn inet_addr id seq config port small m))
  answers_to-scan_port port Answer.no_socket m = refl
  answers_to-scan_port port (Answer.no_option fd) m = refl
  answers_to-scan_port port (Answer.no_send fd id seq) m = refl

  of_answer-IsRead : (port : ℕ) (a : Answer) → All IsRead (of_answer port a)
  of_answer-IsRead port (Answer.sends fd id seq) = (t.whole port (probe id seq port), tt)
  of_answer-IsRead port Answer.no_socket = tt
  of_answer-IsRead port (Answer.no_option fd) = tt
  of_answer-IsRead port (Answer.no_send fd id seq) = tt

  is_open-reply :
      (id seq port : ℕ)
      → config.port_start ≤ port
      → port ≤ config.port_end
      → port < 65536
      → is_open config
          (t.reply port (probe id seq port)).iph
          (t.reply port (probe id seq port)).tcph
        ≡ p port
  unfolding is_open
  is_open-reply id seq port l h m =
      rw
        (
          t.from_target port (probe id seq port),
          t.to_scanner port (probe id seq port),
          t.from_port port (probe id seq port),
          t.syn port (probe id seq port),
          t.ack port (probe id seq port),
        )
        (rw (htons_twice port m, htons_twice config.src_port small) (ground (arith, l, h)))

  open_ports-answer :
      (port : ℕ) (a : Answer) (more : List (Option Reply))
      → config.port_start ≤ port
      → port ≤ config.port_end
      → port < 65536
      → open_ports config (of_answer port a ++ more)
        ≡ (if is_sent a && p port then port ∷ open_ports config more else open_ports config more)
  open_ports-answer port (Answer.sends fd id seq) more l h m =
      rw (is_open-reply id seq port l h m, t.from_port port (probe id seq port))
        (rw (htons_twice port m) refl)
  open_ports-answer port Answer.no_socket more l h m = refl
  open_ports-answer port (Answer.no_option fd) more l h m = refl
  open_ports-answer port (Answer.no_send fd id seq) more l h m = refl

  answers_to-scan_loop :
      (answers : ℕ → Answer) (rounds port : ℕ)
      → port + rounds ≤ 65536
      → answers_to host (scan_loop inet_addr config answers rounds port)
        ≡ map result_of (replies answers rounds port)
  unfolding scan_loop
  answers_to-scan_loop answers zero port m = refl
  answers_to-scan_loop answers (suc rounds) port m =
      answers_to-append host (scan_port inet_addr config port (answers port))
        (scan_loop inet_addr config answers rounds (port + 1))
      ∙ ap₂ (λ a b. a ++ b) (answers_to-scan_port port (answers port) (omega (arith, m)))
          (answers_to-scan_loop answers rounds (port + 1) (omega (arith, m)))
      ∙ sym
          (map-append result_of (of_answer port (answers port)) (replies answers rounds (port + 1)))

  replies-IsRead :
      (answers : ℕ → Answer) (rounds port : ℕ) → All IsRead (replies answers rounds port)
  replies-IsRead answers zero port = tt
  replies-IsRead answers (suc rounds) port =
      All-append (of_answer port (answers port)) (replies answers rounds (port + 1))
        (of_answer-IsRead port (answers port)) (replies-IsRead answers rounds (port + 1))

  open_ports-replies :
      (answers : ℕ → Answer) (rounds port : ℕ)
      → config.port_start ≤ port
      → port + rounds ≤ config.port_end + 1
      → config.port_end < 65536
      → open_ports config (replies answers rounds port)
        ≡ keep (λ k. is_sent (answers k) && p k) (range_from port rounds)
  open_ports-replies answers zero port l h m = refl
  open_ports-replies answers (suc rounds) port l h m =
      open_ports-answer port (answers port) (replies answers rounds (port + 1)) l (omega (arith, h))
        (omega (arith, h))
      ∙ ap (λ more. if is_sent (answers port) && p port then port ∷ more else more)
          (open_ports-replies answers rounds (port + 1) (omega (arith, l)) (omega (arith, h)) m)

  scan_loop_finds :
      (answers : ℕ → Answer) (buffer : List ℕ) (rounds port : ℕ)
      → config.port_start ≤ port
      → port + rounds ≤ config.port_end + 1
      → config.port_end < 65536
      → listen_synacks true config buffer
          (answers_to host (scan_loop inet_addr config answers rounds port))
        ≡ keep (λ k. is_sent (answers k) && p k) (range_from port rounds)
  scan_loop_finds answers buffer rounds port l h m =
      ap (listen_synacks true config buffer)
        (answers_to-scan_loop answers rounds port (omega (arith, h, m)))
      ∙ listen_synacks_lem config buffer (replies answers rounds port)
          (replies-IsRead answers rounds port)
      ∙ open_ports-replies answers rounds port l h m

-- Where the arguments name a target and valid ports, the address is found and the thread is created,
-- the listener's socket opens, the target answers every SYN of the scanner that the RFCs address to one
-- of its ports, and the listener reads one answer for each probe that was sent, whole and in their
-- order, and nothing else: the scanner reports exactly the ports of the range that are open and to
-- which a SYN could be sent, in order and each once, and ends with status 0.
pub scanner_main_finds :
    (inet_addr : Text → ℕ) (target start end : Text) (more : List Text) (fd : ℕ) (src : Text)
    (answers : ℕ → Answer) (buffer : List ℕ) (first last : ℕ) (p : ℕ → Bool)
    (host : List ℕ → List ℕ)
    → atoi start ≡ pos first
    → atoi end ≡ pos last
    → 1 ≤ first
    → first ≤ last
    → last ≤ 65535
    → inet_addr target ≢ 2 ^ 32 - 1
    → IsTarget inet_addr (make_config inet_addr (take 19 src) target first last) p host
    → let run =
        scanner_main inet_addr
          (target ∷ (start ∷ (end ∷ more)))
          (LocalAnswer.address fd src)
          true
          answers in
      (listen_synacks true
          (make_config inet_addr (take 19 src) target first last)
          buffer
          (answers_to host run.calls)
        ≡ keep (λ k. is_sent (answers k) && p k) (range_from first (last + 1 - first)))
      × (run.status ≡ 0)
unfolding scanner_main scan_checked scan_from local_ipget
scanner_main_finds inet_addr target start end more fd src answers buffer first last p host a b l h m
      n t =
    let known : (inet_addr target == 2 ^ 32 - 1) ≡ false = ground (arith, n) in
    let in_range : (int_ltb (pos first) (pos 1)
          || (int_ltb (pos 65535) (pos last) || int_ltb (pos last) (pos first)))
        ≡ false =
      ground arith in
    rw (a, b)
      (rw (known, in_range)
        (
          scan_loop_finds inet_addr (make_config inet_addr (take 19 src) target first last) p host t
              (omega arith) answers buffer (last + 1 - first) first (omega arith)
              (omega (arith, h, l)) (omega (arith, m)),
          refl,
        ))
