-- ===== src/PortScanner/Listen/Reply.antt =====
-- Which replies `process` of projects/networking/port-scanner/main.c reports.
use c_systems_programming.Common.{
  ℕ, zero, suc, ◌+◌, ◌*◌, ◌/◌, ◌%◌, ◌≤◌, ◌<◌, ◌≡◌, refl, ap, ◌∙◌, Bool-cases, inl, inr, ==_iff,
  append_assoc, List, [], ◌∷◌, ◌++◌, Bool, true, false, Option, some, none, get_or, load8, load16,
  load32, ltb, ◌==◌, not, ◌&&◌, ◌||◌, if◌then◌else◌, length, arith, length-append,
}
use c_systems_programming.PortScanner.{
  ScanConfig, Iphdr, Tcphdr, htons, iph_bytes, tcph_bytes, flag_bits,
}
use c_systems_programming.PortScanner.Listen.{process_tcp, process}

-- The answer in terms of the header's fields: a reply from a port of the range to the scanner's
-- port, with SYN and ACK set.
unfoldable pub is_open : ScanConfig → Iphdr → Tcphdr → Bool
is_open config iph tcph =
    (iph.saddr == config.dest)
    && ((htons tcph.dest == config.src_port)
        && (not (ltb (htons tcph.source) config.port_start)
            && (not (ltb config.port_end (htons tcph.source))
                && ((tcph.syn == 1) && (tcph.ack == 1)))))

-- The fields fit their widths.
pub record IsHeader (iph : Iphdr) (tcph : Tcphdr) : Type 0 where
  pub ihl_small : iph.ihl < 16
  pub saddr_small : iph.saddr < 4294967296
  pub source_small : tcph.source < 65536
  pub dest_small : tcph.dest < 65536
  pub fin_bit : tcph.fin < 2
  pub syn_bit : tcph.syn < 2
  pub rst_bit : tcph.rst < 2
  pub psh_bit : tcph.psh < 2
  pub ack_bit : tcph.ack < 2
  pub urg_bit : tcph.urg < 2

get_or-append :
    (xs ys : List ℕ) (n i : ℕ) → n ≡ length xs + i → get_or (xs ++ ys) n 0 ≡ get_or ys i 0
get_or-append [] ys n i e = ap (λ k. get_or ys k 0) (omega arith)
get_or-append (x ∷ xs) ys zero i e = absurd (omega arith)
get_or-append (x ∷ xs) ys (suc n) i e = get_or-append xs ys n i (omega arith)

-- The last tests, on the values that were loaded.
abbrev answer : ScanConfig → ℕ → ℕ → ℕ → Option ℕ
answer config source dest flags =
    if not (htons dest == config.src_port)
    then none
    else if ltb (htons source) config.port_start || ltb config.port_end (htons source)
    then none
    else if (flags / 2 % 2 == 1) && (flags / 16 % 2 == 1)
    then some (htons source)
    else none

module _ (config : ScanConfig) (iph : Iphdr) (tcph : Tcphdr) (h : IsHeader iph tcph)
    (front back : List ℕ) where
  abbrev reply : List ℕ
  reply = front ++ (tcph_bytes tcph ++ back)

  load_source : load16 reply (length front) ≡ tcph.source
  unfolding tcph_bytes
  load_source = omega (
    arith,
    get_or-append front (tcph_bytes tcph ++ back) (length front) 0 (omega arith),
    get_or-append front (tcph_bytes tcph ++ back) (length front + 1) 1 (omega arith),
  )

  load_dest : load16 reply (length front + 2) ≡ tcph.dest
  unfolding tcph_bytes
  load_dest = omega (
    arith,
    get_or-append front (tcph_bytes tcph ++ back) (length front + 2) 2 (omega arith),
    get_or-append front (tcph_bytes tcph ++ back) (length front + 2 + 1) 3 (omega arith),
  )

  load_flags : load8 reply (length front + 13) ≡ flag_bits tcph
  unfolding tcph_bytes
  load_flags = get_or-append front (tcph_bytes tcph ++ back) (length front + 13) 13 (omega arith)

  process_tcp-answer :
      process_tcp reply (length front) config ≡ answer config tcph.source tcph.dest (flag_bits tcph)
  unfolding process_tcp
  process_tcp-answer = rw (load_source, load_dest, load_flags)

syn_flag : (tcph : Tcphdr) → tcph.fin < 2 → tcph.syn < 2 → flag_bits tcph / 2 % 2 ≡ tcph.syn
syn_flag tcph f s = omega arith

ack_flag : (iph : Iphdr) (tcph : Tcphdr) → IsHeader iph tcph → flag_bits tcph / 16 % 2 ≡ tcph.ack
ack_flag iph tcph h = omega arith

-- Early returns in the order of the code, and one conjunction.
early_returns :
    (saddr_ok dest_ok low high flags : Bool) (port : ℕ)
    → saddr_ok ≡ true
    → (if not dest_ok
        then none
        else if low || high
        then none
        else if flags
        then some port
        else none)
      ≡ (if saddr_ok && (dest_ok && (not low && (not high && flags))) then some port else none)
early_returns saddr_ok dest_ok low high flags port e = ground arith

answer-is_open :
    (config : ScanConfig) (iph : Iphdr) (tcph : Tcphdr)
    → IsHeader iph tcph
    → iph.saddr ≡ config.dest
    → answer config tcph.source tcph.dest (flag_bits tcph)
      ≡ (if is_open config iph tcph then some (htons tcph.source) else none)
unfolding is_open
answer-is_open config iph tcph h e =
    rw (syn_flag tcph h.fin_bit h.syn_bit, ack_flag iph tcph h)
      (early_returns (iph.saddr == config.dest) (htons tcph.dest == config.src_port)
        (ltb (htons tcph.source) config.port_start) (ltb config.port_end (htons tcph.source))
        ((tcph.syn == 1) && (tcph.ack == 1)) (htons tcph.source) ((==_iff _ _).1 e))

load_saddr :
    (iph : Iphdr) (rest : List ℕ)
    → iph.saddr < 4294967296
    → load32 (iph_bytes iph ++ rest) 12 ≡ iph.saddr
unfolding iph_bytes
load_saddr iph rest h = omega arith

pub length-iph_bytes : (iph : Iphdr) → length (iph_bytes iph) ≡ 20
unfolding iph_bytes
length-iph_bytes iph = refl

load_ihl :
    (iph : Iphdr) (rest : List ℕ)
    → iph.ihl < 16
    → load8 (iph_bytes iph ++ rest) 0 % 16 * 4 ≡ iph.ihl * 4
unfolding iph_bytes
load_ihl iph rest h = omega arith

-- A buffer that starts with an IP header, its options and a TCP header is answered by the fields of
-- those headers alone, as `is_open` says. The length only has to be 40 or more: it need not cover
-- the TCP header behind the options, whose bytes may be left from an earlier packet.
pub process_lem :
    (config : ScanConfig) (iph : Iphdr) (tcph : Tcphdr) (options back : List ℕ) (size : ℕ)
    → IsHeader iph tcph
    → iph.ihl * 4 ≡ 20 + length options
    → 40 ≤ size
    → process (iph_bytes iph ++ (options ++ (tcph_bytes tcph ++ back))) size config
      ≡ (if is_open config iph tcph then some (htons tcph.source) else none)
unfolding process
process_lem config iph tcph options back size h e k =
    rw
      (
        not_short,
        load_saddr iph (options ++ (tcph_bytes tcph ++ back)) h.saddr_small,
        load_ihl iph (options ++ (tcph_bytes tcph ++ back)) h.ihl_small,
      )
      (elim (Bool-cases (iph.saddr == config.dest)) [
        | inl same ↦
            rw (same, fits, ← append_assoc (iph_bytes iph) options (tcph_bytes tcph ++ back))
              (process_tcp-answer config iph tcph h (iph_bytes iph ++ options) back
                ∙ answer-is_open config iph tcph h ((==_iff _ _).0 same))
        | inr other ↦ rw other (unfold is_open in rw other)
      ])
  where
    not_short : ltb size 40 ≡ false
    not_short = ground arith

    fits : iph.ihl * 4 ≡ length (iph_bytes iph ++ options)
    fits = omega (arith, length-append (iph_bytes iph) options, length-iph_bytes iph)
