-- ===== src/PortScanner/Scan/Sockets.antt =====
-- The sockets that the main thread of projects/networking/port-scanner/main.c opens.
use c_systems_programming.Common.{
  ℕ, zero, suc, ◌+◌, ◌-◌, ◌≡◌, refl, ap, ◌∙◌, List, [], ◌∷◌, ◌++◌, Bool, true, false, Option, some,
  none, Text, ◌==◌, if◌then◌else◌, arith, not, if_elim, ◌^◌, ◌||◌,
}
use c_systems_programming.Common.CLib.{ℤ, pos, atoi, int_ltb, to_ℕ}
use c_systems_programming.PortScanner.{ScanConfig}
use c_systems_programming.PortScanner.Scan.{
  Call, Run, opened, closed, sent, send_failed, LocalAnswer, local_ipget, Answer, syn_scan,
  scan_port, scan_loop, make_config, scan_from, scan_checked, scanner_main,
}

-- The descriptors open after a call.
abbrev close_fd : ℕ → List ℕ → List ℕ
close_fd fd [] = []
close_fd fd (x ∷ xs) = if x == fd then xs else x ∷ close_fd fd xs

abbrev pub open_after : List ℕ → List Call → List ℕ
open_after fds [] = fds
open_after fds (opened fd ∷ calls) = open_after (fd ∷ fds) calls
open_after fds (closed fd ∷ calls) = open_after (close_fd fd fds) calls
open_after fds (sent port bytes ∷ calls) = open_after fds calls
open_after fds (send_failed port ∷ calls) = open_after fds calls

open_after-append :
    (fds : List ℕ) (xs ys : List Call)
    → open_after fds (xs ++ ys) ≡ open_after (open_after fds xs) ys
open_after-append fds [] ys = refl
open_after-append fds (opened fd ∷ xs) ys = open_after-append (fd ∷ fds) xs ys
open_after-append fds (closed fd ∷ xs) ys = open_after-append (close_fd fd fds) xs ys
open_after-append fds (sent port bytes ∷ xs) ys = open_after-append fds xs ys
open_after-append fds (send_failed port ∷ xs) ys = open_after-append fds xs ys

close_fd_self : (fd : ℕ) (fds : List ℕ) → close_fd fd (fd ∷ fds) ≡ fds
close_fd_self fd fds = ground arith

-- Calls that close what they open, whatever was open before.
abbrev pub IsBalanced : List Call → Type 0
IsBalanced calls = (fds : List ℕ) → open_after fds calls ≡ fds

IsBalanced-append : (xs ys : List Call) → IsBalanced xs → IsBalanced ys → IsBalanced (xs ++ ys)
IsBalanced-append xs ys h k fds =
    open_after-append fds xs ys ∙ ap (λ s. open_after s ys) (h fds) ∙ k fds

local_ipget-IsBalanced : (a : LocalAnswer) → IsBalanced (local_ipget a).0
unfolding local_ipget
local_ipget-IsBalanced LocalAnswer.no_socket fds = refl
local_ipget-IsBalanced (LocalAnswer.no_connect fd) fds = close_fd_self fd fds
local_ipget-IsBalanced (LocalAnswer.no_sockname fd) fds = close_fd_self fd fds
local_ipget-IsBalanced (LocalAnswer.address fd text) fds = close_fd_self fd fds

module _ (inet_addr : Text → ℕ) where
  syn_scan-IsBalanced :
      (config : ScanConfig) (port : ℕ) (a : Answer)
      → IsBalanced (syn_scan inet_addr config port a).0
  unfolding syn_scan
  syn_scan-IsBalanced config port Answer.no_socket fds = refl
  syn_scan-IsBalanced config port (Answer.no_option fd) fds = close_fd_self fd fds
  syn_scan-IsBalanced config port (Answer.no_send fd id seq) fds = close_fd_self fd fds
  syn_scan-IsBalanced config port (Answer.sends fd id seq) fds = close_fd_self fd fds

  report-IsBalanced : (port : ℕ) (ok : Bool) → IsBalanced (if ok then send_failed port ∷ [] else [])
  report-IsBalanced port true fds = refl
  report-IsBalanced port false fds = refl

  scan_port-IsBalanced :
      (config : ScanConfig) (port : ℕ) (a : Answer) → IsBalanced (scan_port inet_addr config port a)
  unfolding scan_port
  scan_port-IsBalanced config port a =
      IsBalanced-append (syn_scan inet_addr config port a).0
        (if not ((syn_scan inet_addr config port a).1 == 0) then send_failed port ∷ [] else [])
        (syn_scan-IsBalanced config port a)
        (report-IsBalanced port (not ((syn_scan inet_addr config port a).1 == 0)))

  scan_loop-IsBalanced :
      (config : ScanConfig) (answers : ℕ → Answer) (rounds port : ℕ)
      → IsBalanced (scan_loop inet_addr config answers rounds port)
  unfolding scan_loop
  scan_loop-IsBalanced config answers zero port fds = refl
  scan_loop-IsBalanced config answers (suc rounds) port fds =
      IsBalanced-append (scan_port inet_addr config port (answers port))
        (scan_loop inet_addr config answers rounds (port + 1))
        (scan_port-IsBalanced config port (answers port))
        (scan_loop-IsBalanced config answers rounds (port + 1)) fds

  scan_from-IsBalanced :
      (target : Text) (start end : ℕ) (thread : Bool) (answers : ℕ → Answer)
      (local : List Call × Option Text)
      → IsBalanced local.0
      → IsBalanced (scan_from inet_addr target start end thread answers local).calls
  unfolding scan_from
  scan_from-IsBalanced target start end thread answers (calls, none) h = h
  scan_from-IsBalanced target start end false answers (calls, some src) h = h
  scan_from-IsBalanced target start end true answers (calls, some src) h =
      IsBalanced-append calls (scan_loop inet_addr config answers (end + 1 - start) start) h
        (scan_loop-IsBalanced config answers (end + 1 - start) start)
    where
      config : ScanConfig
      config = make_config inet_addr src target start end

  scan_checked-IsBalanced :
      (target : Text) (start end : ℤ) (local : LocalAnswer) (thread : Bool) (answers : ℕ → Answer)
      → IsBalanced (scan_checked inet_addr target start end local thread answers).calls
  unfolding scan_checked
  scan_checked-IsBalanced target start end local thread answers =
      if_elim (λ (r : Run). IsBalanced r.calls) (inet_addr target == 2 ^ 32 - 1) (λ h fds. refl)
        (λ h.
          if_elim (λ (r : Run). IsBalanced r.calls)
            (int_ltb start (pos 1) || (int_ltb (pos 65535) end || int_ltb end start))
            (λ k fds. refl)
            (λ k.
              scan_from-IsBalanced target (to_ℕ start) (to_ℕ end) thread answers (local_ipget local)
                (local_ipget-IsBalanced local)))

  -- Whichever socket, option, connection or send fails, and whatever the arguments, a run of the
  -- scanner closes every socket that it opens in its main thread.
  pub scanner_main-IsBalanced :
      (args : List Text) (local : LocalAnswer) (thread : Bool) (answers : ℕ → Answer)
      → IsBalanced (scanner_main inet_addr args local thread answers).calls
  unfolding scanner_main
  scanner_main-IsBalanced [] local thread answers fds = refl
  scanner_main-IsBalanced (t ∷ []) local thread answers fds = refl
  scanner_main-IsBalanced (t ∷ (s ∷ [])) local thread answers fds = refl
  scanner_main-IsBalanced (t ∷ (s ∷ (e ∷ more))) local thread answers fds =
      scan_checked-IsBalanced t (atoi s) (atoi e) local thread answers fds
