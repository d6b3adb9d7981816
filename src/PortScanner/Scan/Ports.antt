-- ===== src/PortScanner/Scan/Ports.antt =====
-- Which ports projects/networking/port-scanner/main.c probes.
use c_systems_programming.Common.{ℕ, zero, suc, ◌+◌, ◌-◌, ◌≤◌, ◌≡◌, ◌⊎◌, List, [], ◌∷◌, Bool, ◌||◌}
use c_systems_programming.Common.CLib.{ℤ, pos, int_ltb, to_ℕ}
use c_systems_programming.PortScanner.Scan.{Call, opened, closed, sent, send_failed, Run}

-- The ports for which a SYN was sent or a failure was reported, in order.
abbrev pub probed : List Call → List ℕ
probed [] = []
probed (opened fd ∷ calls) = probed calls
probed (closed fd ∷ calls) = probed calls
probed (sent port bytes ∷ calls) = port ∷ probed calls
probed (send_failed port ∷ calls) = port ∷ probed calls

-- `count` numbers from `first` on.
abbrev pub range_from : ℕ → ℕ → List ℕ
range_from first zero = []
range_from first (suc count) = first ∷ range_from (first + 1) count

-- What a run reports about ports `start` to `end`.
abbrev pub Probes : ℤ → ℤ → Run → Type 0
Probes start end r =
    (r.status ≡ 1) × (probed r.calls ≡ [])
    ⊎ (r.status ≡ 0)
      × (1 ≤ to_ℕ start)
      × (to_ℕ start ≤ to_ℕ end)
      × (to_ℕ end ≤ 65535)
      × (probed r.calls ≡ range_from (to_ℕ start) (to_ℕ end + 1 - to_ℕ start))

abbrev out_of_range : ℤ → ℤ → Bool
out_of_range start end = int_ltb start (pos 1) || (int_ltb (pos 65535) end || int_ltb end start)
