-- ===== src/Ipc/Runner/Live/Ends.antt =====
-- How projects/ipc/parallel-runner/main.c ends: it prints every output, or it hangs.
use mathlib.Core.Path.{subst}
use c_systems_programming.Common.{
  ℕ, ◌+◌, ◌≤◌, ◌<◌, ◌≡◌, ◌≢◌, ◌⊎◌, inl, inr, refl, sym, ap, ap₂, ◌∙◌, List, [], ◌∷◌, map, length,
  length-append, All, Bool-cases, some, Text, ==_iff, ◌==◌, ltb, arith,
}
use c_systems_programming.Ipc.Runner.{max_commands, runner_main}
use c_systems_programming.Ipc.Runner.Lines.{Distinct, Fits, runner_main-collects}
use c_systems_programming.Ipc.Runner.Live.{
  Command, writing, exited, reaped, State, launched, RunStep, starts, writes, exits, collects,
  RunReach, initial, onward,
}
use c_systems_programming.Ipc.Runner.Live.Sums.{sum, sum_zero, sum_pos}
use c_systems_programming.Ipc.Runner.Live.Kept.{
  awaited, Conserves, times, IsRun, initially-IsRun, RunStep-IsRun,
}

launched_all : (count : ℕ) → count ≤ max_commands → launched count ≡ count
launched_all count m = ground (arith, m)

launched_bounds : (count : ℕ) → (launched count ≤ count) × (launched count ≤ max_commands)
launched_bounds count = (ground arith, ground arith)

RunReach-IsRun :
    {count capacity : ℕ} {output : ℕ → List ℕ} {n : ℕ} {s : State}
    → RunReach count capacity output n s
    → IsRun (launched count) capacity output n s
RunReach-IsRun {count} {capacity} {output} initial =
    initially-IsRun (launched count) capacity output
RunReach-IsRun (onward r st) = RunStep-IsRun st (RunReach-IsRun r)

-- A step is possible.
abbrev pub CanRun : ℕ → ℕ → State → Type 0
CanRun count capacity s = (s' : State) × RunStep count capacity s s'

-- A command that is not collected lets some step happen, once all are started.
command_can :
    {count capacity : ℕ} {output : ℕ → List ℕ} {n : ℕ} {s : State} (i : ℕ) (c : Command)
    → IsRun count capacity output n s
    → count ≤ max_commands
    → s.started ≡ count
    → i < count
    → length (output i) ≤ capacity
    → s.command i ≡ c
    → 0 < awaited c
    → CanRun count capacity s
command_can i (writing []) v m all b f e h = (_, exits i (omega (arith, all, b)) e)
command_can {s = s} i (writing (c ∷ cs)) v m all b f e h = (
  _,
  writes i c cs (omega (arith, all, b)) e
      (omega (arith, f, length-append (s.piped i) (c ∷ cs), ap length (rw e at (v.conserved i)))),
)
command_can {count = count} i exited v m all b f e h =
    (_, collects i (all ∙ sym (launched_all count m)) (omega (arith, all, b)) e)
command_can i reaped v m all b f e h = absurd (omega (arith, h))

-- Where every output fits into its pipe, `main` goes on until all commands are collected.
run_can :
    {count capacity : ℕ} {output : ℕ → List ℕ} {n : ℕ} {s : State}
    → IsRun count capacity output n s
    → count ≤ max_commands
    → ((i : ℕ) → i < count → length (output i) ≤ capacity)
    → CanRun count capacity s ⊎ (length s.order ≡ count)
run_can {count} {capacity} {output} {n} {s} v m f = elim (Bool-cases (ltb s.started count)) [
  | inl h ↦ let b : s.started < count = ground (arith, h) in inl (_, starts b (omega (arith, b, m)))
  | inr h ↦
      let all : s.started ≡ count = ground (arith, h, v.bounded) in
      elim (Bool-cases (length s.order == count)) [
        | inl e ↦ inr ((==_iff (length s.order) count).0 e)
        | inr e ↦
            let (i, b, k) =
              sum_pos (λ j. awaited (s.command j)) count (ground (arith, e, v.tallied)) in
            inl (command_can i (s.command i) v m all b (f i b) refl k)
      ]
]

awaited_zero : (c : Command) → awaited c ≡ 0 → c ≡ reaped
awaited_zero (writing bytes) h = absurd (omega (arith, h))
awaited_zero exited h = absurd (omega (arith, h))
awaited_zero reaped h = refl

-- A command whose output does not fit is still writing.
still_writing :
    {capacity : ℕ} (c : Command) (sent output : List ℕ)
    → Conserves c sent output
    → length sent ≤ capacity
    → capacity < length output
    → (bytes : List ℕ) × (c ≡ writing bytes)
still_writing (writing bytes) sent output h l m = (bytes, refl)
still_writing exited sent output h l m = absurd (omega (arith, l, m, ap length h))
still_writing reaped sent output h l m = absurd (omega (arith, l, m, ap length h))

map-All : {A B : Type 0} (f g : A → B) (xs : List A) → All (λ x. f x ≡ g x) xs → map f xs ≡ map g xs
map-All f g [] h = refl
map-All f g (x ∷ xs) h = ap₂ (λ y ys. y ∷ ys) h.0 (map-All f g xs h.1)

All-weaken :
    {A : Type 0} (P Q : A → Type 0) (xs : List A) → ((x : A) → P x → Q x) → All P xs → All Q xs
All-weaken P Q [] h k = tt
All-weaken P Q (x ∷ xs) h k = (h x k.0, All-weaken P Q xs h k.1)

-- All the commands are collected, once each, and `main` prints for each one all that it has written.
abbrev pub IsPrinted : List Text → (ℕ → ℕ) → (ℕ → List ℕ) → State → Type 0
IsPrinted commands pid output s =
    (runner_main commands (λ i. some (pid i)) s.piped (map (λ i. some (pid i)) s.order)
      ≡ (some (map (λ i. (i, output i)) s.order), 0))
    × ((i : ℕ) → i < length commands → times i s.order ≡ 1)

module _ {count capacity : ℕ} {output : ℕ → List ℕ} {n : ℕ} {s : State} where
  all_reaped :
      IsRun count capacity output n s
      → length s.order ≡ count
      → (i : ℕ) → i < count
      → s.command i ≡ reaped
  all_reaped v e i b =
      awaited_zero (s.command i)
        (sum_zero (λ j. awaited (s.command j)) count (omega (arith, e, v.tallied)) i b)

  all_sent :
      IsRun count capacity output n s
      → length s.order ≡ count
      → (i : ℕ) → i < count
      → s.piped i ≡ output i
  all_sent v e i b = (rw (all_reaped v e i b) at (v.conserved i))

collected-IsPrinted :
    {capacity : ℕ} {output : ℕ → List ℕ} {n : ℕ} {s : State} (commands : List Text) (pid : ℕ → ℕ)
    → commands ≢ []
    → length commands ≤ max_commands
    → Distinct pid
    → ((i : ℕ) → i < length commands → Fits (output i))
    → IsRun (length commands) capacity output n s
    → length s.order ≡ length commands
    → IsPrinted commands pid output s
collected-IsPrinted {output = output} {s = s} commands pid some_command m d f v e =
    let sent = all_sent v e in
    (
      runner_main-collects commands pid s.piped s.order some_command m e d (
            All-weaken (λ i. i < length commands) (λ i. (i < length commands) × Fits (s.piped i))
              s.order (λ i b. (b, rw (sent i b) (f i b))) v.inside)
          ∙ ap (λ lines. (some lines, 0))
              (map-All (λ i. (i, s.piped i)) (λ i. (i, output i)) s.order
                (All-weaken (λ i. i < length commands) (λ i. (i, s.piped i) ≡ (i, output i)) s.order
                  (λ i b. ap (λ text. (i, text)) (sent i b)) v.inside)),
      λ i b. omega (arith, v.listed i, ap awaited (all_reaped v e i b)),
    )

-- With one to ten commands, processes with ids of their own, and outputs without a NUL byte that fit
-- into the buffer and into the pipe, where every `pipe`, `fork` and `execl` succeeds and each command
-- writes its output and exits: whatever the order of the steps, their number is bounded, and they cannot stop
-- before `main` has waited for each command once and printed everything that it has written, with
-- its number.
pub runner_prints :
    {capacity : ℕ} {output : ℕ → List ℕ} {n : ℕ} {s : State} (commands : List Text) (pid : ℕ → ℕ)
    → commands ≢ []
    → length commands ≤ max_commands
    → Distinct pid
    → ((i : ℕ) → i < length commands → Fits (output i) × (length (output i) ≤ capacity))
    → RunReach (length commands) capacity output n s
    → (n ≤ length commands + sum (λ i. 2 + length (output i)) (length commands))
      × (CanRun (length commands) capacity s ⊎ IsPrinted commands pid output s)
runner_prints {capacity} {output} {n} {s} commands pid some_command m d f r =
    let v =
      subst (λ k. IsRun k capacity output n s) (launched_all (length commands) m)
        (RunReach-IsRun r) in
    (
      omega (arith, v.counted, v.bounded),
      elim (run_can v m (λ i b. (f i b).1)) [
        | inl can ↦ inl can
        | inr e ↦ inr (collected-IsPrinted commands pid some_command m d (λ i b. (f i b).0) v e)
      ],
    )

-- Where one of the first ten commands writes more than its pipe holds, and every `pipe`, `fork` and
-- `execl` succeeds, `main` never gets past its `waitpid` calls: in every state that is reached that
-- command is still writing, and fewer commands are collected than were given, and fewer than ten.
pub runner_hangs :
    {count capacity : ℕ} {output : ℕ → List ℕ} {n : ℕ} {s : State} (i : ℕ)
    → i < count
    → i < max_commands
    → capacity < length (output i)
    → RunReach count capacity output n s
    → ((bytes : List ℕ) × (s.command i ≡ writing bytes))
      × (length s.order < count)
      × (length s.order < max_commands)
runner_hangs {count} {capacity} {output} {n} {s} i b m f r =
    let v = RunReach-IsRun r in
    let inside : i < launched count = ground (arith, b, m) in
    let (bytes, e) =
      still_writing (s.command i) (s.piped i) (output i) (v.conserved i) (v.roomy i) f in
    let small = launched_bounds count in
    let fewer : length s.order < launched count =
      elim (Bool-cases (length s.order == launched count)) [
        | inl k ↦ absurd (
            omega (
              arith,
              ap awaited
                  (sym e ∙ all_reaped v ((==_iff (length s.order) (launched count)).0 k) i inside),
            ))
        | inr k ↦ ground (arith, k, v.tallied)
      ] in
    ((bytes, e), omega (arith, fewer, small.0), omega (arith, fewer, small.1))
