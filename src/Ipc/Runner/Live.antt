-- ===== src/Ipc/Runner/Live.antt =====
-- projects/ipc/parallel-runner/main.c: `main` and its commands, which run interleaved. The runs are
-- those in which `pipe`, `fork` and `execl` succeed, and a command writes its output to descriptor
-- 1 and exits.
pub mod Sums
pub mod Kept
pub mod Ends
use c_systems_programming.Common.{
  ℕ, suc, ◌+◌, ◌<◌, ◌≡◌, List, [], ◌∷◌, ◌++◌, length, ◌==◌, ltb, if◌then◌else◌,
}
use c_systems_programming.Ipc.Runner.{max_commands}

-- A command: it has some bytes to write, it has exited, or `waitpid` has reported it.
pub data Command : Type 0 where
  writing : List ℕ → Command
  exited reaped : Command

-- The number of commands that the first loop has started, the commands, what is in their pipes, and
-- the commands that the second loop has collected. A pipe is read once its command is gone.
pub record State : Type 0 where
  pub started : ℕ
  pub command : ℕ → Command
  pub piped : ℕ → List ℕ
  pub order : List ℕ

-- How many commands the first loop starts: all, or as many as there is room for.
abbrev pub launched : ℕ → ℕ
launched count = if ltb count max_commands then count else max_commands

abbrev pub set_at {ℓ} : {A : Type ℓ} → (ℕ → A) → ℕ → A → ℕ → A
set_at f i a j = if j == i then a else f j

abbrev pub initially : (ℕ → List ℕ) → State
initially output = record {
  started = 0;
  command = λ i. writing (output i);
  piped = λ i. [];
  order = [];
}

-- A step of `main` or of a command, with the number of the commands. A write waits while the pipe
-- holds `capacity` bytes; `waitpid` waits until some command has exited, and comes only after the
-- first loop, which ends at the last command or at `max_commands`. The rounds of the second loop behind the last
-- process, for which `waitpid` gives -1, are in `runner_main` only.
pub data RunStep (count capacity : ℕ) (s : State) : State → Type 0 where
  starts :
      s.started < count
      → s.started < max_commands
      → RunStep count capacity s (record s { started = suc s.started })
  writes :
      (i c : ℕ) (cs : List ℕ)
      → i < s.started
      → s.command i ≡ writing (c ∷ cs)
      → length (s.piped i) < capacity
      → RunStep count capacity s (record s {
        command = set_at s.command i (writing cs);
        piped = set_at s.piped i (s.piped i ++ (c ∷ []));
      })
  exits :
      (i : ℕ)
      → i < s.started
      → s.command i ≡ writing []
      → RunStep count capacity s (record s { command = set_at s.command i exited })
  collects :
      (i : ℕ)
      → s.started ≡ launched count
      → i < s.started
      → s.command i ≡ exited
      → RunStep count capacity s
          (record s { command = set_at s.command i reaped; order = s.order ++ (i ∷ []) })

-- The states that are reached, with the number of steps.
pub data RunReach (count capacity : ℕ) (output : ℕ → List ℕ) : ℕ → State → Type 0 where
  initial : RunReach count capacity output 0 (initially output)
  onward :
      {n : ℕ} {s s' : State}
      → RunReach count capacity output n s
      → RunStep count capacity s s'
      → RunReach count capacity output (suc n) s'
