-- ===== src/Ipc/Tests.antt =====
-- The programs of projects/ipc that start other programs, on small runs.
use c_systems_programming.Common.{
  ℕ, ◌+◌, ◌≡◌, ◌≤◌, ◌<◌, zero, suc, length, ◌⊎◌, refl, List, [], ◌∷◌, true, some, none, Text, codes,
  ltb, ◌==◌, if◌then◌else◌, arith,
}
use c_systems_programming.Ipc.{Table, inherited}
use c_systems_programming.Ipc.Pipeline.{
  System, forking_second, running, Reach, start, later, parent_goes, first_goes, child_call,
  child_step, parent_call, parent_step, first_plan, piped,
}
use c_systems_programming.Ipc.Pipeline.Tables.{child_table, IsFresh}
use c_systems_programming.Ipc.Pipeline.Progress.{CanGo, IsOver, pipeline_ends}
use c_systems_programming.Ipc.Pipeline.Flow.{
  Flow, FlowReach, initial, onward, parent_calls, first_calls, writes,
}
use c_systems_programming.Ipc.Pipeline.Flow.Delivers.{CanFlow, pipeline_delivers}
use c_systems_programming.Ipc.Redirector.{
  Kernel, Redirection, replaces, Ran, redirector_main, redirector_main-Ran,
}
use c_systems_programming.Ipc.Runner.Lines.{Fits}
use c_systems_programming.Ipc.Runner.Live
use c_systems_programming.Ipc.Runner.Live.{State, RunReach, set_at, writing, starts}
use c_systems_programming.Ipc.Runner.Live.Ends.{CanRun, IsPrinted, runner_prints, runner_hangs}

-- The three standard descriptors.
abbrev standard : Table
standard d = if ltb d 3 then some (inherited d) else none

standard-IsFresh : IsFresh standard 3 4
standard-IsFresh = record {
  apart = λ e. omega (arith, e);
  p_free = refl;
  q_free = refl;
  stdin = refl;
  stdout = refl;
  no_reader = λ d e. ground arith;
  no_writer = λ d e. ground arith;
}

-- The first command is started, and runs before the second `fork`.
abbrev one_runs : System
one_runs = record {
  parent = (piped standard 3 4).parent;
  at = forking_second;
  first = some (record {
    table = child_table running (piped standard 3 4).parent (first_plan 3 4);
    pc = running;
  });
  second = none;
}

one_runs-Reach : Reach standard 3 4 5 one_runs
unfolding parent_step parent_call child_step child_call first_plan
one_runs-Reach =
    later
      (later
        (later (later (later start (parent_goes true refl)) (first_goes true _ refl refl))
          (first_goes true _ refl refl))
        (first_goes true _ refl refl))
      (first_goes true _ refl refl)

pipeline_ends_example : (5 ≤ 16) × (CanGo 3 4 one_runs ⊎ IsOver one_runs)
pipeline_ends_example = pipeline_ends standard-IsFresh one_runs-Reach

-- The first command has written its only byte.
abbrev one_written : Flow
one_written = record { system = one_runs; left = []; buffer = 7 ∷ []; got = [] }

one_written-FlowReach : FlowReach standard 3 4 1 (7 ∷ []) 6 one_written
unfolding child_step child_call parent_step parent_call first_plan
one_written-FlowReach =
    onward
      (onward
        (onward
          (onward (onward (onward initial (parent_calls refl)) (first_calls _ refl refl))
            (first_calls _ refl refl))
          (first_calls _ refl refl))
        (first_calls _ refl refl))
      (writes _ 7 [] refl refl refl refl (omega arith))

pipeline_delivers_example :
    (6 ≤ 18)
    × (CanFlow 3 4 1 one_written ⊎ (IsOver one_written.system × (one_written.got ≡ 7 ∷ [])))
pipeline_delivers_example = pipeline_delivers standard-IsFresh (omega arith) one_written-FlowReach

abbrev opens : Kernel
opens = record { forked = true; table = standard; open_answer = some 3 }

abbrev replacing : Redirection
replacing = record { word = codes "out"; stream = 1; flags = 577 }

redirector_main-Ran_example :
    Ran
      (codes "ls")
      (codes "log")
      replacing
      3
      standard
      (redirector_main (codes "main" ∷ codes "ls" ∷ codes "out" ∷ codes "log" ∷ []) opens)
redirector_main-Ran_example =
    redirector_main-Ran (codes "main") (codes "ls") (codes "log") [] opens replacing 3 replaces refl
      refl refl

-- Two commands, each of which writes a letter.
abbrev said : ℕ → Text
said i = if i == 0 then codes "x" else codes "y"

abbrev two_commands : List Text
two_commands = codes "a" ∷ codes "b" ∷ []

said-Fits : (i : ℕ) → i < 2 → Fits (said i) × (length (said i) ≤ 1)
said-Fits zero b = ((((λ e. omega (arith, e)), tt), omega arith), omega arith)
said-Fits (suc zero) b = ((((λ e. omega (arith, e)), tt), omega arith), omega arith)
said-Fits (suc (suc i)) b = absurd (omega (arith, b))

-- The first command has written its letter to a pipe of one byte.
abbrev one_said : State
one_said = record {
  started = 1;
  command = set_at (λ i. writing (said i)) 0 (writing []);
  piped = set_at (λ i. []) 0 (codes "x");
  order = [];
}

one_said-RunReach : RunReach 2 1 said 2 one_said
one_said-RunReach =
    Live.onward (Live.onward Live.initial (starts (omega arith) (omega arith)))
      (Live.writes 0 120 [] (omega arith) refl (omega arith))

runner_prints_example :
    (2 ≤ 8) × (CanRun 2 1 one_said ⊎ IsPrinted two_commands (λ i. 100 + i) said one_said)
runner_prints_example =
    runner_prints two_commands (λ i. 100 + i) (λ e. cc) (omega arith) (λ i j e. omega (arith, e))
      said-Fits one_said-RunReach

-- The same step, where the first of twelve commands has two letters to write.
abbrev shouted : ℕ → Text
shouted i = if i == 0 then codes "xx" else codes "y"

abbrev one_shouted : State
one_shouted = record {
  started = 1;
  command = set_at (λ i. writing (shouted i)) 0 (writing (codes "x"));
  piped = set_at (λ i. []) 0 (codes "x");
  order = [];
}

one_shouted-RunReach : RunReach 12 1 shouted 2 one_shouted
one_shouted-RunReach =
    Live.onward (Live.onward Live.initial (starts (omega arith) (omega arith)))
      (Live.writes 0 120 (codes "x") (omega arith) refl (omega arith))

runner_hangs_example :
    ((bytes : List ℕ) × (one_shouted.command 0 ≡ writing bytes))
    × (length one_shouted.order < 12)
    × (length one_shouted.order < 10)
runner_hangs_example = runner_hangs 0 (omega arith) (omega arith) (omega arith) one_shouted-RunReach
