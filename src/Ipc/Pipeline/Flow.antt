-- ===== src/Ipc/Pipeline/Flow.antt =====
-- projects/ipc/mini-pipeline/main.c: what the first command writes goes through the pipe to the second
-- one. The runs are those in which `fork` and `execl` succeed, the first command writes its output to
-- descriptor 1 and exits, and the second one reads descriptor 0 to its end.
pub mod Kept
pub mod Steps
pub mod Delivers
use c_systems_programming.Common.{
  ℕ, suc, ◌+◌, ◌<◌, ◌≡◌, List, [], ◌∷◌, ◌++◌, some, none, true, length,
}
use c_systems_programming.Ipc.{read_end, write_end, Table}
use c_systems_programming.Ipc.Pipeline.{
  running, Process, exited, System, first_plan, second_plan, child_step, can_return, parent_step,
  is_busy, IsSealed, piped,
}

-- The processes, what the first command has still to write, what is in the pipe, and what the second
-- command has read.
pub record Flow : Type 0 where
  pub system : System
  pub left : List ℕ
  pub buffer : List ℕ
  pub got : List ℕ

abbrev pub first_at : Flow → Process → Flow
first_at f x = record f { system = record f.system { first = some x } }

abbrev pub second_at : Flow → Process → Flow
second_at f y = record f { system = record f.system { second = some y } }

-- A step of a process. A write waits while the pipe holds `capacity` bytes, a read while it is empty;
-- at an empty pipe that nobody holds for writing, `read` tells the end.
pub data FlowStep (p q capacity : ℕ) (f : Flow) : Flow → Type 0 where
  parent_calls :
      can_return f.system ≡ true
      → FlowStep p q capacity f (record f { system = parent_step p q true f.system })
  first_calls :
      (x : Process)
      → f.system.first ≡ some x
      → is_busy x.pc ≡ true
      → FlowStep p q capacity f (first_at f (child_step (first_plan p q) true x))
  second_calls :
      (y : Process)
      → f.system.second ≡ some y
      → is_busy y.pc ≡ true
      → FlowStep p q capacity f (second_at f (child_step (second_plan p q) true y))
  writes :
      (x : Process) (c : ℕ) (cs : List ℕ)
      → f.system.first ≡ some x
      → x.pc ≡ running
      → x.table 1 ≡ some write_end
      → f.left ≡ c ∷ cs
      → length f.buffer < capacity
      → FlowStep p q capacity f (record f { left = cs; buffer = f.buffer ++ (c ∷ []) })
  reads :
      (y : Process) (c : ℕ) (cs : List ℕ)
      → f.system.second ≡ some y
      → y.pc ≡ running
      → y.table 0 ≡ some read_end
      → f.buffer ≡ c ∷ cs
      → FlowStep p q capacity f (record f { buffer = cs; got = f.got ++ (c ∷ []) })
  first_exits :
      (x : Process)
      → f.system.first ≡ some x
      → x.pc ≡ running
      → f.left ≡ []
      → FlowStep p q capacity f (first_at f exited)
  second_exits :
      (y : Process)
      → f.system.second ≡ some y
      → y.pc ≡ running
      → f.buffer ≡ []
      → IsSealed f.system
      → FlowStep p q capacity f (second_at f exited)

-- After `pipe`, with all of the output to come.
abbrev pub filled : Table → ℕ → ℕ → List ℕ → Flow
filled t p q output = record { system = piped t p q; left = output; buffer = []; got = [] }

-- The states that are reached, with the number of steps.
pub data FlowReach (t : Table) (p q capacity : ℕ) (output : List ℕ) : ℕ → Flow → Type 0 where
  initial : FlowReach t p q capacity output 0 (filled t p q output)
  onward :
      {n : ℕ} {f f' : Flow}
      → FlowReach t p q capacity output n f
      → FlowStep p q capacity f f'
      → FlowReach t p q capacity output (suc n) f'
