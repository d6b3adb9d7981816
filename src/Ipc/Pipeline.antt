-- ===== src/Ipc/Pipeline.antt =====
-- projects/ipc/mini-pipeline/main.c: `cmd1 | cmd2`, as three processes that run interleaved.
pub mod Tables
pub mod Invariant
pub mod Progress
pub mod Flow
use c_systems_programming.Common.{
  ℕ, ◌≡◌, ◌≢◌, Bool, true, false, not, Option, none, some, suc, List, [], ◌∷◌, Text, if◌then◌else◌,
  ◌==◌, ◌&&◌,
}
use c_systems_programming.Ipc.{Object, write_end, Table, pipe, dup2, close}

-- Where `run` stands in the parent, and in a child after its `fork`.
pub data ParentPc : Type 0 where
  forking_first forking_second closing_read closing_write : ParentPc
  waiting_first waiting_second returned : ParentPc

pub data ChildPc : Type 0 where
  redirecting closing_one closing_two executing running ended : ChildPc

pub record Process : Type 0 where
  pub table : Table
  pub pc : ChildPc

-- The three processes; a child is `none` before its `fork`, and after one that has failed.
pub record System : Type 0 where
  pub parent : Table
  pub at : ParentPc
  pub first : Option Process
  pub second : Option Process

-- What a child does with the pipe: `dup2(end, stream)`, then two calls of `close`.
pub record Plan : Type 0 where
  pub end : ℕ
  pub stream : ℕ
  pub close_one : ℕ
  pub close_two : ℕ

unfoldable pub first_plan : ℕ → ℕ → Plan
first_plan p q = record { end = q; stream = 1; close_one = p; close_two = q }

pub second_plan : ℕ → ℕ → Plan
second_plan p q = record { end = p; stream = 0; close_one = q; close_two = p }

-- A process that has exited has no descriptors.
abbrev pub exited : Process
exited = record { table = λ d. none; pc = ended }

-- A child's next call; `loaded` tells whether `execl` finds its program.
unfoldable pub child_call : ChildPc → Plan → Bool → Table → Process
child_call redirecting plan loaded t = record {
  table = dup2 t plan.end plan.stream;
  pc = closing_one;
}
child_call closing_one plan loaded t = record { table = close t plan.close_one; pc = closing_two }
child_call closing_two plan loaded t = record { table = close t plan.close_two; pc = executing }
child_call executing plan true t = record { table = t; pc = running }
child_call executing plan false t = exited
child_call running plan loaded t = record { table = t; pc = running }
child_call ended plan loaded t = record { table = t; pc = ended }

unfoldable pub child_step : Plan → Bool → Process → Process
unfolding child_call
child_step plan loaded x = child_call x.pc plan loaded x.table

-- Whether a child is gone, and whether `waitpid` returns: on the pid -1 of a failed `fork` it waits
-- for the other child.
abbrev pub has_ended : ChildPc → Bool
has_ended ended = true
has_ended pc = false

abbrev pub is_gone : Option Process → Bool
is_gone none = true
is_gone (some x) = has_ended x.pc

abbrev pub waited : Option Process → Option Process → Bool
waited none other = is_gone other
waited (some x) other = is_gone (some x)

abbrev pub returns_at : ParentPc → Option Process → Option Process → Bool
returns_at waiting_first a b = waited a b
returns_at waiting_second a b = waited b a
returns_at returned a b = false
returns_at pc a b = true

abbrev pub can_return : System → Bool
can_return s = returns_at s.at s.first s.second

-- `fork`, where the child starts with a copy of the table.
abbrev pub fork : Bool → Table → Option Process
fork false t = none
fork true t = some (record { table = t; pc = redirecting })

-- The parent's next call; `forks` tells whether a `fork` succeeds.
unfoldable pub parent_call : ParentPc → ℕ → ℕ → Bool → System → System
parent_call forking_first p q forks s = record s {
  at = forking_second;
  first = fork forks s.parent;
}
parent_call forking_second p q forks s = record s {
  at = closing_read;
  second = fork forks s.parent;
}
parent_call closing_read p q forks s = record s { parent = close s.parent p; at = closing_write }
parent_call closing_write p q forks s = record s { parent = close s.parent q; at = waiting_first }
parent_call waiting_first p q forks s = record s { at = waiting_second }
parent_call waiting_second p q forks s = record s { at = returned }
parent_call returned p q forks s = s

unfoldable pub parent_step : ℕ → ℕ → Bool → System → System
unfolding parent_call
parent_step p q forks s = parent_call s.at p q forks s

-- Whether a child is still in the code of `run`.
abbrev pub is_busy : ChildPc → Bool
is_busy running = false
is_busy ended = false
is_busy pc = true

-- No process holds the end of the pipe that is written to: its reader sees the end of the file.
abbrev pub Closed : Table → Type 0
Closed t = (d : ℕ) → t d ≢ some write_end

abbrev pub IsSealed : System → Type 0
IsSealed s =
    Closed s.parent
    × ((x : Process) → s.first ≡ some x → Closed x.table)
    × ((x : Process) → s.second ≡ some x → Closed x.table)

-- One step of one of the processes. The first command may end at any time, the second one reads to the
-- end of the file before it does.
pub data Step (p q : ℕ) (s : System) : System → Type 0 where
  parent_goes : (forks : Bool) → can_return s ≡ true → Step p q s (parent_step p q forks s)
  first_goes :
      (loaded : Bool) (x : Process)
      → s.first ≡ some x
      → is_busy x.pc ≡ true
      → Step p q s (record s { first = some (child_step (first_plan p q) loaded x) })
  second_goes :
      (loaded : Bool) (x : Process)
      → s.second ≡ some x
      → is_busy x.pc ≡ true
      → Step p q s (record s { second = some (child_step (second_plan p q) loaded x) })
  first_ends :
      (x : Process)
      → s.first ≡ some x
      → x.pc ≡ running
      → Step p q s (record s { first = some exited })
  second_ends :
      (x : Process)
      → s.second ≡ some x
      → x.pc ≡ running
      → IsSealed s
      → Step p q s (record s { second = some exited })

-- After `pipe`, which fills two descriptors.
abbrev pub piped : Table → ℕ → ℕ → System
piped t p q = record { parent = pipe t p q; at = forking_first; first = none; second = none }

-- The states that the processes reach, with the number of steps.
pub data Reach (t : Table) (p q : ℕ) : ℕ → System → Type 0 where
  start : Reach t p q 0 (piped t p q)
  later : {n : ℕ} {s s' : System} → Reach t p q n s → Step p q s s' → Reach t p q (suc n) s'

-- How `main` goes on: it ends with a status, or `run` has its pipe, with the two commands.
pub data Main : Type 0 where
  exits : ℕ → Main
  runs : Text → Text → System → Main

-- What follows on `pipe`; where it succeeds, `main` returns 0 after `run`.
abbrev pub on_pipe : Text → Text → Table → Option (ℕ × ℕ) → Main
on_pipe cmd1 cmd2 t none = exits 1
on_pipe cmd1 cmd2 t (some (p, q)) = runs cmd1 cmd2 (piped t p q)

-- `main`, with the descriptors that `pipe` gives.
pub pipeline_main : List Text → Table → Option (ℕ × ℕ) → Main
pipeline_main (name ∷ cmd1 ∷ cmd2 ∷ args) t ends = on_pipe cmd1 cmd2 t ends
pipeline_main args t ends = exits 1
