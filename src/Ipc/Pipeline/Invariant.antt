-- ===== src/Ipc/Pipeline/Invariant.antt =====
-- What holds in every state of a pipeline: the tables are those of the places where the processes
-- stand, and what the parent has waited for is over.
pub mod Steps
use c_systems_programming.Common.{
  ℕ, suc, ◌+◌, ◌≤◌, ◌≡◌, refl, ap, Option, none, some, true, false, Bool, arith,
}
use c_systems_programming.Ipc.{Table, pipe, dup2, close}
use c_systems_programming.Ipc.Pipeline.{
  ParentPc, forking_first, forking_second, closing_read, closing_write, waiting_first,
  waiting_second, returned, ChildPc, redirecting, closing_one, closing_two, executing, running,
  ended, Process, exited, System, Plan, first_plan, second_plan, child_call, child_step, has_ended,
  is_gone, waited, returns_at, fork, parent_call, parent_step, is_busy, Step, parent_goes,
  first_goes, second_goes, first_ends, second_ends, Reach, start, later,
}
use c_systems_programming.Ipc.Pipeline.Tables.{parent_table, child_table}

-- What the parent has waited for is over.
abbrev pub Reaped : ParentPc → Option Process → Option Process → Type 0
Reaped waiting_second a b = waited a b ≡ true
Reaped returned a b = (is_gone a ≡ true) × (is_gone b ≡ true)
Reaped pc a b = Unit

abbrev pub Holds : Table → Plan → Option Process → Type 0
Holds both plan none = Unit
Holds both plan (some x) = x.table ≡ child_table x.pc both plan

pub record IsInvariant (t : Table) (p q : ℕ) (s : System) : Type 0 where
  pub parent_holds : s.parent ≡ parent_table s.at (pipe t p q) p q
  pub first_holds : Holds (pipe t p q) (first_plan p q) s.first
  pub second_holds : Holds (pipe t p q) (second_plan p q) s.second
  pub reaped : Reaped s.at s.first s.second

-- The steps that are left for the parent, its calls of `fork` included, and for a child.
abbrev pub parent_left : ParentPc → ℕ
parent_left forking_first = 16
parent_left forking_second = 10
parent_left closing_read = 4
parent_left closing_write = 3
parent_left waiting_first = 2
parent_left waiting_second = 1
parent_left returned = 0

abbrev pub pc_left : ChildPc → ℕ
pc_left redirecting = 5
pc_left closing_one = 4
pc_left closing_two = 3
pc_left executing = 2
pc_left running = 1
pc_left ended = 0

abbrev pub child_left : Option Process → ℕ
child_left none = 0
child_left (some x) = pc_left x.pc

abbrev pub steps_left : System → ℕ
steps_left s = parent_left s.at + (child_left s.first + child_left s.second)

both_gone :
    (a b : Option Process)
    → waited a b ≡ true
    → waited b a ≡ true
    → (is_gone a ≡ true) × (is_gone b ≡ true)
both_gone none b h k = (refl, h)
both_gone (some x) none h k = (h, refl)
both_gone (some x) (some y) h k = (h, k)

fork-Holds :
    (both : Table) (plan : Plan) (forks : Bool) (t : Table)
    → t ≡ both
    → Holds both plan (fork forks t)
fork-Holds both plan false t e = tt
fork-Holds both plan true t e = e

fork-left : (forks : Bool) (t : Table) → child_left (fork forks t) ≤ 5
fork-left false t = omega arith
fork-left true t = omega arith

-- A step that keeps the invariant and uses up what is left.
pub record Keeps (t : Table) (p q : ℕ) (s s' : System) : Type 0 where
  pub kept : IsInvariant t p q s'
  pub used : suc (steps_left s') ≤ steps_left s

abbrev moved : System → ParentPc → System
moved s pc = record s { at = pc }

pub parent_call-Keeps :
    (t : Table) (p q : ℕ) (forks : Bool) (pc : ParentPc) (s : System)
    → s.at ≡ pc
    → returns_at pc s.first s.second ≡ true
    → IsInvariant t p q (moved s pc)
    → Keeps t p q (moved s pc) (parent_call pc p q forks s)
unfolding parent_call
parent_call-Keeps t p q forks forking_first s e h v = record {
  kept = record {
    parent_holds = v.parent_holds;
    first_holds = fork-Holds (pipe t p q) (first_plan p q) forks s.parent v.parent_holds;
    second_holds = v.second_holds;
    reaped = tt;
  };
  used = omega (arith, fork-left forks s.parent);
}
parent_call-Keeps t p q forks forking_second s e h v = record {
  kept = record {
    parent_holds = v.parent_holds;
    first_holds = v.first_holds;
    second_holds = fork-Holds (pipe t p q) (second_plan p q) forks s.parent v.parent_holds;
    reaped = tt;
  };
  used = omega (arith, fork-left forks s.parent);
}
parent_call-Keeps t p q forks closing_read s e h v = record {
  kept = record {
    parent_holds = ap (λ (u : Table). close u p) v.parent_holds;
    first_holds = v.first_holds;
    second_holds = v.second_holds;
    reaped = tt;
  };
  used = omega arith;
}
parent_call-Keeps t p q forks closing_write s e h v = record {
  kept = record {
    parent_holds = ap (λ (u : Table). close u q) v.parent_holds;
    first_holds = v.first_holds;
    second_holds = v.second_holds;
    reaped = tt;
  };
  used = omega arith;
}
parent_call-Keeps t p q forks waiting_first s e h v = record {
  kept = record {
    parent_holds = v.parent_holds;
    first_holds = v.first_holds;
    second_holds = v.second_holds;
    reaped = h;
  };
  used = omega arith;
}
parent_call-Keeps t p q forks waiting_second s e h v = record {
  kept = record {
    parent_holds = v.parent_holds;
    first_holds = v.first_holds;
    second_holds = v.second_holds;
    reaped = both_gone s.first s.second v.reaped h;
  };
  used = omega arith;
}
parent_call-Keeps t p q forks returned s e h v = absurd (cc)
