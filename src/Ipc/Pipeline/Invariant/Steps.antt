-- ===== src/Ipc/Pipeline/Invariant/Steps.antt =====
-- Every step of a pipeline keeps its invariant, and uses up one of its steps.
use c_systems_programming.Common.{
  ℕ, suc, ◌+◌, ◌≤◌, ◌≡◌, refl, ap, Option, none, some, true, false, Bool, arith,
}
use c_systems_programming.Ipc.{Table, pipe, dup2, close}
use c_systems_programming.Ipc.Pipeline.{
  ParentPc, forking_first, forking_second, closing_read, closing_write, waiting_first,
  waiting_second, returned, ChildPc, redirecting, closing_one, closing_two, executing, running,
  ended, Process, exited, System, Plan, first_plan, second_plan, child_call, child_step, has_ended,
  parent_step, is_busy, Step, parent_goes, first_goes, second_goes, first_ends, second_ends, Reach,
  start, later,
}
use c_systems_programming.Ipc.Pipeline.Tables.{child_table}
use c_systems_programming.Ipc.Pipeline.Invariant.{
  Reaped, Holds, IsInvariant, pc_left, child_left, steps_left, Keeps, parent_call-Keeps,
}

-- A call of a child follows its plan.
child_call_lem :
    (both : Table) (plan : Plan) (loaded : Bool) (pc : ChildPc) (u : Table)
    → is_busy pc ≡ true
    → u ≡ child_table pc both plan
    → Holds both plan (some (child_call pc plan loaded u))
      × (suc (pc_left (child_call pc plan loaded u).pc) ≤ pc_left pc)
unfolding child_call
child_call_lem both plan loaded redirecting u h e =
    (ap (λ (w : Table). dup2 w plan.end plan.stream) e, omega arith)
child_call_lem both plan loaded closing_one u h e =
    (ap (λ (w : Table). close w plan.close_one) e, omega arith)
child_call_lem both plan loaded closing_two u h e =
    (ap (λ (w : Table). close w plan.close_two) e, omega arith)
child_call_lem both plan true executing u h e = (e, omega arith)
child_call_lem both plan false executing u h e = (refl, omega arith)
child_call_lem both plan loaded running u h e = absurd (cc)
child_call_lem both plan loaded ended u h e = absurd (cc)

pub busy_stays : (pc : ChildPc) → is_busy pc ≡ true → has_ended pc ≡ false
busy_stays redirecting h = refl
busy_stays closing_one h = refl
busy_stays closing_two h = refl
busy_stays executing h = refl
busy_stays running h = refl
busy_stays ended h = absurd (cc)

-- The parent has not waited for a child that is there.
first-Reaped :
    (pc : ParentPc) (x y : Process) (b : Option Process)
    → has_ended x.pc ≡ false
    → Reaped pc (some x) b
    → Reaped pc (some y) b
first-Reaped forking_first x y b h r = tt
first-Reaped forking_second x y b h r = tt
first-Reaped closing_read x y b h r = tt
first-Reaped closing_write x y b h r = tt
first-Reaped waiting_first x y b h r = tt
first-Reaped waiting_second x y b h r = absurd (cc)
first-Reaped returned x y b h r = absurd (cc (h, r.0))

second-Reaped :
    (pc : ParentPc) (x y : Process) (a : Option Process)
    → has_ended x.pc ≡ false
    → Reaped pc a (some x)
    → Reaped pc a (some y)
second-Reaped forking_first x y a h r = tt
second-Reaped forking_second x y a h r = tt
second-Reaped closing_read x y a h r = tt
second-Reaped closing_write x y a h r = tt
second-Reaped waiting_first x y a h r = tt
second-Reaped waiting_second x y none h r = absurd (cc)
second-Reaped waiting_second x y (some z) h r = r
second-Reaped returned x y a h r = absurd (cc (h, r.1))

-- A child's place is taken by another one.
first_moves :
    (t : Table) (p q : ℕ) (s : System) (x y : Process)
    → s.first ≡ some x
    → has_ended x.pc ≡ false
    → Holds (pipe t p q) (first_plan p q) (some y)
    → suc (pc_left y.pc) ≤ pc_left x.pc
    → IsInvariant t p q s
    → Keeps t p q s (record s { first = some y })
first_moves t p q s x y e h k l v = record {
  kept = record {
    parent_holds = v.parent_holds;
    first_holds = k;
    second_holds = v.second_holds;
    reaped = first-Reaped s.at x y s.second h (rw e at v.reaped);
  };
  used = omega (arith, l, ap child_left e);
}

second_moves :
    (t : Table) (p q : ℕ) (s : System) (x y : Process)
    → s.second ≡ some x
    → has_ended x.pc ≡ false
    → Holds (pipe t p q) (second_plan p q) (some y)
    → suc (pc_left y.pc) ≤ pc_left x.pc
    → IsInvariant t p q s
    → Keeps t p q s (record s { second = some y })
second_moves t p q s x y e h k l v = record {
  kept = record {
    parent_holds = v.parent_holds;
    first_holds = v.first_holds;
    second_holds = k;
    reaped = second-Reaped s.at x y s.first h (rw e at v.reaped);
  };
  used = omega (arith, l, ap child_left e);
}

pub Step-Keeps :
    {t : Table} {p q : ℕ} {s s' : System} → Step p q s s' → IsInvariant t p q s → Keeps t p q s s'
unfolding parent_step child_step
Step-Keeps {t} {p} {q} {s} (parent_goes forks h) v = parent_call-Keeps t p q forks s.at s refl h v
Step-Keeps {t} {p} {q} {s} (first_goes loaded x e h) v =
    let held = (rw e at v.first_holds) in
    let (k, l) = child_call_lem (pipe t p q) (first_plan p q) loaded x.pc x.table h held in
    first_moves t p q s x (child_call x.pc (first_plan p q) loaded x.table) e (busy_stays x.pc h) k
      l v
Step-Keeps {t} {p} {q} {s} (second_goes loaded x e h) v =
    let held = (rw e at v.second_holds) in
    let (k, l) = child_call_lem (pipe t p q) (second_plan p q) loaded x.pc x.table h held in
    second_moves t p q s x (child_call x.pc (second_plan p q) loaded x.table) e (busy_stays x.pc h)
      k l v
Step-Keeps {t} {p} {q} {s} (first_ends x e h) v =
    first_moves t p q s x exited e (ap has_ended h) refl (omega (arith, ap pc_left h)) v
Step-Keeps {t} {p} {q} {s} (second_ends x e h z) v =
    second_moves t p q s x exited e (ap has_ended h) refl (omega (arith, ap pc_left h)) v

pub Reach-IsInvariant :
    {t : Table} {p q n : ℕ} {s : System}
    → Reach t p q n s
    → IsInvariant t p q s × (n + steps_left s ≤ 16)
Reach-IsInvariant start =
    (record { parent_holds = refl; first_holds = tt; second_holds = tt; reaped = tt }, omega arith)
Reach-IsInvariant (later r st) =
    let (v, l) = Reach-IsInvariant r in
    let k = Step-Keeps st v in (k.kept, omega (arith, l, k.used))
