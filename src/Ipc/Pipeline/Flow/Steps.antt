-- ===== src/Ipc/Pipeline/Flow/Steps.antt =====
-- Every step of a flow keeps what holds of it, and uses up a step or a byte.
use c_systems_programming.Common.{
  ℕ, suc, ◌≤◌, ◌≡◌, ◌≢◌, refl, sym, ap, ◌∙◌, List, [], ◌∷◌, ◌++◌, length, length-append,
  append_assoc, Option, some, true, arith,
}
use c_systems_programming.Ipc.{Table, pipe}
use c_systems_programming.Ipc.Pipeline.{
  ParentPc, forking_first, forking_second, closing_read, closing_write, waiting_first,
  waiting_second, returned, ChildPc, redirecting, closing_one, closing_two, executing, running,
  ended, Process, exited, System, Plan, first_plan, second_plan, child_call, child_step,
  parent_step, is_busy, Step, parent_goes, first_goes, second_goes, first_ends, second_ends,
  IsSealed, Closed, has_ended,
}
use c_systems_programming.Ipc.Pipeline.Tables.{IsFresh, child_table, free_apart, first_command}
use c_systems_programming.Ipc.Pipeline.Invariant.{IsInvariant, steps_left}
use c_systems_programming.Ipc.Pipeline.Invariant.Steps.{busy_stays, Step-Keeps}
use c_systems_programming.Ipc.Pipeline.Flow.{
  Flow, FlowStep, parent_calls, first_calls, second_calls, writes, reads, first_exits, second_exits,
}
use c_systems_programming.Ipc.Pipeline.Flow.Kept.{
  Forked, Empties, IsFlowing, Flows, parent_call-Forked, parent_call-Fresh, parent_call-Ordered,
}

-- The two sides of the system's steps.
kept_after :
    {t : Table} {p q : ℕ} {output : List ℕ} {f : Flow} {s' : System}
    → IsFlowing t p q output f
    → Step p q f.system s'
    → IsInvariant t p q s'
kept_after v st = (Step-Keeps st v.holds).kept

used_after :
    {t : Table} {p q : ℕ} {output : List ℕ} {f : Flow} {s' : System}
    → IsFlowing t p q output f
    → Step p q f.system s'
    → suc (steps_left s') ≤ steps_left f.system
used_after v st = (Step-Keeps st v.holds).used

-- A call in a child does not end it, where `execl` succeeds.
child_call_runs :
    (plan : Plan) (pc : ChildPc) (u : Table)
    → is_busy pc ≡ true
    → (child_call pc plan true u).pc ≢ ended
unfolding child_call
child_call_runs plan redirecting u h e = absurd (cc)
child_call_runs plan closing_one u h e = absurd (cc)
child_call_runs plan closing_two u h e = absurd (cc)
child_call_runs plan executing u h e = absurd (cc)
child_call_runs plan running u h e = absurd (cc)
child_call_runs plan ended u h e = absurd (cc)

-- Another process takes the place of a child.
Forked-first :
    (pc : ParentPc) (a b : Option Process) (x y : Process)
    → a ≡ some x
    → Forked pc a b
    → Forked pc (some y) b
Forked-first forking_first a b x y e h = absurd (cc (e, h.0))
Forked-first forking_second a b x y e h = (refl, h.1)
Forked-first closing_read a b x y e h = (refl, h.1)
Forked-first closing_write a b x y e h = (refl, h.1)
Forked-first waiting_first a b x y e h = (refl, h.1)
Forked-first waiting_second a b x y e h = (refl, h.1)
Forked-first returned a b x y e h = (refl, h.1)

Forked-second :
    (pc : ParentPc) (a b : Option Process) (x y : Process)
    → b ≡ some x
    → Forked pc a b
    → Forked pc a (some y)
Forked-second forking_first a b x y e h = absurd (cc (e, h.1))
Forked-second forking_second a b x y e h = absurd (cc (e, h.1))
Forked-second closing_read a b x y e h = (h.0, refl)
Forked-second closing_write a b x y e h = (h.0, refl)
Forked-second waiting_first a b x y e h = (h.0, refl)
Forked-second waiting_second a b x y e h = (h.0, refl)
Forked-second returned a b x y e h = (h.0, refl)

Empties-running : (y : Process) (bytes : List ℕ) → y.pc ≢ ended → Empties (some y) bytes
Empties-running y bytes h x e d = ground (arith, e, d, h)

-- A child that runs may change a list that is its own.
Empties-moves :
    (a : Option Process) (x : Process) (bytes : List ℕ)
    → a ≡ some x
    → x.pc ≡ running
    → Empties a bytes
Empties-moves a x bytes e h y k d = ground (arith, e, h, k, d)

-- A first command that is not over holds the end that is written to.
first_writes :
    (t : Table) (p q : ℕ) (pc : ChildPc)
    → IsFresh t p q
    → Closed (child_table pc (pipe t p q) (first_plan p q))
    → pc ≡ ended
unfolding first_plan
first_writes t p q redirecting f c = absurd (c q (ground (arith, f.apart)))
first_writes t p q closing_one f c = absurd (c 1 (ground (arith, f.apart)))
first_writes t p q closing_two f c =
    absurd (c 1 (ground (arith, f.apart, free_apart t p 1 f.p_free f.stdout)))
first_writes t p q executing f c = absurd (c 1 (first_command t p q 1 f))
first_writes t p q running f c = absurd (c 1 (first_command t p q 1 f))
first_writes t p q ended f c = refl

sealed_over :
    {t : Table} {p q : ℕ} {s : System} (x : Process)
    → IsFresh t p q
    → IsInvariant t p q s
    → IsSealed s
    → s.first ≡ some x
    → x.pc ≡ ended
sealed_over {t} {p} {q} {s} x f v z e =
    let held = (rw e at v.first_holds) in
    first_writes t p q x.pc f (λ d w. z.1 x e d (ap (λ (u : Table). u d) held ∙ w))

pub FlowStep-Flows :
    {t : Table} {p q capacity : ℕ} {output : List ℕ} {f f' : Flow}
    → IsFresh t p q
    → FlowStep p q capacity f f'
    → IsFlowing t p q output f
    → Flows t p q output f f'
unfolding parent_step child_step
FlowStep-Flows {t} {p} {q} {capacity} {output} {f} free (parent_calls h) v =
    let st = parent_goes true h in
    let (old, old') = parent_call-Fresh p q f.system.at f.system in
    record {
      flowing = record {
        holds = kept_after v st;
        forked = parent_call-Forked p q f.system.at f.system refl v.forked;
        conserved = v.conserved;
        written = λ x e d. v.written x (old x e d) d;
        drained = λ x e d. v.drained x (old' x e d) d;
        ordered = parent_call-Ordered p q f.system.at f.system v.forked v.ordered;
      };
      used = omega (arith, used_after v st);
    }
FlowStep-Flows {t} {p} {q} {capacity} {output} {f} free (first_calls x e h) v =
    let st = first_goes true x e h in
    let y = child_step (first_plan p q) true x in
    record {
      flowing = record {
        holds = kept_after v st;
        forked = Forked-first f.system.at f.system.first f.system.second x y e v.forked;
        conserved = v.conserved;
        written = Empties-running y f.left (child_call_runs (first_plan p q) x.pc x.table h);
        drained = v.drained;
        ordered =
            λ z y' k d k'. absurd (cc (busy_stays x.pc h, ap has_ended (v.ordered x y' k d e)));
      };
      used = omega (arith, used_after v st);
    }
FlowStep-Flows {t} {p} {q} {capacity} {output} {f} free (second_calls x e h) v =
    let st = second_goes true x e h in
    let y = child_step (second_plan p q) true x in
    record {
      flowing = record {
        holds = kept_after v st;
        forked = Forked-second f.system.at f.system.first f.system.second x y e v.forked;
        conserved = v.conserved;
        written = v.written;
        drained = Empties-running y f.buffer (child_call_runs (second_plan p q) x.pc x.table h);
        ordered = λ z y' k d k'.
            absurd (child_call_runs (second_plan p q) x.pc x.table h (ground (arith, k, d)));
      };
      used = omega (arith, used_after v st);
    }
FlowStep-Flows {t} {p} {q} {capacity} {output} {f} free (first_exits x e h l) v =
    let st = first_ends x e h in
    record {
      flowing = record {
        holds = kept_after v st;
        forked = Forked-first f.system.at f.system.first f.system.second x exited e v.forked;
        conserved = v.conserved;
        written = λ y k d. l;
        drained = v.drained;
        ordered = λ z y' k d k'. ground (arith, k');
      };
      used = omega (arith, used_after v st);
    }
FlowStep-Flows {t} {p} {q} {capacity} {output} {f} free (second_exits x e h l z') v =
    let st = second_ends x e h z' in
    record {
      flowing = record {
        holds = kept_after v st;
        forked = Forked-second f.system.at f.system.first f.system.second x exited e v.forked;
        conserved = v.conserved;
        written = v.written;
        drained = λ y k d. l;
        ordered = λ z y' k d k'. sealed_over z free v.holds z' k';
      };
      used = omega (arith, used_after v st);
    }
FlowStep-Flows {t} {p} {q} {capacity} {output} {f} free (writes x c cs e h w l room) v = record {
  flowing = record {
    holds = v.holds;
    forked = v.forked;
    conserved =
        ap (λ b. f.got ++ b) (append_assoc f.buffer (c ∷ []) cs ∙ ap (λ b. f.buffer ++ b) (sym l))
        ∙ v.conserved;
    written = Empties-moves f.system.first x cs e h;
    drained = λ y k d. absurd (cc (h, v.ordered x y k d e));
    ordered = v.ordered;
  };
  used = omega (arith, length-append f.buffer (c ∷ []), ap length l);
}
FlowStep-Flows {t} {p} {q} {capacity} {output} {f} free (reads y c cs e h w l) v = record {
  flowing = record {
    holds = v.holds;
    forked = v.forked;
    conserved =
        append_assoc f.got (c ∷ []) (cs ++ f.left)
        ∙ ap (λ b. f.got ++ (b ++ f.left)) (sym l)
        ∙ v.conserved;
    written = v.written;
    drained = Empties-moves f.system.second y cs e h;
    ordered = v.ordered;
  };
  used = omega (arith, ap length l);
}
