-- ===== src/Ipc/Pipeline/Flow/Delivers.antt =====
-- The second command reads what the first one has written.
use c_systems_programming.Common.{
  ℕ, ◌+◌, ◌*◌, ◌≤◌, ◌<◌, ◌≡◌, ◌⊎◌, inl, inr, refl, sym, ap, ap₂, ◌∙◌, List, [], ◌∷◌, ◌++◌, length,
  append-nil, Option, none, some, true, false, Bool-cases, ltb, arith,
}
use c_systems_programming.Ipc.{Table}
use c_systems_programming.Ipc.Pipeline.{
  ParentPc, forking_first, forking_second, closing_read, closing_write, waiting_first,
  waiting_second, returned, running, Process, has_ended, is_gone, returns_at, can_return, Closed,
}
use c_systems_programming.Ipc.Pipeline.Tables.{IsFresh, first_command, second_command}
use c_systems_programming.Ipc.Pipeline.Progress.{
  IsOver, pc-cases, has_ended_lem, first_held, second_held, waited_gone, left-IsSealed,
  waits-Closed,
}
use c_systems_programming.Ipc.Pipeline.Flow.{
  Flow, FlowStep, parent_calls, first_calls, second_calls, writes, reads, first_exits, second_exits,
  FlowReach, initial, onward,
}
use c_systems_programming.Ipc.Pipeline.Flow.Kept.{is_forked, Forked, IsFlowing, flow_left}
use c_systems_programming.Ipc.Pipeline.Flow.Steps.{FlowStep-Flows}

pub FlowReach-IsFlowing :
    {t : Table} {p q capacity : ℕ} {output : List ℕ} {n : ℕ} {f : Flow}
    → IsFresh t p q
    → FlowReach t p q capacity output n f
    → IsFlowing t p q output f × (n + flow_left f ≤ 16 + 2 * length output)
FlowReach-IsFlowing free initial = (
  record {
    holds = record { parent_holds = refl; first_holds = tt; second_holds = tt; reaped = tt };
    forked = (refl, refl);
    conserved = refl;
    written = λ x e d. absurd (cc);
    drained = λ x e d. refl;
    ordered = λ x y e d k. absurd (cc);
  },
  omega arith,
)
FlowReach-IsFlowing free (onward r st) =
    let (v, l) = FlowReach-IsFlowing free r in
    let k = FlowStep-Flows free st v in (k.flowing, omega (arith, l, k.used))

abbrev pub CanFlow : ℕ → ℕ → ℕ → Flow → Type 0
CanFlow p q capacity f = (f' : Flow) × FlowStep p q capacity f f'

-- A second command that runs can take a byte out of a pipe that is not empty.
second_reads :
    {t : Table} {p q capacity : ℕ} {output : List ℕ} {f : Flow} (y : Process) (c : ℕ) (cs : List ℕ)
    → IsFresh t p q
    → IsFlowing t p q output f
    → f.system.second ≡ some y
    → y.pc ≡ running
    → f.buffer ≡ c ∷ cs
    → CanFlow p q capacity f
second_reads {t} {p} {q} y c cs free v e h l = (
  _,
  reads y c cs e h
      (ap (λ (u : Table). u 0) (second_held y running v.holds e h) ∙ second_command t p q 0 free) l,
)

-- A second command that is not over can go on where there is a byte to read.
second_goes_on :
    {t : Table} {p q capacity : ℕ} {output : List ℕ} {f : Flow} (y : Process) (c : ℕ) (cs : List ℕ)
    → IsFresh t p q
    → IsFlowing t p q output f
    → f.system.second ≡ some y
    → has_ended y.pc ≡ false
    → f.buffer ≡ c ∷ cs
    → CanFlow p q capacity f
second_goes_on y c cs free v e h l = elim (pc-cases y.pc) [
  | inl busy ↦ (_, second_calls y e busy)
  | inr (inl runs) ↦ second_reads y c cs free v e runs l
  | inr (inr over) ↦ absurd (cc (h, ap has_ended over))
]

-- Where the pipe is full, it is not empty.
full :
    {t : Table} {p q capacity : ℕ} {output : List ℕ} {f : Flow} (x y : Process) (b : List ℕ)
    → IsFresh t p q
    → 0 < capacity
    → IsFlowing t p q output f
    → f.system.first ≡ some x
    → f.system.second ≡ some y
    → x.pc ≡ running
    → f.buffer ≡ b
    → ltb (length b) capacity ≡ false
    → CanFlow p q capacity f
full x y [] free room v e k runs l h = absurd (ground (arith, h, room))
full {f = f} x y (c ∷ cs) free room v e k runs l h = elim (Bool-cases (has_ended y.pc)) [
  | inl over ↦ absurd (cc (runs, v.ordered x y k (has_ended_lem y.pc over) e))
  | inr more ↦ second_goes_on y c cs free v k more l
]

-- A first command that runs writes, waits for room, or exits.
first_runs :
    {t : Table} {p q capacity : ℕ} {output : List ℕ} {f : Flow} (x y : Process) (left : List ℕ)
    → IsFresh t p q
    → 0 < capacity
    → IsFlowing t p q output f
    → f.system.first ≡ some x
    → f.system.second ≡ some y
    → x.pc ≡ running
    → f.left ≡ left
    → CanFlow p q capacity f
first_runs x y [] free room v e k runs l = (_, first_exits x e runs l)
first_runs {t} {p} {q} {capacity} {output} {f} x y (c ∷ cs) free room v e k runs l =
    elim (Bool-cases (ltb (length f.buffer) capacity)) [
      | inl h ↦ (
        _,
        writes x c cs e runs
            (ap (λ (u : Table). u 1) (first_held x running v.holds e runs)
              ∙ first_command t p q 1 free)
            l (ground (arith, h)),
      )
      | inr h ↦ full x y f.buffer free room v e k runs refl h
    ]

first_goes_on :
    {t : Table} {p q capacity : ℕ} {output : List ℕ} {f : Flow} (x y : Process)
    → IsFresh t p q
    → 0 < capacity
    → IsFlowing t p q output f
    → f.system.first ≡ some x
    → f.system.second ≡ some y
    → has_ended x.pc ≡ false
    → CanFlow p q capacity f
first_goes_on {f = f} x y free room v e k h = elim (pc-cases x.pc) [
  | inl busy ↦ (_, first_calls x e busy)
  | inr (inl runs) ↦ first_runs x y f.left free room v e k runs refl
  | inr (inr over) ↦ absurd (cc (h, ap has_ended over))
]

-- Where only the second command is left, it reads what is there, or sees the end.
second_last :
    {t : Table} {p q capacity : ℕ} {output : List ℕ} {f : Flow} (y : Process) (b : List ℕ)
    → IsFresh t p q
    → IsFlowing t p q output f
    → Closed f.system.parent
    → is_gone f.system.first ≡ true
    → f.system.second ≡ some y
    → has_ended y.pc ≡ false
    → f.buffer ≡ b
    → CanFlow p q capacity f
second_last y (c ∷ cs) free v closed gone e h l = second_goes_on y c cs free v e h l
second_last y [] free v closed gone e h l = elim (pc-cases y.pc) [
  | inl busy ↦ (_, second_calls y e busy)
  | inr (inl runs) ↦ (_, second_exits y e runs l (left-IsSealed y free v.holds closed gone e runs))
  | inr (inr over) ↦ absurd (cc (h, ap has_ended over))
]

over_empties :
    {t : Table} {p q : ℕ} {output : List ℕ} {f : Flow} (a b : Option Process)
    → IsFlowing t p q output f
    → f.system.first ≡ a
    → f.system.second ≡ b
    → (is_forked a ≡ true) × (is_forked b ≡ true)
    → is_gone a ≡ true
    → is_gone b ≡ true
    → f.got ≡ output
over_empties none b v e k h g g' = absurd (cc (h.0))
over_empties (some x) none v e k h g g' = absurd (cc (h.1))
over_empties {f = f} (some x) (some y) v e k h g g' =
    let l = v.written x e (has_ended_lem x.pc g) in
    let b = v.drained y k (has_ended_lem y.pc g') in
    sym (append-nil f.got) ∙ ap₂ (λ c d. f.got ++ (c ++ d)) (sym b) (sym l) ∙ v.conserved

-- Where the parent cannot go on.
flow_blocked :
    {t : Table} {p q capacity : ℕ} {output : List ℕ} {f : Flow} (pc : ParentPc)
    (a b : Option Process)
    → IsFresh t p q
    → 0 < capacity
    → IsFlowing t p q output f
    → f.system.at ≡ pc
    → f.system.first ≡ a
    → f.system.second ≡ b
    → Forked pc a b
    → returns_at pc a b ≡ false
    → CanFlow p q capacity f ⊎ (IsOver f.system × (f.got ≡ output))
flow_blocked forking_first a b free room v i j k h r = absurd (cc)
flow_blocked forking_second a b free room v i j k h r = absurd (cc)
flow_blocked closing_read a b free room v i j k h r = absurd (cc)
flow_blocked closing_write a b free room v i j k h r = absurd (cc)
flow_blocked waiting_first none b free room v i j k h r = absurd (cc (h.0))
flow_blocked waiting_first (some x) none free room v i j k h r = absurd (cc (h.1))
flow_blocked waiting_first (some x) (some y) free room v i j k h r =
    inl (first_goes_on x y free room v j k r)
flow_blocked waiting_second none b free room v i j k h r = absurd (cc (h.0))
flow_blocked waiting_second (some x) none free room v i j k h r = absurd (cc (h.1))
flow_blocked {f = f} waiting_second (some x) (some y) free room v i j k h r =
    let gone = waited_gone f.system.first f.system.second (rw i at v.holds.reaped) in
    inl (
      second_last y f.buffer free v (waits-Closed waiting_second refl free v.holds i) gone k r refl)
flow_blocked {f = f} returned a b free room v i j k h r =
    let (g, g') = rw i at v.holds.reaped in
    inr ((i, g, g'), over_empties a b v j k h (ap is_gone (sym j) ∙ g) (ap is_gone (sym k) ∙ g'))

-- Where `pipe` gives free descriptors, stdin and stdout are open, no pipe end is held before, the pipe
-- has room for a byte, and both `fork`s and both programs start: if the first command writes an output
-- and exits, and the second one reads to the end of its input, then in any order of the steps, and
-- however small the pipe, there are at most sixteen steps and two for each byte, and the processes
-- cannot stop before `run` has returned and the second command has read the whole output, in order.
pub pipeline_delivers :
    {t : Table} {p q capacity : ℕ} {output : List ℕ} {n : ℕ} {f : Flow}
    → IsFresh t p q
    → 0 < capacity
    → FlowReach t p q capacity output n f
    → (n ≤ 16 + 2 * length output) × (CanFlow p q capacity f ⊎ (IsOver f.system × (f.got ≡ output)))
pipeline_delivers {f = f} free room r =
    let (v, l) = FlowReach-IsFlowing free r in
    (
      omega (arith, l),
      elim (Bool-cases (can_return f.system)) [
        | inl h ↦ inl (_, parent_calls h)
        | inr h ↦
            flow_blocked f.system.at f.system.first f.system.second free room v refl refl refl
              v.forked h
      ],
    )
