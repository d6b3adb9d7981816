-- ===== src/Ipc/Pipeline/Progress.antt =====
-- A pipeline comes to its end, and its commands run on the two ends of the pipe.
use c_systems_programming.Common.{
  ℕ, ◌≤◌, ◌≡◌, ◌⊎◌, inl, inr, refl, sym, ap, ◌∙◌, Option, none, some, true, false, Bool-cases,
  arith,
}
use c_systems_programming.Ipc.{Table, pipe}
use c_systems_programming.Ipc.Pipeline.{
  ParentPc, forking_first, forking_second, closing_read, closing_write, waiting_first,
  waiting_second, returned, ChildPc, redirecting, closing_one, closing_two, executing, running,
  ended, Process, System, first_plan, second_plan, has_ended, is_gone, waited, returns_at,
  can_return, is_busy, Closed, IsSealed, Step, parent_goes, first_goes, second_goes, first_ends,
  second_ends, Reach,
}
use c_systems_programming.Ipc.Pipeline.Tables.{
  IsFresh, parent_table, child_table, first_table, second_table, parent_table-Closed, first_command,
  second_command, second_command-Closed,
}
use c_systems_programming.Ipc.Pipeline.Invariant.{IsInvariant}
use c_systems_programming.Ipc.Pipeline.Invariant.Steps.{Reach-IsInvariant}

-- A step is possible; or `run` has returned, and both commands are over.
abbrev pub CanGo : ℕ → ℕ → System → Type 0
CanGo p q s = (s' : System) × Step p q s s'

abbrev pub IsOver : System → Type 0
IsOver s = (s.at ≡ returned) × (is_gone s.first ≡ true) × (is_gone s.second ≡ true)

pub pc-cases : (pc : ChildPc) → (is_busy pc ≡ true) ⊎ ((pc ≡ running) ⊎ (pc ≡ ended))
pc-cases redirecting = inl refl
pc-cases closing_one = inl refl
pc-cases closing_two = inl refl
pc-cases executing = inl refl
pc-cases running = inr (inl refl)
pc-cases ended = inr (inr refl)

pub has_ended_lem : (pc : ChildPc) → has_ended pc ≡ true → pc ≡ ended
has_ended_lem redirecting h = absurd (cc)
has_ended_lem closing_one h = absurd (cc)
has_ended_lem closing_two h = absurd (cc)
has_ended_lem executing h = absurd (cc)
has_ended_lem running h = absurd (cc)
has_ended_lem ended h = refl

-- The tables that the invariant gives.
pub first_held :
    {t : Table} {p q : ℕ} {s : System} (x : Process) (pc : ChildPc)
    → IsInvariant t p q s
    → s.first ≡ some x
    → x.pc ≡ pc
    → x.table ≡ child_table pc (pipe t p q) (first_plan p q)
first_held x pc v e h = rw h at (rw e at v.first_holds)

pub second_held :
    {t : Table} {p q : ℕ} {s : System} (x : Process) (pc : ChildPc)
    → IsInvariant t p q s
    → s.second ≡ some x
    → x.pc ≡ pc
    → x.table ≡ child_table pc (pipe t p q) (second_plan p q)
second_held x pc v e h = rw h at (rw e at v.second_holds)

pub gone_first : (a : Option Process) (x : Process) → is_gone a ≡ true → a ≡ some x → x.pc ≡ ended
gone_first a x g e = has_ended_lem x.pc (rw e at g)

-- Where only the second command is left, nobody holds the end that is written to.
pub left-IsSealed :
    {t : Table} {p q : ℕ} {s : System} (y : Process)
    → IsFresh t p q
    → IsInvariant t p q s
    → Closed s.parent
    → is_gone s.first ≡ true
    → s.second ≡ some y
    → y.pc ≡ running
    → IsSealed s
left-IsSealed {t} {p} {q} {s} y f v closed gone e h = (
  closed,
  λ x k d w.
      let held = first_held x ended v k (gone_first s.first x gone k) in
      cc (w, ap (λ (u : Table). u d) held),
  λ x k d w.
      let held = second_held x running v k (cc) in
      second_command-Closed t p q f d (sym (ap (λ (u : Table). u d) held) ∙ w),
)

-- A parent that waits has closed both ends.
pub waits-Closed :
    {t : Table} {p q : ℕ} {s : System} (pc : ParentPc)
    → parent_table pc (pipe t p q) p q ≡ parent_table waiting_first (pipe t p q) p q
    → IsFresh t p q
    → IsInvariant t p q s
    → s.at ≡ pc
    → Closed s.parent
waits-Closed {t} {p} {q} {s} pc same f v i d w = parent_table-Closed t p q f d (
    ap (λ (u : Table). u d)
      (sym (v.parent_holds ∙ ap (λ c. parent_table c (pipe t p q) p q) i ∙ same))
    ∙ w)

-- A child that is not over can go on; the second one where it is the last one.
first_can :
    (p q : ℕ) (s : System) (x : Process) → s.first ≡ some x → has_ended x.pc ≡ false → CanGo p q s
first_can p q s x e h = elim (pc-cases x.pc) [
  | inl busy ↦ (_, first_goes true x e busy)
  | inr (inl runs) ↦ (_, first_ends x e runs)
  | inr (inr over) ↦ absurd (cc (h, ap has_ended over))
]

second_can :
    {t : Table} {p q : ℕ} {s : System} (y : Process)
    → IsFresh t p q
    → IsInvariant t p q s
    → Closed s.parent
    → is_gone s.first ≡ true
    → s.second ≡ some y
    → has_ended y.pc ≡ false
    → CanGo p q s
second_can y f v closed gone e h = elim (pc-cases y.pc) [
  | inl busy ↦ (_, second_goes true y e busy)
  | inr (inl runs) ↦ (_, second_ends y e runs (left-IsSealed y f v closed gone e runs))
  | inr (inr over) ↦ absurd (cc (h, ap has_ended over))
]

pub waited_gone : (a b : Option Process) → waited a b ≡ true → is_gone a ≡ true
waited_gone none b h = refl
waited_gone (some x) b h = h

-- Where the parent stands in a `waitpid` that does not return.
blocked :
    {t : Table} {p q : ℕ} {s : System} (pc : ParentPc) (a b : Option Process)
    → IsFresh t p q
    → IsInvariant t p q s
    → s.at ≡ pc
    → s.first ≡ a
    → s.second ≡ b
    → returns_at pc a b ≡ false
    → CanGo p q s ⊎ IsOver s
blocked forking_first a b f v i j k h = absurd (cc)
blocked forking_second a b f v i j k h = absurd (cc)
blocked closing_read a b f v i j k h = absurd (cc)
blocked closing_write a b f v i j k h = absurd (cc)
blocked {p = p} {q = q} {s = s} waiting_first (some x) b f v i j k h = inl (first_can p q s x j h)
blocked waiting_first none none f v i j k h = absurd (cc)
blocked {t} {p} {q} {s} waiting_first none (some y) f v i j k h =
    inl (second_can y f v (waits-Closed waiting_first refl f v i) (ap is_gone j) k h)
blocked {s = s} waiting_second (some x) none f v i j k h =
    absurd (cc (h, waited_gone s.first s.second (rw i at v.reaped), ap is_gone j))
blocked waiting_second none none f v i j k h = absurd (cc)
blocked {t} {p} {q} {s} waiting_second a (some y) f v i j k h = inl (
    second_can y f v (waits-Closed waiting_second refl f v i)
      (waited_gone s.first s.second (rw i at v.reaped)) k h)
blocked {s = s} returned a b f v i j k h = let (g, g') = rw i at v.reaped in inr (i, g, g')

-- Where `pipe` gives free descriptors, stdin and stdout are open, and no pipe end is held before, a
-- pipeline makes at most sixteen steps, in any order of its processes and also where a `fork` or
-- `execl` fails, and it cannot stop before `run` has returned and both commands are over, even if the
-- second command reads to the end of the file.
pub pipeline_ends :
    {t : Table} {p q n : ℕ} {s : System}
    → IsFresh t p q
    → Reach t p q n s
    → (n ≤ 16) × (CanGo p q s ⊎ IsOver s)
pipeline_ends {t} {p} {q} {n} {s} f r =
    let (v, l) = Reach-IsInvariant r in
    (
      omega (arith, l),
      elim (Bool-cases (can_return s)) [
        | inl h ↦ inl (_, parent_goes true h)
        | inr h ↦ blocked s.at s.first s.second f v refl refl refl h
      ],
    )

-- Where `pipe` gives free descriptors, stdin and stdout are open, and no pipe end is held before, the
-- first command runs with its standard output on the pipe, the second one with its standard input, and
-- nothing else is changed: neither holds another end of the pipe.
pub pipeline_commands :
    {t : Table} {p q n : ℕ} {s : System} (x : Process) (d : ℕ)
    → IsFresh t p q
    → Reach t p q n s
    → x.pc ≡ running
    → (s.first ≡ some x → x.table d ≡ first_table t d)
      × (s.second ≡ some x → x.table d ≡ second_table t d)
pipeline_commands {t} {p} {q} x d f r h =
    let v = (Reach-IsInvariant r).0 in
    (
      λ e. ap (λ (u : Table). u d) (first_held x running v e h) ∙ first_command t p q d f,
      λ e. ap (λ (u : Table). u d) (second_held x running v e h) ∙ second_command t p q d f,
    )
