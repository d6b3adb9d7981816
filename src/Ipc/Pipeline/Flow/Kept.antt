-- ===== src/Ipc/Pipeline/Flow/Kept.antt =====
-- What every step of a flow keeps: no byte is lost, repeated or moved, and a command that has exited
-- has written, or read, everything.
use c_systems_programming.Common.{
  ℕ, suc, ◌+◌, ◌*◌, ◌≤◌, ◌≡◌, refl, List, [], ◌++◌, length, Option, some, none, Bool, true, false,
  arith,
}
use c_systems_programming.Ipc.{Table}
use c_systems_programming.Ipc.Pipeline.{
  ParentPc, forking_first, forking_second, closing_read, closing_write, waiting_first,
  waiting_second, returned, ended, Process, System, parent_call,
}
use c_systems_programming.Ipc.Pipeline.Invariant.{IsInvariant, steps_left}
use c_systems_programming.Ipc.Pipeline.Flow.{Flow}

abbrev pub is_forked : Option Process → Bool
is_forked none = false
is_forked (some x) = true

-- The children that are there, by where the parent stands.
abbrev pub Forked : ParentPc → Option Process → Option Process → Type 0
Forked forking_first a b = (a ≡ none) × (b ≡ none)
Forked forking_second a b = (is_forked a ≡ true) × (b ≡ none)
Forked pc a b = (is_forked a ≡ true) × (is_forked b ≡ true)

-- A child that has ended leaves a list empty.
abbrev pub Empties : Option Process → List ℕ → Type 0
Empties a bytes = (x : Process) → a ≡ some x → x.pc ≡ ended → bytes ≡ []

-- The second command has ended only after the first one.
abbrev pub Ordered : Option Process → Option Process → Type 0
Ordered a b = (x y : Process) → b ≡ some y → y.pc ≡ ended → a ≡ some x → x.pc ≡ ended

pub record IsFlowing (t : Table) (p q : ℕ) (output : List ℕ) (f : Flow) : Type 0 where
  pub holds : IsInvariant t p q f.system
  pub forked : Forked f.system.at f.system.first f.system.second
  pub conserved : f.got ++ (f.buffer ++ f.left) ≡ output
  pub written : Empties f.system.first f.left
  pub drained : Empties f.system.second f.buffer
  pub ordered : Ordered f.system.first f.system.second

abbrev pub flow_left : Flow → ℕ
flow_left f = steps_left f.system + (2 * length f.left + length f.buffer)

pub record Flows (t : Table) (p q : ℕ) (output : List ℕ) (f f' : Flow) : Type 0 where
  pub flowing : IsFlowing t p q output f'
  pub used : suc (flow_left f') ≤ flow_left f

-- A call of the parent leaves a child as it is, or starts it.
pub parent_call-Forked :
    (p q : ℕ) (pc : ParentPc) (s : System)
    → s.at ≡ pc
    → Forked pc s.first s.second
    → Forked
        (parent_call pc p q true s).at
        (parent_call pc p q true s).first
        (parent_call pc p q true s).second
unfolding parent_call
parent_call-Forked p q forking_first s e h = (refl, h.1)
parent_call-Forked p q forking_second s e h = (h.0, refl)
parent_call-Forked p q closing_read s e h = h
parent_call-Forked p q closing_write s e h = h
parent_call-Forked p q waiting_first s e h = h
parent_call-Forked p q waiting_second s e h = h
parent_call-Forked p q returned s e h = rw e h

abbrev pub Fresh : Option Process → Option Process → Type 0
Fresh a b = (x : Process) → b ≡ some x → x.pc ≡ ended → a ≡ some x

pub parent_call-Fresh :
    (p q : ℕ) (pc : ParentPc) (s : System)
    → Fresh s.first (parent_call pc p q true s).first
      × Fresh s.second (parent_call pc p q true s).second
unfolding parent_call
parent_call-Fresh p q forking_first s = (λ x e h. ground (arith, e, h), λ x e h. e)
parent_call-Fresh p q forking_second s = (λ x e h. e, λ x e h. ground (arith, e, h))
parent_call-Fresh p q closing_read s = (λ x e h. e, λ x e h. e)
parent_call-Fresh p q closing_write s = (λ x e h. e, λ x e h. e)
parent_call-Fresh p q waiting_first s = (λ x e h. e, λ x e h. e)
parent_call-Fresh p q waiting_second s = (λ x e h. e, λ x e h. e)
parent_call-Fresh p q returned s = (λ x e h. e, λ x e h. e)

pub parent_call-Ordered :
    (p q : ℕ) (pc : ParentPc) (s : System)
    → Forked pc s.first s.second
    → Ordered s.first s.second
    → Ordered (parent_call pc p q true s).first (parent_call pc p q true s).second
unfolding parent_call
parent_call-Ordered p q forking_first s h o x y e d k = absurd (cc (e, h.1))
parent_call-Ordered p q forking_second s h o x y e d k = ground (arith, e, d)
parent_call-Ordered p q closing_read s h o x y e d k = o x y e d k
parent_call-Ordered p q closing_write s h o x y e d k = o x y e d k
parent_call-Ordered p q waiting_first s h o x y e d k = o x y e d k
parent_call-Ordered p q waiting_second s h o x y e d k = o x y e d k
parent_call-Ordered p q returned s h o x y e d k = o x y e d k
