-- ===== src/Ipc/Pipeline/Tables.antt =====
-- The tables of the processes of a pipeline, by where each stands.
use c_systems_programming.Common.{
  ℕ, ◌≡◌, ◌≢◌, sym, ap, ◌∙◌, none, some, true, if◌then◌else◌, ◌==◌, arith,
}
use c_systems_programming.Ipc.{read_end, write_end, is_open, Table, pipe, dup2, close}
use c_systems_programming.Ipc.Pipeline.{
  ParentPc, forking_first, forking_second, closing_read, closing_write, ChildPc, redirecting,
  closing_one, closing_two, running, ended, Plan, first_plan, second_plan, Closed,
}

-- The descriptors that `pipe` chooses are free ones, and the standard ones are in use.
pub record IsFresh (t : Table) (p q : ℕ) : Type 0 where
  pub apart : p ≢ q
  pub p_free : t p ≡ none
  pub q_free : t q ≡ none
  pub stdin : is_open (t 0) ≡ true
  pub stdout : is_open (t 1) ≡ true
  pub no_reader : (d : ℕ) → t d ≢ some read_end
  pub no_writer : (d : ℕ) → t d ≢ some write_end

-- The table of the parent, and that of a child, with `both` at its `fork`.
abbrev pub parent_table : ParentPc → Table → ℕ → ℕ → Table
parent_table forking_first both p q = both
parent_table forking_second both p q = both
parent_table closing_read both p q = both
parent_table closing_write both p q = close both p
parent_table pc both p q = close (close both p) q

abbrev pub child_table : ChildPc → Table → Plan → Table
child_table redirecting both plan = both
child_table closing_one both plan = dup2 both plan.end plan.stream
child_table closing_two both plan = close (dup2 both plan.end plan.stream) plan.close_one
child_table ended both plan = λ d. none
child_table pc both plan =
    close (close (dup2 both plan.end plan.stream) plan.close_one) plan.close_two

-- The table that the first command, or the second, starts with.
abbrev pub first_table : Table → Table
first_table t d = if d == 1 then some write_end else t d

abbrev pub second_table : Table → Table
second_table t d = if d == 0 then some read_end else t d

pub parent_table-Closed :
    (t : Table) (p q : ℕ) → IsFresh t p q → Closed (close (close (pipe t p q) p) q)
parent_table-Closed t p q f d = ground (arith, f.no_writer d)

-- A free descriptor is no open one.
pub free_apart : (t : Table) (p d : ℕ) → t p ≡ none → is_open (t d) ≡ true → p ≢ d
free_apart t p d e h q = cc (h, ap is_open (ap t q), ap is_open e)

pub first_command :
    (t : Table) (p q d : ℕ)
    → IsFresh t p q
    → child_table running (pipe t p q) (first_plan p q) d ≡ first_table t d
unfolding first_plan
first_command t p q d f =
    let p_apart : p ≢ 1 = free_apart t p 1 f.p_free f.stdout in
    let q_apart : q ≢ 1 = free_apart t q 1 f.q_free f.stdout in
    ground (arith, f.apart, f.p_free, f.q_free, p_apart, q_apart)

pub second_command :
    (t : Table) (p q d : ℕ)
    → IsFresh t p q
    → child_table running (pipe t p q) (second_plan p q) d ≡ second_table t d
unfolding second_plan
second_command t p q d f =
    let p_apart : p ≢ 0 = free_apart t p 0 f.p_free f.stdin in
    let q_apart : q ≢ 0 = free_apart t q 0 f.q_free f.stdin in
    ground (arith, f.apart, f.p_free, f.q_free, p_apart, q_apart)

pub second_command-Closed :
    (t : Table) (p q : ℕ)
    → IsFresh t p q
    → Closed (child_table running (pipe t p q) (second_plan p q))
second_command-Closed t p q f d e =
    ground (arith, f.no_writer d, sym (second_command t p q d f) ∙ e)
