-- ===== src/Ipc/Runner.antt =====
-- projects/ipc/parallel-runner/main.c: shell commands side by side, and what each of them has written.
pub mod Lines
pub mod Live
use c_systems_programming.Common.{
  ℕ, zero, suc, ◌+◌, ◌<◌, ◌≤◌, ◌≡◌, ◌≢◌, refl, ap, ◌∙◌, List, [], ◌∷◌, ◌++◌, map, length, take,
  take_all, All, Bool, true, false, ◌&&◌, Bool-cases, inl, inr, Option, some, none, Text, NoNul,
  c_string, c_string_self, ◌==◌, ltb, leb, if◌then◌else◌, arith,
}
use c_systems_programming.Ipc.{Table, pipe, dup2, close}

abbrev pub max_commands : ℕ
max_commands = 10

abbrev pub buffer_size : ℕ
buffer_size = 1024

-- The answers of `fork` and `waitpid`: a process id, or `none` for -1.
abbrev pub Pid : Type 0
Pid = Option ℕ

abbrev pub same_pid : Pid → Pid → Bool
same_pid none none = true
same_pid (some a) (some b) = a == b
same_pid a b = false

abbrev pub set_pid : (ℕ → Pid) → ℕ → Pid → ℕ → Pid
set_pid pids i pid j = if j == i then pid else pids j

-- The descriptors of a child, made from those of `main` with a new pipe.
pub runner_child : Table → ℕ → ℕ → Table
runner_child t p q = close (close (dup2 (pipe t p q) q 1) p) q

-- The first loop, from `i` on: `pids` after the calls of `fork`.
pub launch : (ℕ → Pid) → (ℕ → Pid) → ℕ → ℕ → ℕ → Pid
launch forks pids i zero = pids
launch forks pids i (suc left) =
    let rest = launch forks (set_pid pids i (forks i)) (suc i) left in
    if leb max_commands i then pids else rest

-- The search for the process that has ended: its place, or `i` is left at -1, or the search runs
-- out of the array.
pub data Found : Type 0 where
  at : ℕ → Found
  missing outside : Found

pub find_pid : (ℕ → Pid) → Pid → ℕ → ℕ → Found
find_pid pids done_pid j zero = missing
find_pid pids done_pid j (suc left) =
    let rest = find_pid pids done_pid (suc j) left in
    if leb max_commands j then outside else if same_pid (pids j) done_pid then at j else rest

-- What `%s` prints of the buffer that `read` has filled; `none` where no byte of it is zero.
pub buffer_text : Text → Option Text
buffer_text text =
    let shown = c_string (take buffer_size text) in
    if ltb (length shown) buffer_size then some shown else none

abbrev pub numbered : ℕ → Option Text → Option (ℕ × Text)
numbered i none = none
numbered i (some text) = some (i, text)

-- A line of the output, or undefined behaviour.
abbrev pub line_of : (ℕ → Text) → Found → Option (ℕ × Text)
line_of contents missing = none
line_of contents outside = none
line_of contents (at i) = numbered i (buffer_text (contents i))

abbrev pub add_line : Option (ℕ × Text) → Option (List (ℕ × Text)) → Option (List (ℕ × Text))
add_line none later = none
add_line (some line) none = none
add_line (some line) (some lines) = some (line ∷ lines)

-- The second loop, with an answer of `waitpid` in each round, and what is in each of the pipes.
pub collect : (ℕ → Pid) → (ℕ → Text) → ℕ → List Pid → Option (List (ℕ × Text))
unfolding buffer_text
collect pids contents count [] = some []
collect pids contents count (done_pid ∷ dones) =
    add_line (line_of contents (find_pid pids done_pid 0 count)) (collect pids contents count dones)

-- `main` on some commands; the answers of the kernel are inputs, one of `waitpid` for each command.
pub runner_main : List Text → (ℕ → Pid) → (ℕ → Text) → List Pid → Option (List (ℕ × Text)) × ℕ
unfolding collect
runner_main [] forks contents dones = (some [], 1)
runner_main (command ∷ commands) forks contents dones =
    let count = length (command ∷ commands) in
    (collect (launch forks (λ i. some 0) 0 count) contents count (take count dones), 0)
