-- ===== src/Ipc/Runner/Lines.antt =====
-- The lines that projects/ipc/parallel-runner/main.c prints.
use c_systems_programming.Common.{
  ℕ, zero, suc, ◌+◌, ◌<◌, ◌≤◌, ◌≡◌, ◌≢◌, refl, ap, ◌∙◌, List, [], ◌∷◌, ◌++◌, map, length, take,
  take_all, All, ◌&&◌, Bool-cases, inl, inr, Option, some, none, Text, NoNul, c_string_self, ◌==◌,
  ltb, leb, if◌then◌else◌, arith,
}
use c_systems_programming.Ipc.Runner.{
  max_commands, buffer_size, Pid, set_pid, launch, find_pid, buffer_text, line_of, add_line,
  collect, runner_main, at, outside,
}

launch-at :
    (forks pids : ℕ → Pid) (i left j : ℕ)
    → i + left ≤ max_commands
    → launch forks pids i left j ≡ (if leb i j && ltb j (i + left) then forks j else pids j)
unfolding launch
launch-at forks pids i zero j h = ground arith
launch-at forks pids i (suc left) j h =
    ground (arith, launch-at forks (set_pid pids i (forks i)) (suc i) left j (omega arith))

-- The processes have ids of their own.
abbrev pub Distinct : (ℕ → ℕ) → Type 0
Distinct pid = (i j : ℕ) → pid i ≡ pid j → i ≡ j

find_pid-at :
    (pids : ℕ → Pid) (pid : ℕ → ℕ) (i j left : ℕ)
    → Distinct pid
    → ((k : ℕ) → k < j + left → pids k ≡ some (pid k))
    → j + left ≤ max_commands
    → j ≤ i
    → i < j + left
    → find_pid pids (some (pid i)) j left ≡ at i
unfolding find_pid
find_pid-at pids pid i j zero d h m l r = absurd (omega (arith, l, r))
find_pid-at pids pid i j (suc left) d h m l r =
    let here : pids j ≡ some (pid j) = h j (omega arith) in
    elim (Bool-cases (j == i)) [
      | inl e ↦ ground (arith, here, e)
      | inr e ↦ ground (
        arith,
        here,
        e,
        d j i,
        find_pid-at pids pid i (suc j) left d (λ k l'. h k (omega (arith, l'))) (omega arith)
            (ground (arith, e)) (omega arith),
      )
    ]

take-map :
    (n : ℕ) (f : ℕ → Pid) (order : List ℕ) → length order ≡ n → take n (map f order) ≡ map f order
take-map zero f [] h = refl
take-map zero f (i ∷ order) h = absurd (omega (arith, h))
take-map (suc n) f [] h = refl
take-map (suc n) f (i ∷ order) h = ap (λ t. f i ∷ t) (take-map n f order (omega (arith, h)))

-- A command may print what fits into the buffer, with its end.
abbrev pub Fits : Text → Type 0
Fits text = NoNul text × (length text < buffer_size)

buffer_text_lem : (text : Text) → Fits text → buffer_text text ≡ some text
unfolding buffer_text
buffer_text_lem text f =
    rw (take_all buffer_size text (omega (arith, f.1)))
      (rw (c_string_self text f.0) (ground (arith, f.1)))

-- The ends that `waitpid` reports, in the order in which the commands end.
collect_lem :
    (pids : ℕ → Pid) (pid : ℕ → ℕ) (contents : ℕ → Text) (count : ℕ) (order : List ℕ)
    → Distinct pid
    → ((k : ℕ) → k < count → pids k ≡ some (pid k))
    → count ≤ max_commands
    → All (λ i. (i < count) × Fits (contents i)) order
    → collect pids contents count (map (λ i. some (pid i)) order)
      ≡ some (map (λ i. (i, contents i)) order)
unfolding collect
collect_lem pids pid contents count [] d h m a = refl
collect_lem pids pid contents count (i ∷ order) d h m (b, a) =
    rw
      (find_pid-at pids pid i 0 count d (λ k l. h k (omega (arith, l))) (omega arith) (omega arith)
        (omega (arith, b.0)))
      (rw (buffer_text_lem (contents i) b.1)
        (rw (collect_lem pids pid contents count order d h m a) refl))

-- With one to ten commands, processes with ids of their own, and outputs that fit into the buffer,
-- each end that is reported gives a line with the number of that command and all that it has
-- written, whatever the order in which the commands end.
pub runner_main-collects :
    (commands : List Text) (pid : ℕ → ℕ) (contents : ℕ → Text) (order : List ℕ)
    → commands ≢ []
    → length commands ≤ max_commands
    → length order ≡ length commands
    → Distinct pid
    → All (λ i. (i < length commands) × Fits (contents i)) order
    → runner_main commands (λ i. some (pid i)) contents (map (λ i. some (pid i)) order)
      ≡ (some (map (λ i. (i, contents i)) order), 0)
unfolding runner_main
runner_main-collects [] pid contents order n m l d a = absurd (n refl)
runner_main-collects (command ∷ commands) pid contents order n m l d a =
    let count = length (command ∷ commands) in
    rw (take-map count (λ i. some (pid i)) order l) (
      ap (λ r. (r, 0))
        (collect_lem (launch (λ i. some (pid i)) (λ i. some 0) 0 count) pid contents count order d
          (λ k b.
            launch-at (λ i. some (pid i)) (λ i. some 0) 0 count k (omega arith) ∙ ground (arith, b))
          m a))

-- An answer -1 of `waitpid` is in none of the ten places.
find_pid-none :
    (pids : ℕ → Pid) (pid : ℕ → ℕ) (j left : ℕ)
    → ((k : ℕ) → k < max_commands → pids k ≡ some (pid k))
    → j ≤ max_commands
    → max_commands < j + left
    → find_pid pids none j left ≡ outside
unfolding find_pid
find_pid-none pids pid j zero h l m = absurd (omega (arith, l, m))
find_pid-none pids pid j (suc left) h l m = elim (Bool-cases (leb max_commands j)) [
  | inl e ↦ ground (arith, e)
  | inr e ↦ ground (
    arith,
    e,
    h j (ground (arith, e)),
    find_pid-none pids pid (suc j) left h (ground (arith, e)) (omega (arith, m)),
  )
]

add_line-none : (line : Option (ℕ × Text)) → add_line line none ≡ none
add_line-none none = refl
add_line-none (some line) = refl

collect_stuck :
    (pids : ℕ → Pid) (contents : ℕ → Text) (count : ℕ) (before rest : List Pid)
    → find_pid pids none 0 count ≡ outside
    → collect pids contents count (before ++ (none ∷ rest)) ≡ none
unfolding collect
collect_stuck pids contents count [] rest h = rw h refl
collect_stuck pids contents count (x ∷ before) rest h =
    rw (collect_stuck pids contents count before rest h)
      (add_line-none (line_of contents (find_pid pids x 0 count)))

-- The first loop stops at the tenth command.
launch-full :
    (forks pids : ℕ → Pid) (i left j : ℕ)
    → max_commands ≤ i + left
    → j < max_commands
    → i ≤ max_commands
    → launch forks pids i left j ≡ (if leb i j then forks j else pids j)
unfolding launch
launch-full forks pids i zero j h l m = ground (arith, h, l)
launch-full forks pids i (suc left) j h l m = elim (Bool-cases (leb max_commands i)) [
  | inl e ↦ ground (arith, e)
  | inr e ↦ ground (
    arith,
    e,
    launch-full forks (set_pid pids i (forks i)) (suc i) left j (omega (arith, h)) l
        (ground (arith, e)),
  )
]

take-append-all :
    (n : ℕ) (xs ys : List Pid)
    → length xs < n
    → (m : ℕ) × ((y : Pid) → take n (xs ++ (y ∷ ys)) ≡ xs ++ (y ∷ take m ys))
take-append-all zero xs ys h = absurd (omega (arith, h))
take-append-all (suc n) [] ys h = (n, λ y. refl)
take-append-all (suc n) (x ∷ xs) ys h =
    let (m, e) = take-append-all n xs ys (omega (arith, h)) in (m, λ y. ap (λ t. x ∷ t) (e y))

-- With more than ten commands and no `fork` that fails, the calls of `waitpid` after the tenth have
-- no process to report: the first answer -1 makes `main` search beyond its array, whatever was
-- reported before.
pub runner_main_overflow :
    (commands : List Text) (pid : ℕ → ℕ) (contents : ℕ → Text) (before rest : List Pid)
    → max_commands < length commands
    → length before < length commands
    → (runner_main commands (λ i. some (pid i)) contents (before ++ (none ∷ rest))).0 ≡ none
unfolding runner_main
runner_main_overflow [] pid contents before rest h l = absurd (omega (arith, h))
runner_main_overflow (command ∷ commands) pid contents before rest h l =
    let count = length (command ∷ commands) in
    let pids = launch (λ i. some (pid i)) (λ i. some 0) 0 count in
    let (m, e) = take-append-all count before rest l in
    rw (e none) (
      collect_stuck pids contents count before (take m rest) (
        find_pid-none pids pid 0 count
          (λ k b.
            launch-full (λ i. some (pid i)) (λ i. some 0) 0 count k (omega (arith, h)) b
              (omega arith)
            ∙ ground (arith, b))
          (omega arith) (omega (arith, h))))
