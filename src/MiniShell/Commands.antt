-- ===== src/MiniShell/Commands.antt =====
-- `bin_exec`, `builtin_pwd` and `builtin_help` of projects/ipc/mini-shell/main.c.
use c_systems_programming.Common.{
  ℕ, zero, suc, ◌+◌, ◌*◌, ◌≤◌, ◌<◌, ◌∙◌, Bool-cases, inl, inr, if_elim, ◌≡◌, refl, ap, List, [],
  ◌∷◌, ◌++◌, map, length, Bool, true, false, ◌||◌, Option, some, none, Text, codes, ltb,
  if◌then◌else◌, arith,
}
use c_systems_programming.MiniShell.{builtins}

-- What `waitpid` with WUNTRACED says of the child.
pub data Status : Type 0 where
  stopped : ℕ → Status
  exited : ℕ → Status
  signaled : ℕ → Status

-- What the shell does about a program.
pub data Call : Type 0 where
  fork_error newline : Call
  wait : Status → Call

-- The loop over `waitpid`, on the changes of state that it reports, with the returned value once the
-- child is gone.
pub wait_child : List Status → List Call × Option ℕ
wait_child [] = ([], none)
wait_child (exited code ∷ later) = (wait (exited code) ∷ [], some 1)
wait_child (signaled signal ∷ later) = (wait (signaled signal) ∷ newline ∷ [], some 1)
wait_child (stopped signal ∷ later) =
    let rest = wait_child later in (wait (stopped signal) ∷ rest.0, rest.1)

-- `bin_exec`, from whether `fork` succeeds.
pub bin_exec : Bool → List Status → List Call × Option ℕ
unfolding wait_child
bin_exec false changes = (fork_error ∷ [], some 1)
bin_exec true changes = wait_child changes

-- A child is gone once it has exited or a signal has ended it.
abbrev pub is_gone : Status → Bool
is_gone (stopped signal) = false
is_gone (exited code) = true
is_gone (signaled signal) = true

abbrev pub some_gone : List Status → Bool
some_gone [] = false
some_gone (change ∷ later) = is_gone change || some_gone later

abbrev pub waits : List Call → List Status
waits [] = []
waits (wait change ∷ calls) = change ∷ waits calls
waits (fork_error ∷ calls) = waits calls
waits (newline ∷ calls) = waits calls

-- The changes up to the first one by which the child is gone.
abbrev pub up_to_gone : List Status → List Status
up_to_gone [] = []
up_to_gone (change ∷ later) = change ∷ (if is_gone change then [] else up_to_gone later)

-- The shell goes on, with the value 1, exactly when the program is gone: it waits through every stop,
-- and takes no report after the first one of an end.
pub bin_exec_lem :
    (changes : List Status)
    → ((bin_exec true changes).1 ≡ (if some_gone changes then some 1 else none))
      × (waits (bin_exec true changes).0 ≡ up_to_gone changes)
unfolding bin_exec wait_child
bin_exec_lem [] = (refl, refl)
bin_exec_lem (exited code ∷ later) = (refl, refl)
bin_exec_lem (signaled signal ∷ later) = (refl, refl)
bin_exec_lem (stopped signal ∷ later) =
    let (e, w) = bin_exec_lem later in (e, ap (λ t. stopped signal ∷ t) w)

-- `getcwd` into a buffer, where the name of the directory has so many bytes: it succeeds and leaves
-- `errno` as it is, or sets it to ERANGE; the flag says whether `errno` is ERANGE.
abbrev pub buffer_step : ℕ
buffer_step = 1024

abbrev pub getcwd_fits : Text → ℕ → Bool
getcwd_fits name size = ltb (length name) size

abbrev pub erange_after : Text → ℕ → Bool → Bool
erange_after name size erange = if getcwd_fits name size then erange else true

-- What comes of `builtin_pwd`: it prints, exits for want of memory, or is still in its loop.
pub data Pwd : Type 0 where
  prints : Text → Pwd
  exits looping : Pwd

-- The `do` loop, for a number of rounds: it ends when `errno` is not ERANGE.
unfoldable pub pwd_loop : Text → (ℕ → Bool) → Bool → ℕ → ℕ → Pwd
pwd_loop name realloc_ok erange size zero = looping
pwd_loop name realloc_ok erange size (suc rounds) =
    let grown = size + buffer_step in
    let erange' = erange_after name grown erange in
    let rest = pwd_loop name realloc_ok erange' grown rounds in
    if realloc_ok grown then (if erange' then rest else prints name) else exits

-- `builtin_pwd`, in a directory that can be read, with `malloc` taken to succeed and `errno` not
-- ERANGE before.
unfoldable pub builtin_pwd : Text → (ℕ → Bool) → ℕ → Pwd
unfolding pwd_loop
builtin_pwd name realloc_ok rounds =
    if getcwd_fits name buffer_step
    then prints name
    else pwd_loop name realloc_ok true buffer_step rounds

erange_stays : (name : Text) (size : ℕ) → erange_after name size true ≡ true
erange_stays name size = ground arith

-- What the loop does about a name that does not fit the first buffer: nothing clears `errno`, so it goes
-- on with ever larger buffers until a `realloc` fails.
abbrev LoopEnds : (ℕ → Bool) → ℕ → ℕ → Pwd → Type 0
LoopEnds realloc_ok size rounds (prints text) = ⊥
LoopEnds realloc_ok size rounds exits =
    (k : ℕ) × (k < rounds) × (realloc_ok (size + buffer_step * (k + 1)) ≡ false)
LoopEnds realloc_ok size rounds looping =
    (k : ℕ) → k < rounds → realloc_ok (size + buffer_step * (k + 1)) ≡ true

later_ok :
    (realloc_ok : ℕ → Bool) (size rounds k : ℕ)
    → realloc_ok (size + buffer_step) ≡ true
    → ((j : ℕ) → j < rounds → realloc_ok (size + buffer_step + buffer_step * (j + 1)) ≡ true)
    → k < suc rounds
    → realloc_ok (size + buffer_step * (k + 1)) ≡ true
later_ok realloc_ok size rounds zero ok h l = ap realloc_ok (omega arith) ∙ ok
later_ok realloc_ok size rounds (suc k) ok h l =
    ap realloc_ok (omega arith) ∙ h k (omega (arith, l))

later-LoopEnds :
    (realloc_ok : ℕ → Bool) (size rounds : ℕ) (p : Pwd)
    → realloc_ok (size + buffer_step) ≡ true
    → LoopEnds realloc_ok (size + buffer_step) rounds p
    → LoopEnds realloc_ok size (suc rounds) p
later-LoopEnds realloc_ok size rounds (prints text) ok h = h
later-LoopEnds realloc_ok size rounds exits ok (k, l, e) =
    (suc k, omega (arith, l), ap realloc_ok (omega arith) ∙ e)
later-LoopEnds realloc_ok size rounds looping ok h = λ k l. later_ok realloc_ok size rounds k ok h l

pwd_loop-LoopEnds :
    (name : Text) (realloc_ok : ℕ → Bool) (size rounds : ℕ)
    → LoopEnds realloc_ok size rounds (pwd_loop name realloc_ok true size rounds)
unfolding pwd_loop
pwd_loop-LoopEnds name realloc_ok size zero = λ k l. absurd (omega (arith, l))
pwd_loop-LoopEnds name realloc_ok size (suc rounds) =
    elim (Bool-cases (realloc_ok (size + buffer_step))) [
      | inl ok ↦
          rw (ok, erange_stays name (size + buffer_step))
            (later-LoopEnds realloc_ok size rounds
              (pwd_loop name realloc_ok true (size + buffer_step) rounds) ok
              (pwd_loop-LoopEnds name realloc_ok (size + buffer_step) rounds))
      | inr refused ↦ rw refused (0, omega arith, ap realloc_ok (omega arith) ∙ refused)
    ]

-- How `pwd` ends, or whether it is still in its loop after so many rounds.
abbrev pub PwdEnds : Text → (ℕ → Bool) → ℕ → Pwd → Type 0
PwdEnds name realloc_ok rounds (prints text) = (text ≡ name) × (length name < buffer_step)
PwdEnds name realloc_ok rounds exits =
    (buffer_step ≤ length name)
    × ((k : ℕ) × (k < rounds) × (realloc_ok (buffer_step + buffer_step * (k + 1)) ≡ false))
PwdEnds name realloc_ok rounds looping =
    (buffer_step ≤ length name)
    × ((k : ℕ) → k < rounds → realloc_ok (buffer_step + buffer_step * (k + 1)) ≡ true)

looped-PwdEnds :
    (name : Text) (realloc_ok : ℕ → Bool) (rounds : ℕ) (p : Pwd)
    → buffer_step ≤ length name
    → LoopEnds realloc_ok buffer_step rounds p
    → PwdEnds name realloc_ok rounds p
looped-PwdEnds name realloc_ok rounds (prints text) l h = absurd h
looped-PwdEnds name realloc_ok rounds exits l h = (l, h)
looped-PwdEnds name realloc_ok rounds looping l h = (l, h)

-- In a directory that can be read, with `errno` not ERANGE before: `pwd` prints the name if it is
-- shorter than the first buffer of 1024 bytes. For any longer name it never prints: it exits once a
-- `realloc` fails, and as long as none of the ever larger ones does it is still in its loop.
pub builtin_pwd-PwdEnds :
    (name : Text) (realloc_ok : ℕ → Bool) (rounds : ℕ)
    → PwdEnds name realloc_ok rounds (builtin_pwd name realloc_ok rounds)
unfolding builtin_pwd
builtin_pwd-PwdEnds name realloc_ok rounds =
    if_elim (PwdEnds name realloc_ok rounds) (getcwd_fits name buffer_step)
      (λ e. (refl, ground (arith, e)))
      (λ e.
        looped-PwdEnds name realloc_ok rounds (pwd_loop name realloc_ok true buffer_step rounds)
          (ground (arith, e)) (pwd_loop-LoopEnds name realloc_ok buffer_step rounds))

-- `builtin_help`: its output, with the value that it returns.
pub help_lines : List Text → Text
help_lines [] = []
help_lines (name ∷ names) = codes "    " ++ (name ++ (codes "\n" ++ help_lines names))

pub builtin_help : List Text × ℕ
unfolding help_lines
builtin_help = (codes "Built in commands:\n" ∷ help_lines (map (λ b. b.0) builtins) ∷ [], 1)
