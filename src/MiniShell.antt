-- ===== src/MiniShell.antt =====
-- projects/ipc/mini-shell/main.c: reading a line, cutting it into tokens, and running it. Whether
-- each `realloc` succeeds is an input; the first allocations are taken to succeed. `buffer_size` and
-- `position`, an `int` each in the code, are unbounded here, so lines are taken to be shorter than
-- 2 ^ 31 - 1024 bytes.
pub mod Reading
pub mod Cutting
pub mod Loop
pub mod Commands
pub mod Typed
mod Tests
use c_systems_programming.Common.{
  ℕ, zero, suc, ◌+◌, ◌*◌, List, [], ◌∷◌, ◌++◌, Bool, true, false, Option, some, none, Text, codes,
  ltb, leb, ◌==◌, ◌||◌, if◌then◌else◌, length, text_eq, c_string,
}

-- Growing a buffer by `step` when the next position is outside: `none` is a `realloc` that failed.
pub grow : (ℕ → Bool) → ℕ → ℕ → ℕ → Option ℕ
grow realloc_ok step size position =
    if leb size position
    then (if realloc_ok (size + step) then some (size + step) else none)
    else some size

-- What `readline` returns, with the input that is left; or a write outside the buffer; or `exit(1)`.
pub data Line : Type 0 where
  line : Text → List ℕ → Line
  overflow exits : Line

-- The write of the terminating NUL.
pub finish : ℕ → Text → List ℕ → Line
finish size text rest = if ltb (length text) size then line text rest else overflow

-- The loop of `readline`; the text is what the buffer holds up to `position`.
pub read_chars : (ℕ → Bool) → ℕ → Text → List ℕ → Line
unfolding finish grow
read_chars realloc_ok size text [] = finish size text []
read_chars realloc_ok size text (c ∷ rest) =
    if c == b'\n'
    then finish size text rest
    else if ltb (length text) size
    then elim (grow realloc_ok 1024 size (length text + 1)) [
      | none ↦ exits
      | some size' ↦ read_chars realloc_ok size' (text ++ (c ∷ [])) rest
    ]
    else overflow

pub readline : (ℕ → Bool) → List ℕ → Line
unfolding read_chars
readline realloc_ok input = read_chars realloc_ok 1024 [] input

-- The tokens that the calls of `strtok` give, with the token that is open.
abbrev pub is_delimiter : ℕ → Bool
is_delimiter c = (c == 32) || ((c == 9) || ((c == 13) || (c == 10)))

abbrev pub close_token : Text → List Text → List Text
close_token [] more = more
close_token (c ∷ cs) more = (c ∷ cs) ∷ more

abbrev pub strtok : Text → Text → List Text
strtok token [] = close_token token []
strtok token (c ∷ cs) =
    let next = strtok [] cs in
    let same = strtok (token ++ (c ∷ [])) cs in
    if is_delimiter c then close_token token next else same

-- What `tokenize` returns; or a write outside the array; or `exit(1)`.
pub data Tokens : Type 0 where
  tokens : List Text → Tokens
  overflow exits : Tokens

-- A pointer of 8 bytes fits at a position of an array of so many bytes.
pub has_room : ℕ → ℕ → Bool
has_room size position = leb (position * 8 + 8) size

-- The loop of `tokenize`: `size` counts bytes, as `malloc` and `realloc` take it.
pub store_tokens : (ℕ → Bool) → ℕ → List Text → List Text → Tokens
unfolding has_room grow
store_tokens realloc_ok size stored [] =
    if has_room size (length stored) then tokens stored else Tokens.overflow
store_tokens realloc_ok size stored (token ∷ more) =
    if has_room size (length stored)
    then elim (grow realloc_ok 64 size (length stored + 1)) [
      | none ↦ Tokens.exits
      | some size' ↦ store_tokens realloc_ok size' (stored ++ (token ∷ [])) more
    ]
    else Tokens.overflow

pub tokenize : (ℕ → Bool) → Text → Tokens
unfolding store_tokens
tokenize realloc_ok text = store_tokens realloc_ok 64 [] (strtok [] (c_string text))

-- What a command does: nothing, a built-in command, or a program.
pub data Action : Type 0 where
  nothing no_argument help exit pwd : Action
  chdir : Text → Action
  program : List Text → Action

-- The built-in commands, with the value that they return.
pub builtin_cd : List Text → Action × ℕ
builtin_cd [] = (no_argument, 1)
builtin_cd (name ∷ []) = (no_argument, 1)
builtin_cd (name ∷ (target ∷ more)) = (chdir target, 1)

abbrev pub builtin_exit : List Text → Action × ℕ
builtin_exit args = (exit, 0)

abbrev pub Builtin : Type 0
Builtin = Text × (List Text → Action × ℕ)

-- `builtin` and `builtin_func`.
pub builtins : List Builtin
unfolding builtin_cd
builtins =
    (codes "cd", builtin_cd)
    ∷ (codes "help", λ args. (help, 1))
    ∷ (codes "exit", builtin_exit)
    ∷ (codes "pwd", λ args. (pwd, 1))
    ∷ []

-- The loop of `execute` over the table; a program returns 1 whatever its fate.
pub find_builtin : List Builtin → Text → List Text → Action × ℕ
find_builtin [] name args = (program args, 1)
find_builtin ((key, run) ∷ more) name args =
    let later = find_builtin more name args in if text_eq name key then run args else later

pub execute : List Text → Action × ℕ
unfolding builtins find_builtin
execute [] = (nothing, 1)
execute (name ∷ more) = find_builtin builtins name (name ∷ more)

-- How some rounds of `interpret` end: all done with the input left, stopped by `exit`, a write out
-- of bounds, or `exit(1)`.
pub data End : Type 0 where
  running : List ℕ → End
  stopped crashed failed : End

abbrev pub first_action : Action × ℕ → List Action × End → List Action × End
first_action (action, zero) later = (action ∷ [], stopped)
first_action (action, suc n) (actions, end) = (action ∷ actions, end)

abbrev pub run_tokens : Tokens → List Action × End → List Action × End
unfolding execute
run_tokens (tokens args) later = first_action (execute args) later
run_tokens Tokens.overflow later = ([], crashed)
run_tokens Tokens.exits later = ([], failed)

-- One round, from the line that was read; `later` is the loop on the input that is left.
pub run_line : (ℕ → Bool) → (List ℕ → List Action × End) → Line → List Action × End
unfolding tokenize
run_line realloc_ok later (line text rest) = run_tokens (tokenize realloc_ok text) (later rest)
run_line realloc_ok later Line.overflow = ([], crashed)
run_line realloc_ok later Line.exits = ([], failed)

-- `interpret`, for a number of rounds.
pub interpret : (ℕ → Bool) → ℕ → List ℕ → List Action × End
unfolding run_line readline
interpret realloc_ok zero input = ([], running input)
interpret realloc_ok (suc rounds) input =
    run_line realloc_ok (λ rest. interpret realloc_ok rounds rest) (readline realloc_ok input)
