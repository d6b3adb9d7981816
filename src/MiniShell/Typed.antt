-- ===== src/MiniShell/Typed.antt =====
-- What projects/ipc/mini-shell/main.c makes of a command that is typed word by word.
use c_systems_programming.Common.{
  ℕ, suc, ◌≤◌, ◌≡◌, ◌≢◌, refl, sym, ap, ap₂, ◌∙◌, List, [], ◌∷◌, ◌++◌, append-nil, append_assoc,
  Bool, true, false, Text, NoNul, c_string, c_string_self, All, All-append, length, leb,
  if◌then◌else◌, arith,
}
use c_systems_programming.MiniShell.{
  is_delimiter, close_token, strtok, Tokens, tokens, execute, Action, End, running, run_tokens,
  first_action, interpret,
}
use c_systems_programming.MiniShell.Reading.{first_line, other_lines}
use c_systems_programming.MiniShell.Cutting.{bounded}
use c_systems_programming.MiniShell.Loop.{interpret_line}

-- A word that can be typed: it is not empty, and has no white space and no NUL.
abbrev pub IsPlain : ℕ → Type 0
IsPlain c = (is_delimiter c ≡ false) × (c ≢ 0)

abbrev pub IsWord : Text → Type 0
IsWord word = (word ≢ []) × All IsPlain word

-- The words of a command, with a space between them.
abbrev pub spaced : List Text → Text
spaced [] = []
spaced (word ∷ words) = 32 ∷ (word ++ spaced words)

abbrev pub typed : List Text → Text
typed [] = []
typed (word ∷ words) = word ++ spaced words

close_token-word :
    (word : Text) (more : List Text) → word ≢ [] → close_token word more ≡ word ∷ more
close_token-word [] more h = absurd (h refl)
close_token-word (c ∷ cs) more h = refl

strtok-plain :
    (token word rest : Text)
    → All IsPlain word
    → strtok token (word ++ rest) ≡ strtok (token ++ word) rest
strtok-plain token [] rest h = ap (λ t. strtok t rest) (sym (append-nil token))
strtok-plain token (c ∷ cs) rest h = rw (h.0.0) (
    strtok-plain (token ++ (c ∷ [])) cs rest h.1
    ∙ ap (λ t. strtok t rest) (append_assoc token (c ∷ []) cs))

strtok-spaced :
    (word : Text) (words : List Text)
    → word ≢ []
    → All IsWord words
    → strtok word (spaced words) ≡ word ∷ words
strtok-spaced word [] h k = close_token-word word [] h
strtok-spaced word (next ∷ words) h k =
    ap (close_token word)
      (strtok-plain [] next (spaced words) k.0.1 ∙ strtok-spaced next words k.0.0 k.1)
    ∙ close_token-word word (next ∷ words) h

-- `strtok` finds the words again.
strtok-typed : (words : List Text) → All IsWord words → strtok [] (typed words) ≡ words
strtok-typed [] h = refl
strtok-typed (word ∷ words) h =
    strtok-plain [] word (spaced words) h.0.1 ∙ strtok-spaced word words h.0.0 h.1

-- What is typed holds no newline and no NUL.
abbrev IsTyped : ℕ → Type 0
IsTyped c = (c ≢ 10) × (c ≢ 0)

plain-IsTyped : (word : Text) → All IsPlain word → All IsTyped word
plain-IsTyped [] h = tt
plain-IsTyped (c ∷ cs) h = ((λ e. absurd (ground (arith, e, h.0.0)), h.0.1), plain-IsTyped cs h.1)

spaced-IsTyped : (words : List Text) → All IsWord words → All IsTyped (spaced words)
spaced-IsTyped [] h = tt
spaced-IsTyped (word ∷ words) h = (
  (λ e. omega (arith, e), λ e. omega (arith, e)),
  All-append IsTyped word (spaced words) (plain-IsTyped word h.0.1) (spaced-IsTyped words h.1),
)

typed-IsTyped : (words : List Text) → All IsWord words → All IsTyped (typed words)
typed-IsTyped [] h = tt
typed-IsTyped (word ∷ words) h =
    All-append IsTyped word (spaced words) (plain-IsTyped word h.0.1) (spaced-IsTyped words h.1)

typed-NoNul : (text : Text) → All IsTyped text → NoNul text
typed-NoNul [] h = tt
typed-NoNul (c ∷ cs) h = (h.0.1, typed-NoNul cs h.1)

-- The line ends where it was ended.
first_line-typed : (text rest : Text) → All IsTyped text → first_line (text ++ (10 ∷ rest)) ≡ text
first_line-typed [] rest h = refl
first_line-typed (c ∷ cs) rest h = ground (arith, h.0.0, first_line-typed cs rest h.1)

other_lines-typed : (text rest : Text) → All IsTyped text → other_lines (text ++ (10 ∷ rest)) ≡ rest
other_lines-typed [] rest h = refl
other_lines-typed (c ∷ cs) rest h = ground (arith, h.0.0, other_lines-typed cs rest h.1)

interpret-typed :
    (realloc_ok : ℕ → Bool) (rounds : ℕ) (words : List Text) (rest : List ℕ)
    → ((size : ℕ) → realloc_ok size ≡ true)
    → All IsWord words
    → length words ≤ 7
    → interpret realloc_ok (suc rounds) (typed words ++ (10 ∷ rest))
      ≡ first_action (execute words) (interpret realloc_ok rounds rest)
unfolding run_tokens
interpret-typed realloc_ok rounds words rest ok h l =
    let t = typed-IsTyped words h in
    let fits : leb (length words) 7 ≡ true = ground (arith, l) in
    interpret_line realloc_ok rounds (typed words ++ (10 ∷ rest)) ok
    ∙ ap₂
        (λ text more.
          run_tokens (bounded (strtok [] (c_string text))) (interpret realloc_ok rounds more))
        (first_line-typed (typed words) rest t) (other_lines-typed (typed words) rest t)
    ∙ ap (λ text. run_tokens (bounded (strtok [] text)) (interpret realloc_ok rounds rest))
        (c_string_self (typed words) (typed-NoNul (typed words) t))
    ∙ ap (λ tokens. run_tokens (bounded tokens) (interpret realloc_ok rounds rest))
        (strtok-typed words h)
    ∙ ap
        (λ fits.
          run_tokens (if fits then tokens words else Tokens.overflow)
            (interpret realloc_ok rounds rest))
        fits

-- The input of a session, with a line for each command.
abbrev pub session : List (List Text) → List ℕ → List ℕ
session [] rest = rest
session (words ∷ commands) rest = typed words ++ (10 ∷ session commands rest)

-- What the commands do, one after the other, up to one that ends the shell.
abbrev pub perform : List (List Text) → List ℕ → List Action × End
perform [] rest = ([], running rest)
perform (words ∷ commands) rest = first_action (execute words) (perform commands rest)

-- A command of at most seven words.
abbrev pub IsCommand : List Text → Type 0
IsCommand words = All IsWord words × (length words ≤ 7)

-- While realloc succeeds, a session of commands, each of at most seven words without white space or
-- NUL, typed with a space between them and a newline behind, is executed command by command with
-- exactly these words as the arguments, up to the first command that ends the shell; the input behind
-- the last newline is left.
pub interpret-session :
    (realloc_ok : ℕ → Bool) (commands : List (List Text)) (rest : List ℕ)
    → ((size : ℕ) → realloc_ok size ≡ true)
    → All IsCommand commands
    → interpret realloc_ok (length commands) (session commands rest) ≡ perform commands rest
unfolding interpret
interpret-session realloc_ok [] rest ok h = refl
interpret-session realloc_ok (words ∷ commands) rest ok h =
    interpret-typed realloc_ok (length commands) words (session commands rest) ok h.0.0 h.0.1
    ∙ ap (first_action (execute words)) (interpret-session realloc_ok commands rest ok h.1)
