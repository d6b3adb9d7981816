-- ===== src/MiniShell/Tests.antt =====
-- Runs of projects/ipc/mini-shell/main.c, and its theorems at small inputs.
use c_systems_programming.Common.{
  ℕ, ◌≡◌, refl, List, [], ◌∷◌, Bool, true, codes, c_string, All, Text, replicate, leb, arith,
}
use c_systems_programming.MiniShell.{
  Tokens, strtok, tokenize, readline, read_chars, finish, grow, store_tokens, has_room, nothing,
  chdir, exit, program, stopped, builtin_cd, builtins, find_builtin, execute, run_tokens, run_line,
  interpret,
}
use c_systems_programming.MiniShell.Commands.{
  exits, pwd_loop, builtin_pwd, PwdEnds, builtin_pwd-PwdEnds,
}
use c_systems_programming.MiniShell.Reading.{first_line, other_lines, Reads, readline-Reads}
use c_systems_programming.MiniShell.Cutting.{bounded}
use c_systems_programming.MiniShell.Loop.{interpret_line}
use c_systems_programming.MiniShell.Typed.{session, perform, IsCommand, interpret-session}

abbrev always : ℕ → Bool
always size = true

abbrev script : List ℕ
script = codes "  cd\t/tmp \n\nls -l\nexit now\nhelp\n"

script-runs :
    interpret always 9 script
    ≡ (chdir (codes "/tmp") ∷ nothing ∷ program (codes "ls" ∷ codes "-l" ∷ []) ∷ exit ∷ [], stopped)
unfolding interpret run_line run_tokens readline read_chars finish grow tokenize store_tokens
    has_room execute builtins find_builtin builtin_cd
script-runs = refl

readline-Reads_example :
    Reads always (first_line script) (other_lines script) (readline always script)
readline-Reads_example = readline-Reads always script

-- Eight tokens do not fit.
eight_tokens : tokenize always (codes "a b c d e f g h") ≡ Tokens.overflow
unfolding tokenize store_tokens has_room grow
eight_tokens = refl

interpret_line_example :
    interpret always 3 script
    ≡ run_tokens
        (bounded (strtok [] (c_string (first_line script))))
        (interpret always 2 (other_lines script))
interpret_line_example = interpret_line always 2 script (λ size. refl)

-- A `realloc` that gives 2048 bytes and no more.
abbrev up_to_2048 : ℕ → Bool
up_to_2048 size = leb size 2048

-- The name of a directory that does not fit the first buffer.
builtin_pwd-PwdEnds_example :
    PwdEnds (replicate 1500 b'd') up_to_2048 3 (builtin_pwd (replicate 1500 b'd') up_to_2048 3)
builtin_pwd-PwdEnds_example = builtin_pwd-PwdEnds (replicate 1500 b'd') up_to_2048 3

-- The shell exits although the second buffer is large enough.
pwd_exits : builtin_pwd (replicate 1500 b'd') up_to_2048 3 ≡ exits
unfolding builtin_pwd pwd_loop
pwd_exits = refl

-- Two commands, the second of which is not reached.
abbrev commands : List (List Text)
commands = (codes "exit" ∷ []) ∷ (codes "ls" ∷ codes "-l" ∷ []) ∷ []

commands-IsCommand : All IsCommand commands
commands-IsCommand = ground arith

interpret-session_example :
    interpret always 2 (session commands (codes "rest")) ≡ perform commands (codes "rest")
interpret-session_example =
    interpret-session always commands (codes "rest") (λ size. refl) commands-IsCommand
