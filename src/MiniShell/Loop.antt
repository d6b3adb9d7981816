-- ===== src/MiniShell/Loop.antt =====
-- `interpret` and `execute` of projects/ipc/mini-shell/main.c.
use c_systems_programming.Common.{
  ℕ, zero, suc, ◌≡◌, ◌↔◌, refl, ap, ap₂, ◌∙◌, List, [], ◌∷◌, Bool, true, Text, codes, text_eq, ◌==◌,
  ==_iff, replicate, arith, if_elim, Bool-cases, inl, inr, c_string,
}
use c_systems_programming.MiniShell.{
  Line, line, strtok, readline, Action, nothing, builtins, find_builtin, builtin_cd, execute,
  running, run_tokens, first_action, run_line, interpret,
}
use c_systems_programming.MiniShell.Reading.{first_line, other_lines, Reads, readline-Reads}
use c_systems_programming.MiniShell.Cutting.{bounded, tokenize_lem}

readline-line :
    (realloc_ok : ℕ → Bool) (text : Text) (rest : List ℕ) (r : Line)
    → ((size : ℕ) → realloc_ok size ≡ true)
    → Reads realloc_ok text rest r
    → r ≡ line text rest
readline-line realloc_ok text rest (line t s) ok h = ap₂ line h.0 h.1
readline-line realloc_ok text rest Line.overflow ok h = absurd h
readline-line realloc_ok text rest Line.exits ok (size, e) = cc (e, ok size)

-- While realloc succeeds, each round of the loop takes the next line of the input, whatever its
-- length, and runs the tokens of its text up to the first NUL; more than seven tokens are written
-- outside their array.
pub interpret_line :
    (realloc_ok : ℕ → Bool) (rounds : ℕ) (input : List ℕ)
    → ((size : ℕ) → realloc_ok size ≡ true)
    → interpret realloc_ok (suc rounds) input
      ≡ run_tokens
          (bounded (strtok [] (c_string (first_line input))))
          (interpret realloc_ok rounds (other_lines input))
unfolding interpret run_line
interpret_line realloc_ok rounds input ok =
    ap (run_line realloc_ok (λ rest. interpret realloc_ok rounds rest)) (
      readline-line realloc_ok (first_line input) (other_lines input) (readline realloc_ok input) ok
        (readline-Reads realloc_ok input))
    ∙ ap (λ t. run_tokens t (interpret realloc_ok rounds (other_lines input)))
        (tokenize_lem realloc_ok (first_line input))

-- At the end of the input the loop runs for ever: every round reads an empty line and does nothing.
pub interpret_end :
    (realloc_ok : ℕ → Bool) (rounds : ℕ)
    → ((size : ℕ) → realloc_ok size ≡ true)
    → interpret realloc_ok rounds [] ≡ (replicate rounds nothing, running [])
unfolding interpret execute
interpret_end realloc_ok zero ok = refl
interpret_end realloc_ok (suc rounds) ok =
    interpret_line realloc_ok rounds [] ok
    ∙ ap (first_action (nothing, 1)) (interpret_end realloc_ok rounds ok)

text_eq-same : (a b : Text) → text_eq a b ≡ true → a ≡ b
text_eq-same [] [] e = refl
text_eq-same [] (y ∷ ys) e = cc
text_eq-same (x ∷ xs) [] e = cc
text_eq-same (x ∷ xs) (y ∷ ys) e = elim (Bool-cases (x == y)) [
  | inl same ↦ ap₂ (λ c cs. c ∷ cs) ((==_iff x y).0 same) (text_eq-same xs ys (rw same at e))
  | inr other ↦ cc (rw other at e)
]

builtin_cd-continues : (args : List Text) → (builtin_cd args).1 ≡ 1
unfolding builtin_cd
builtin_cd-continues [] = refl
builtin_cd-continues (name ∷ []) = refl
builtin_cd-continues (name ∷ (target ∷ more)) = refl

abbrev Stops : Text → Action × ℕ → Type 0
Stops name r = r.1 ≡ 0 → name ≡ codes "exit"

-- A command ends the shell exactly if its first token is exit.
pub execute_stops :
    (name : Text) (more : List Text) → ((execute (name ∷ more)).1 ≡ 0) ↔ (name ≡ codes "exit")
unfolding execute builtins find_builtin
execute_stops name more = (
  if_elim (Stops name) (text_eq name (codes "cd"))
      (λ e z. absurd (omega (arith, z, builtin_cd-continues (name ∷ more))))
      (λ e.
        if_elim (Stops name) (text_eq name (codes "help")) (λ f z. absurd (omega (arith, z)))
          (λ f.
            if_elim (Stops name) (text_eq name (codes "exit"))
              (λ g z. text_eq-same name (codes "exit") g)
              (λ g.
                if_elim (Stops name) (text_eq name (codes "pwd")) (λ h z. absurd (omega (arith, z)))
                  (λ h z. absurd (omega (arith, z)))))),
  λ e. rw e refl,
)
