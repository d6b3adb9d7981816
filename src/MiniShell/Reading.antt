-- ===== src/MiniShell/Reading.antt =====
-- The buffer of `readline` in projects/ipc/mini-shell/main.c, and the line that it reads.
use c_systems_programming.Common.{
  ℕ, ◌+◌, ◌≤◌, ◌<◌, ◌≡◌, refl, sym, List, [], ◌∷◌, ◌++◌, Bool, true, false, some, none, Text, ltb,
  leb, ◌==◌, if◌then◌else◌, length, arith, if_elim, Bool-cases, inl, inr, ◌⊎◌, length-append,
  append-nil, append_assoc,
}
use c_systems_programming.MiniShell.{
  grow, Line, line, overflow, exits, finish, read_chars, readline,
}

-- The first line of the input, and the input behind it.
abbrev pub first_line : List ℕ → Text
first_line [] = []
first_line (c ∷ rest) = let more = first_line rest in if c == b'\n' then [] else c ∷ more

abbrev pub other_lines : List ℕ → List ℕ
other_lines [] = []
other_lines (c ∷ rest) = let more = other_lines rest in if c == b'\n' then rest else more

-- What `readline` returns: the line, or exit where a `realloc` may fail.
abbrev pub Reads : (ℕ → Bool) → Text → List ℕ → Line → Type 0
Reads realloc_ok text rest (line text' rest') = (text' ≡ text) × (rest' ≡ rest)
Reads realloc_ok text rest exits = (size : ℕ) × (realloc_ok size ≡ false)
Reads realloc_ok text rest overflow = ⊥

finish-Reads :
    (realloc_ok : ℕ → Bool) (size : ℕ) (text rest : List ℕ)
    → length text < size
    → Reads realloc_ok text rest (finish size text rest)
unfolding finish
finish-Reads realloc_ok size text rest h =
    if_elim (Reads realloc_ok text rest) (ltb (length text) size) (λ e. (refl, refl))
      (λ e. ground (arith, e, h))

-- A buffer that has been grown holds the next position.
grow-cases :
    (realloc_ok : ℕ → Bool) (step size position : ℕ)
    → 1 ≤ step
    → position ≤ size
    → ((size' : ℕ) × (grow realloc_ok step size position ≡ some size') × (position < size'))
      ⊎ ((size' : ℕ) × (grow realloc_ok step size position ≡ none) × (realloc_ok size' ≡ false))
unfolding grow
grow-cases realloc_ok step size position s h = elim (Bool-cases (leb size position)) [
  | inl full ↦ elim (Bool-cases (realloc_ok (size + step))) [
    | inl got ↦ inl (size + step, rw (full, got) refl, omega (arith, s, h))
    | inr refused ↦ inr (size + step, rw (full, refused) refl, refused)
  ]
  | inr room ↦ inl (size, rw room refl, ground (arith, room))
]

read_chars-Reads :
    (realloc_ok : ℕ → Bool) (size : ℕ) (text input : List ℕ)
    → length text < size
    → Reads realloc_ok
        (text ++ first_line input)
        (other_lines input)
        (read_chars realloc_ok size text input)
unfolding read_chars
read_chars-Reads realloc_ok size text [] h =
    rw (append-nil text) (finish-Reads realloc_ok size text [] h)
read_chars-Reads realloc_ok size text (c ∷ rest) h = elim (Bool-cases (c == b'\n')) [
  | inl end ↦ rw (end, append-nil text) (finish-Reads realloc_ok size text rest h)
  | inr inside ↦
      let room : ltb (length text) size ≡ true = ground (arith, h) in
      elim (grow-cases realloc_ok 1024 size (length text + 1) (omega arith) (omega (arith, h))) [
        | inl (size', g, lt) ↦
            rw (inside, room, g, sym (append_assoc text (c ∷ []) (first_line rest)))
              (read_chars-Reads realloc_ok size' (text ++ (c ∷ [])) rest
                (omega (arith, lt, length-append text (c ∷ []))))
        | inr (size', g, refused) ↦ rw (inside, room, g) (size', refused)
      ]
]

-- `readline` never writes outside its buffer, however long the line is: it returns the first line
-- of the input without its newline and leaves the rest, or it exits, and then a realloc failed.
pub readline-Reads :
    (realloc_ok : ℕ → Bool) (input : List ℕ)
    → Reads realloc_ok (first_line input) (other_lines input) (readline realloc_ok input)
unfolding readline
readline-Reads realloc_ok input = read_chars-Reads realloc_ok 1024 [] input (omega arith)
