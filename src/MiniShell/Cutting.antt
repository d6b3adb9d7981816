-- ===== src/MiniShell/Cutting.antt =====
-- The array of `tokenize` in projects/ipc/mini-shell/main.c.
use c_systems_programming.Common.{
  ℕ, ◌+◌, ◌*◌, ◌≤◌, ◌≡◌, ap, ◌∙◌, List, [], ◌∷◌, ◌++◌, Bool, false, Text, leb, if◌then◌else◌,
  length, arith, Bool-cases, inl, inr, length-append, append-nil, append_assoc, c_string,
}
use c_systems_programming.MiniShell.{grow, strtok, Tokens, tokens, has_room, store_tokens, tokenize}

-- An array of 64 bytes, for eight pointers.
abbrev pub bounded : List Text → Tokens
bounded all = if leb (length all) 7 then tokens all else Tokens.overflow

store_tokens-bounded :
    (realloc_ok : ℕ → Bool) (stored more : List Text)
    → length stored ≤ 8
    → store_tokens realloc_ok 64 stored more ≡ bounded (stored ++ more)
unfolding store_tokens has_room grow
store_tokens-bounded realloc_ok stored [] h = rw (append-nil stored) (ground arith)
store_tokens-bounded realloc_ok stored (token ∷ more) h =
    elim (Bool-cases (leb (length stored * 8 + 8) 64)) [
      | inl fits ↦
          let same : leb 64 (length stored + 1) ≡ false = ground (arith, fits) in
          let short : length (stored ++ (token ∷ [])) ≤ 8 =
            ground (arith, fits, length-append stored (token ∷ [])) in
          rw (fits, same)
            (store_tokens-bounded realloc_ok (stored ++ (token ∷ [])) more short
              ∙ ap bounded (append_assoc stored (token ∷ []) more))
      | inr full ↦ rw full (ground (arith, full, length-append stored (token ∷ more)))
    ]

-- For a line of at most seven tokens, `tokenize` returns what strtok finds. For one more it writes
-- outside its array, whatever realloc does.
pub tokenize_lem :
    (realloc_ok : ℕ → Bool) (text : Text)
    → tokenize realloc_ok text ≡ bounded (strtok [] (c_string text))
unfolding tokenize
tokenize_lem realloc_ok text =
    store_tokens-bounded realloc_ok [] (strtok [] (c_string text)) (omega arith)
