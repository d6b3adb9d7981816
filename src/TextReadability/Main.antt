-- ===== src/TextReadability/Main.antt =====
-- `main` and `print` of tools/text-readability/main.c. The formula of the index, which is computed in
-- floating point, is a parameter.
use c_systems_programming.Common.{
  ℕ, zero, suc, ◌+◌, ◌-◌, ◌<◌, ◌≡◌, ◌≢◌, refl, sym, ap, ◌∙◌, [], ◌∷◌, ◌++◌, Bool, true, false,
  Option, some, none, Text, ltb, leb, ◌==◌, ◌&&◌, if◌then◌else◌, arith, replicate, c_string, NoNul,
  c_string_self, min,
}
use c_systems_programming.Common.CLib.{ℤ, pos, negsuc}
use c_systems_programming.TextReadability.{Counts, parser, float_max, out_word}
use c_systems_programming.TextReadability.Words.{
  is_space, letters_of, pieces, count_words, parser-letters, parser-words,
}
use c_systems_programming.TextReadability.Sentences.{collapse, marks, parser-sentences}

-- The loop that drops the newlines at the end.
abbrev keep_byte : ℕ → Text → Text
keep_byte c [] = if c == b'\n' then [] else c ∷ []
keep_byte c (d ∷ rest) = c ∷ d ∷ rest

unfoldable pub trim : Text → Text
trim [] = []
trim (c ∷ cs) = keep_byte c (trim cs)

abbrev pub start : ℕ → Counts
start state = record { letters = 0; words = 1; sentences = 0; state = state }

-- The message that `print` gives for an index: one of its texts, an entry of `grades`, or the number
-- in `%dth grade`.
pub data Grade : Type 0 where
  kindergarten primary sixteen_up : Grade
  listed numbered : ℕ → Grade

unfoldable pub print : ℤ → Grade
print (negsuc n) = kindergarten
print (pos index) =
    if ltb index 1
    then kindergarten
    else if leb index 6
    then primary
    else if leb 7 index && leb index 12
    then listed (index - 7)
    else if ltb index 16
    then numbered index
    else sixteen_up

-- `main`: the exit status 1, or the message for the index of the counts. The input is the argument
-- and the contents of the file, where there are any, and whether `malloc` succeeds.
module _ (formula : ℕ → ℕ → ℕ → ℤ) (state : ℕ) where
  unfoldable pub grade_of : Text → Grade
  unfolding print
  grade_of text =
      let r = parser none text (start state) in print (formula r.letters r.words r.sentences)

  unfoldable pub readability_main : Bool → Option (Option Text) → Option Grade
  unfolding trim
  readability_main malloc_ok none = none
  readability_main malloc_ok (some none) = none
  readability_main malloc_ok (some (some file)) =
      if malloc_ok then some (grade_of (c_string (trim file))) else none

-- `print` uses an entry of `grades` for the indices from 7 to 12 only, so it stays in the array.
pub print-listed : (index : ℤ) (k : ℕ) → print index ≡ listed k → (index ≡ pos (k + 7)) × (k < 6)
unfolding print
print-listed (negsuc n) k e = cc
print-listed (pos index) k e = ground arith

trim-replicate : (k : ℕ) → trim (replicate k b'\n') ≡ []
unfolding trim
trim-replicate zero = refl
trim-replicate (suc k) = rw (trim-replicate k) refl

trim-append :
    (front : Text) (c k : ℕ)
    → c ≢ b'\n'
    → trim ((front ++ (c ∷ [])) ++ replicate k b'\n') ≡ front ++ (c ∷ [])
unfolding trim
trim-append [] c k ne = rw (trim-replicate k) (ground (arith, ne))
trim-append (d ∷ []) c k ne = rw (trim-append [] c k ne) refl
trim-append (d ∷ (f ∷ fs)) c k ne = rw (trim-append (f ∷ fs) c k ne) refl

-- For a file without NUL that starts with a word and ends in any number of newlines behind another
-- character, the index is computed from the letters of the text, the pieces between white space
-- that are words, and the marks !, ? and . behind the first character, where a repeated mark counts
-- once; each up to 2 ^ 24, and with one word more if the uninitialised `state` holds OUT_WORD.
pub readability_main-counts :
    (formula : ℕ → ℕ → ℕ → ℤ) (state c last k : ℕ) (cs front : Text)
    → c ∷ cs ≡ front ++ (last ∷ [])
    → last ≢ b'\n'
    → NoNul (c ∷ cs)
    → is_space c ≡ false
    → readability_main formula state true (some (some ((c ∷ cs) ++ replicate k b'\n')))
      ≡ some (
          print (
            formula
              (min float_max (letters_of (c ∷ cs)))
              (min float_max
                ((if state == out_word then 1 else 0) + count_words (pieces [] (c ∷ cs))))
              (min float_max (marks (collapse c cs)))))
unfolding readability_main grade_of
readability_main-counts formula state c last k cs front e ne nul word =
    ap (λ t. some (grade_of formula state t)) read
    ∙ rw (letters, parser-words state c cs word, parser-sentences state c cs) refl
  where
    kept : trim ((c ∷ cs) ++ replicate k b'\n') ≡ c ∷ cs
    kept = ap (λ t. trim (t ++ replicate k b'\n')) e ∙ trim-append front last k ne ∙ sym e

    read : c_string (trim ((c ∷ cs) ++ replicate k b'\n')) ≡ c ∷ cs
    read = ap c_string kept ∙ c_string_self (c ∷ cs) nul

    none_before : 0 + letters_of (c ∷ cs) ≡ letters_of (c ∷ cs)
    none_before = omega arith

    letters : (parser none (c ∷ cs) (start state)).letters ≡ min float_max (letters_of (c ∷ cs))
    letters =
        parser-letters none (c ∷ cs) (start state) (omega arith) ∙ ap (min float_max) none_before
