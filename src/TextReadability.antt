-- ===== src/TextReadability.antt =====
-- tools/text-readability/main.c: the counts that its index is made of, and what it prints for one.
pub mod Words
pub mod Sentences
pub mod Main
mod Tests
use c_systems_programming.Common.{
  ℕ, zero, suc, ◌+◌, ◌^◌, List, [], ◌∷◌, ◌++◌, Bool, true, false, Option, some, none, Text, ltb,
  leb, ◌==◌, not, ◌&&◌, ◌||◌, if◌then◌else◌,
}

-- `isalpha` and `isblank` in the C locale; the bytes from 128 on are neither.
abbrev pub is_alpha : ℕ → Bool
is_alpha c = (leb 65 c && leb c 90) || (leb 97 c && leb c 122)

abbrev pub is_blank : ℕ → Bool
is_blank c = (c == 32) || (c == 9)

-- `(*x)++` of a `float` that holds a count: from 2 ^ 24 on, adding one is rounded away.
abbrev pub float_max : ℕ
float_max = 16777216

abbrev pub float_suc : ℕ → ℕ
float_suc x = if ltb x float_max then x + 1 else x

-- IN_WORD and OUT_WORD; `state` starts uninitialised, so it may be any number.
abbrev pub in_word : ℕ
in_word = 1

abbrev pub out_word : ℕ
out_word = 0

-- The locals of `parser`.
pub record Counts : Type 0 where
  pub letters : ℕ
  pub words : ℕ
  pub sentences : ℕ
  pub state : ℕ

-- The first statement of the loop of `parser`.
pub count_letter : ℕ → Counts → Counts
count_letter c s = if is_alpha c then record s { letters = float_suc s.letters } else s

-- The second statement.
pub count_word : ℕ → Counts → Counts
count_word c s =
    if is_blank c || (c == b'\n')
    then record s { state = out_word }
    else if s.state == out_word
    then record s { words = float_suc s.words; state = in_word }
    else s

-- The third statement, for the character before, if there is one.
abbrev pub ends_sentence : ℕ → ℕ → Bool
ends_sentence before c =
    (not (before == b'!') && (c == b'!'))
    || ((not (before == b'?') && (c == b'?')) || (not (before == b'.') && (c == b'.')))

pub count_sentence : Option ℕ → ℕ → Counts → Counts
count_sentence none c s = s
count_sentence (some before) c s =
    if ends_sentence before c then record s { sentences = float_suc s.sentences } else s

-- The loop of `parser`, from the character behind `before` on.
pub parser : Option ℕ → Text → Counts → Counts
unfolding count_letter count_word count_sentence
parser before [] s = s
parser before (c ∷ cs) s =
    parser (some c) cs (count_sentence before c (count_word c (count_letter c s)))
