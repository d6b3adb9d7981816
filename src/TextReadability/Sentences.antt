-- ===== src/TextReadability/Sentences.antt =====
-- The sentences that `parser` of tools/text-readability/main.c counts.
use c_systems_programming.Common.{
  ℕ, ◌+◌, ◌≤◌, ◌≡◌, ap, ◌∙◌, [], ◌∷◌, Bool, some, none, Text, ◌==◌, ◌||◌, if◌then◌else◌, arith, min,
}
use c_systems_programming.TextReadability.{
  float_max, float_suc, ends_sentence, Counts, count_letter, count_word, count_sentence, parser,
}
use c_systems_programming.TextReadability.Words.{step, saturated, add_letter}

abbrev pub is_mark : ℕ → Bool
is_mark c = (c == b'!') || ((c == b'?') || (c == b'.'))

-- The text behind `before`, without the characters that repeat the one before them.
abbrev pub collapse : ℕ → Text → Text
collapse before [] = []
collapse before (c ∷ cs) = let rest = collapse c cs in if before == c then rest else c ∷ rest

abbrev pub marks : Text → ℕ
marks [] = 0
marks (c ∷ cs) = (if is_mark c then 1 else 0) + marks cs

step-sentences :
    (before c : ℕ) (s : Counts)
    → (step (some before) c s).sentences
      ≡ (if ends_sentence before c then float_suc s.sentences else s.sentences)
unfolding count_letter count_word count_sentence
step-sentences before c s = ground arith

marks-collapse :
    (before c : ℕ) (cs : Text)
    → (if ends_sentence before c then 1 else 0) + marks (collapse c cs)
      ≡ marks (collapse before (c ∷ cs))
marks-collapse before c cs = ground arith

parser-marks :
    (before : ℕ) (text : Text) (s : Counts)
    → s.sentences ≤ float_max
    → (parser (some before) text s).sentences
      ≡ min float_max (s.sentences + marks (collapse before text))
unfolding parser
parser-marks before [] s h = omega (arith, h)
parser-marks before (c ∷ cs) s h =
    parser-marks c cs (step (some before) c s)
      (rw (step-sentences before c s) (saturated (ends_sentence before c) s.sentences h))
    ∙ ap (λ n. min float_max (n + marks (collapse c cs))) (step-sentences before c s)
    ∙ add_letter (ends_sentence before c) s.sentences (marks (collapse c cs)) h
    ∙ ap (λ n. min float_max (s.sentences + n)) (marks-collapse before c cs)

first_step :
    (state c : ℕ)
    → (step none c (record { letters = 0; words = 1; sentences = 0; state = state })).sentences ≡ 0
unfolding count_letter count_word count_sentence
first_step state c = ground arith

-- The sentences counted are the marks !, ? and . behind the first character, where a mark that is
-- repeated counts once, up to 2 ^ 24. The first character itself ends no sentence.
pub parser-sentences :
    (state c : ℕ) (cs : Text)
    → (parser none
        (c ∷ cs)
        (record { letters = 0; words = 1; sentences = 0; state = state })).sentences
      ≡ min float_max (marks (collapse c cs))
unfolding parser
parser-sentences state c cs =
    parser-marks c cs
      (step none c (record { letters = 0; words = 1; sentences = 0; state = state }))
      (rw first (omega arith))
    ∙ ap (λ n. min float_max (n + marks (collapse c cs))) first
    ∙ ap (min float_max) none_before
  where
    none_before : 0 + marks (collapse c cs) ≡ marks (collapse c cs)
    none_before = omega arith

    first :
        (step none c (record { letters = 0; words = 1; sentences = 0; state = state })).sentences
        ≡ 0
    first = first_step state c
