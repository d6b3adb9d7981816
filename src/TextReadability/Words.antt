-- ===== src/TextReadability/Words.antt =====
-- The words and letters that `parser` of tools/text-readability/main.c counts.
use c_systems_programming.Common.{
  ℕ, ◌+◌, ◌≤◌, ◌≡◌, refl, ap, ap₂, ◌∙◌, ◌++◌, List, [], ◌∷◌, Bool, true, false, Option, some, none,
  Text, ◌==◌, ◌||◌, not, ◌&&◌, if◌then◌else◌, arith, min,
}
use c_systems_programming.TextReadability.{
  is_alpha, is_blank, float_max, float_suc, out_word, Counts, count_letter, count_word,
  count_sentence, parser,
}

abbrev pub is_space : ℕ → Bool
is_space c = is_blank c || (c == b'\n')

-- The words of a text: the characters that are no white space, and that follow white space, or
-- start the text if `fresh`.
abbrev pub words_of : Bool → Text → ℕ
words_of fresh [] = 0
words_of fresh (c ∷ cs) = (if fresh && not (is_space c) then 1 else 0) + words_of (is_space c) cs

abbrev pub letters_of : Text → ℕ
letters_of [] = 0
letters_of (c ∷ cs) = (if is_alpha c then 1 else 0) + letters_of cs

abbrev pub step : Option ℕ → ℕ → Counts → Counts
step before c s = count_sentence before c (count_word c (count_letter c s))

step-letters :
    (before : Option ℕ) (c : ℕ) (s : Counts)
    → (step before c s).letters ≡ (if is_alpha c then float_suc s.letters else s.letters)
unfolding count_letter count_word count_sentence
step-letters none c s = ground arith
step-letters (some before) c s = ground arith

-- Between characters `state` says whether the last one was white space.
step-words :
    (before : Option ℕ) (c : ℕ) (s : Counts)
    → let fresh = s.state == out_word in
      ((step before c s).words ≡ (if fresh && not (is_space c) then float_suc s.words else s.words))
      × (((step before c s).state == out_word) ≡ is_space c)
unfolding count_letter count_word count_sentence
step-words none c s = ground arith
step-words (some before) c s = ground arith

pub add_letter :
    (b : Bool) (n more : ℕ)
    → n ≤ float_max
    → min float_max ((if b then float_suc n else n) + more)
      ≡ min float_max (n + ((if b then 1 else 0) + more))
add_letter b n more h = ground arith

pub saturated : (b : Bool) (n : ℕ) → n ≤ float_max → (if b then float_suc n else n) ≤ float_max
saturated b n h = ground arith

-- The letters counted are the letters of the text, up to 2 ^ 24.
pub parser-letters :
    (before : Option ℕ) (text : Text) (s : Counts)
    → s.letters ≤ float_max
    → (parser before text s).letters ≡ min float_max (s.letters + letters_of text)
unfolding parser
parser-letters before [] s h = omega (arith, h)
parser-letters before (c ∷ cs) s h =
    parser-letters (some c) cs (step before c s)
      (rw (step-letters before c s) (saturated (is_alpha c) s.letters h))
    ∙ ap (λ n. min float_max (n + letters_of cs)) (step-letters before c s)
    ∙ add_letter (is_alpha c) s.letters (letters_of cs) h

parser-words_of :
    (before : Option ℕ) (text : Text) (s : Counts)
    → s.words ≤ float_max
    → (parser before text s).words ≡ min float_max (s.words + words_of (s.state == out_word) text)
unfolding parser
parser-words_of before [] s h = omega (arith, h)
parser-words_of before (c ∷ cs) s h =
    let (w, f) = step-words before c s in
    parser-words_of (some c) cs (step before c s)
      (rw w (saturated ((s.state == out_word) && not (is_space c)) s.words h))
    ∙ ap₂ (λ n b. min float_max (n + words_of b cs)) w f
    ∙ add_letter ((s.state == out_word) && not (is_space c)) s.words (words_of (is_space c) cs) h

-- The pieces of a text between white space, `piece` being the one that is open.
abbrev pub pieces : Text → Text → List Text
pieces piece [] = piece ∷ []
pieces piece (c ∷ cs) =
    let next = pieces [] cs in
    let same = pieces (piece ++ (c ∷ [])) cs in if is_space c then piece ∷ next else same

abbrev pub is_empty : Text → Bool
is_empty [] = true
is_empty (c ∷ cs) = false

-- How many pieces are words.
abbrev pub count_words : List Text → ℕ
count_words [] = 0
count_words (piece ∷ more) = (if is_empty piece then 0 else 1) + count_words more

is_empty-append : (piece : Text) (c : ℕ) → is_empty (piece ++ (c ∷ [])) ≡ false
is_empty-append [] c = refl
is_empty-append (d ∷ ds) c = refl

count_words-pieces :
    (piece text : Text)
    → count_words (pieces piece text)
      ≡ (if is_empty piece then 0 else 1) + words_of (is_empty piece) text
count_words-pieces piece [] = omega arith
count_words-pieces piece (c ∷ cs) =
    let next = count_words-pieces [] cs in
    let same = count_words-pieces (piece ++ (c ∷ [])) cs in
    ground (arith, next, same, is_empty-append piece c)

-- A text that starts with a word, from the counts that `main` sets: the words counted are the
-- pieces of the text between white space that are not empty, up to 2 ^ 24, and one more if the
-- uninitialised `state` holds OUT_WORD.
pub parser-words :
    (state c : ℕ) (cs : Text)
    → is_space c ≡ false
    → (parser none (c ∷ cs) (record { letters = 0; words = 1; sentences = 0; state = state })).words
      ≡ min float_max ((if state == out_word then 1 else 0) + count_words (pieces [] (c ∷ cs)))
parser-words state c cs e =
    parser-words_of none (c ∷ cs) (record { letters = 0; words = 1; sentences = 0; state = state })
      (omega arith)
    ∙ ap (min float_max) (ground (arith, e, count_words-pieces [] (c ∷ cs)))
