-- ===== src/TextReadability/Tests.antt =====
-- A run of tools/text-readability/main.c on a small file.
use c_systems_programming.Common.{
  ℕ, ◌+◌, ◌≡◌, refl, [], ◌++◌, true, some, none, Text, codes, replicate, arith, min,
}
use c_systems_programming.Common.CLib.{ℤ, pos}
use c_systems_programming.TextReadability.{
  float_max, count_letter, count_word, count_sentence, parser,
}
use c_systems_programming.TextReadability.Words.{letters_of, pieces, count_words}
use c_systems_programming.TextReadability.Sentences.{collapse, marks}
use c_systems_programming.TextReadability.Main.{
  numbered, print, start, grade_of, trim, readability_main, readability_main-counts,
}

abbrev text : Text
text = codes "Is it so?? Yes..."

abbrev sum : ℕ → ℕ → ℕ → ℤ
sum letters words sentences = pos (letters + words + sentences)

text-counts :
    parser none text (start 1) ≡ record { letters = 9; words = 4; sentences = 2; state = 1 }
unfolding parser count_letter count_word count_sentence
text-counts = refl

grade_15 : readability_main sum 1 true (some (some (text ++ codes "\n\n"))) ≡ some (numbered 15)
unfolding readability_main grade_of trim parser count_letter count_word count_sentence print
grade_15 = refl

readability_main-counts_example :
    readability_main sum 0 true (some (some (text ++ replicate 2 b'\n')))
    ≡ some (
        print (
          sum
            (min float_max (letters_of text))
            (min float_max (1 + count_words (pieces [] text)))
            (min float_max (marks (collapse b'I' (codes "s it so?? Yes..."))))))
readability_main-counts_example =
    readability_main-counts sum 0 b'I' b'.' 2 (codes "s it so?? Yes...") (codes "Is it so?? Yes..")
      refl (λ e. ground arith) (ground arith) refl
