-- ===== src/Cat/Tests.antt =====
-- The program of tools/cat on two files, of which the second one is missing.
use c_systems_programming.Common.{
  ℕ, ◌≡◌, List, [], ◌∷◌, Option, some, none, Text, codes, text_eq, if◌then◌else◌,
}
use c_systems_programming.Cat.{cat_main, cat_main_lem}

abbrev disk : Text → Option (List ℕ)
disk name = if text_eq name (codes "a") then some (codes "one") else none

cat_main_lem_example :
    cat_main (codes "a" ∷ codes "b" ∷ codes "a" ∷ []) disk []
    ≡ record { output = codes "one"; reported = codes "b" ∷ []; status = 1 }
cat_main_lem_example = cat_main_lem (codes "a" ∷ codes "b" ∷ codes "a" ∷ []) disk []
