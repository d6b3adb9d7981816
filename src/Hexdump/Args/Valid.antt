-- ===== src/Hexdump/Args/Valid.antt =====
-- What `parse_arguments` of tools/hexdump/main.c accepts.
use c_systems_programming.Common.{ℕ, ◌≡◌, List, [], ◌∷◌, ◌≢◌, none, get_elem?, Text, arith}
use c_systems_programming.Common.CLib.{atoi, to_unsigned}
use c_systems_programming.Hexdump.{Options}
use c_systems_programming.Hexdump.Args.{
  IsValid, Parsed, parsed, refused, set_width, set_grouping, parse_option, parse_arguments,
}

abbrev IsValidParsed : Parsed → Type 0
IsValidParsed (parsed opts) = IsValid opts
IsValidParsed (refused why) = Unit

set_width-IsValid : (opts : Options) (w : ℕ) → IsValid opts → IsValidParsed (set_width opts w)
unfolding set_width
set_width-IsValid opts w v = ground arith

set_grouping-IsValid : (opts : Options) (g : ℕ) → IsValid opts → IsValidParsed (set_grouping opts g)
unfolding set_grouping
set_grouping-IsValid opts g v = ground arith

parse_option-IsValid :
    (opts : Options) (opt : ℕ) (optarg : Text)
    → IsValid opts
    → IsValidParsed (parse_option opts opt optarg)
unfolding parse_option
parse_option-IsValid opts opt optarg v = ground (
  arith,
  set_width-IsValid opts (to_unsigned (atoi optarg)) v,
  set_grouping-IsValid opts (to_unsigned (atoi optarg)) v,
)

-- From valid options, whatever getopt_long returns, a successful parse gives valid options and the
-- first operand as the file name.
pub parse_arguments-IsValid :
    (opts : Options) (options : List (ℕ × Text)) (files : List Text) {r : Options}
    → IsValid opts
    → parse_arguments opts options files ≡ parsed r
    → IsValid r × (r.filename ≡ get_elem? files 0) × (r.filename ≢ none)
unfolding parse_arguments
parse_arguments-IsValid opts [] [] v e = cc
parse_arguments-IsValid opts [] (file ∷ files) v e = ground arith
parse_arguments-IsValid opts ((opt, optarg) ∷ rest) files {r} v e =
    step (parse_option opts opt optarg) (parse_option-IsValid opts opt optarg v) e
      (λ opts' w. parse_arguments-IsValid opts' rest files w)
  where
    step :
        (p : Parsed)
        → IsValidParsed p
        → (elim p [ parsed opts' ↦ parse_arguments opts' rest files | refused why ↦ refused why ])
          ≡ parsed r
        → ((opts' : Options)
            → IsValid opts'
            → parse_arguments opts' rest files ≡ parsed r
            → IsValid r × (r.filename ≡ get_elem? files 0) × (r.filename ≢ none))
        → IsValid r × (r.filename ≡ get_elem? files 0) × (r.filename ≢ none)
    step (parsed opts') w e ih = ih opts' w e
    step (refused why) w e ih = cc
