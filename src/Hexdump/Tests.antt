-- ===== src/Hexdump/Tests.antt =====
-- The dump of tools/hexdump/main.c on small inputs, and the theorems at such inputs.
use c_systems_programming.Common.{
  ◌≡◌, ◌≢◌, refl, inl, inr, Option, some, none, [], ◌∷◌, ◌++◌, Text, codes, arith,
}
use c_systems_programming.Common.CLib.{atoi}
use c_systems_programming.Hexdump.{
  Options, print_offset, print_data, print_ascii, print_cells, print_missing, separator, print_cell,
  blank_cell, ascii_char, pad8, print_number, digits_from, digit_char,
}
use c_systems_programming.Hexdump.Args.{IsValid, parse_option, parse_arguments, default_options}
use c_systems_programming.Hexdump.Args.Valid.{parse_arguments-IsValid}
use c_systems_programming.Hexdump.Args.Main.{default_options-IsValid}
use c_systems_programming.Hexdump.Dump.{dump_loop, print_line, hexdump}
use c_systems_programming.Hexdump.Roundtrip.{undump, undump-hexdump}

-- `hex3 -w 4 -g 2`
abbrev narrow : Options
narrow = record default_options { width = 4; grouping = 2; filename = some (codes "f") }

abbrev hello : Text
hello = codes "Hello\n"

narrow-IsValid : IsValid narrow
narrow-IsValid = record {
  width_pos = omega arith;
  width_max = omega arith;
  grouping_one_of = inr (inl refl);
}

hexdump-hello :
    hexdump narrow hello
    ≡ codes "00000000:  4865  6C6C  Hell\n" ++ codes "00000004:  6F0A        o.\n"
unfolding hexdump dump_loop print_line print_offset print_data print_ascii print_cells print_missing
    separator print_cell blank_cell ascii_char pad8 print_number digits_from digit_char
hexdump-hello = refl

parse_arguments-IsValid_example :
    IsValid narrow × (narrow.filename ≡ some (codes "f")) × (narrow.filename ≢ none)
unfolding parse_arguments parse_option atoi
parse_arguments-IsValid_example =
    parse_arguments-IsValid default_options ((b'w', codes "4") ∷ (b'g', codes "2") ∷ [])
      (codes "f" ∷ []) default_options-IsValid refl

undump-hexdump_example : undump narrow 7 0 (hexdump narrow hello) ≡ some hello
undump-hexdump_example = undump-hexdump narrow hello narrow-IsValid (omega arith) (omega arith)

abbrev one_file : Text → Option Text
one_file name = some hello
