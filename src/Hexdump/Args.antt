-- ===== src/Hexdump/Args.antt =====
-- `parse_arguments` and `main` of tools/hexdump/main.c. What getopt_long returns for the arguments
-- is the input: the option letters with their values, then the operands from `optind` on.
pub mod Valid
pub mod Main
use c_systems_programming.Common.{
  ℕ, ◌≤◌, ◌≡◌, ◌⊎◌, List, [], ◌∷◌, ◌++◌, ◌&&◌, ◌||◌, Bool, true, false, not, Option, some, none,
  Text, ltb, ◌==◌, if◌then◌else◌,
}
use c_systems_programming.Common.CLib.{atoi, to_unsigned, codes}
use c_systems_programming.Hexdump.{Options, offset_hex, offset_decimal, data_hex, data_binary}
use c_systems_programming.Hexdump.Dump.{hexdump}

-- The messages of the error paths, which all return 1.
pub data Refusal : Type 0 where
  width_range grouping_values show_help unknown_option use_help no_file : Refusal

pub data Parsed : Type 0 where
  parsed : Options → Parsed
  refused : Refusal → Parsed

pub set_width : Options → ℕ → Parsed
set_width opts w =
    if ltb w 1 || ltb 255 w then refused width_range else parsed (record opts { width = w })

pub set_grouping : Options → ℕ → Parsed
set_grouping opts g =
    if not (g == 1) && (not (g == 2) && (not (g == 4) && not (g == 8)))
    then refused grouping_values
    else parsed (record opts { grouping = g })

-- The switch on one option.
unfoldable pub parse_option : Options → ℕ → Text → Parsed
unfolding set_width set_grouping
parse_option opts opt optarg =
    if opt == b'w'
    then set_width opts (to_unsigned (atoi optarg))
    else if opt == b'a'
    then parsed (record opts { show_ascii = false })
    else if opt == b'O'
    then parsed (record opts { show_offset = false })
    else if opt == b'd'
    then parsed (record opts { offset_format = offset_decimal })
    else if opt == b'b'
    then parsed (record opts { data_format = data_binary })
    else if opt == b'o'
    then parsed (record opts { output_filename = some optarg })
    else if opt == b'g'
    then set_grouping opts (to_unsigned (atoi optarg))
    else if opt == b'h'
    then refused show_help
    else if opt == b'?'
    then refused unknown_option
    else refused use_help

-- The loop over the options, and the operand after them.
unfoldable pub parse_arguments : Options → List (ℕ × Text) → List Text → Parsed
parse_arguments opts [] [] = refused no_file
parse_arguments opts [] (file ∷ files) = parsed (record opts { filename = some file })
parse_arguments opts ((opt, optarg) ∷ rest) files = elim (parse_option opts opt optarg) [
  | parsed opts' ↦ parse_arguments opts' rest files
  | refused why ↦ refused why
]

-- The initial value in `main`.
abbrev pub default_options : Options
default_options = record {
  width = 16;
  show_ascii = true;
  show_offset = true;
  offset_format = offset_hex;
  data_format = data_hex;
  grouping = 1;
  filename = none;
  output_filename = none;
}

-- What a run leaves: the exit status, the destination (`none` is stdout) and what is written there.
pub record Outcome : Type 0 where
  pub status : ℕ
  pub destination : Option Text
  pub output : Text

-- `help`, which is printed to stdout, and what is printed there for each refusal; the other
-- messages go to stderr.
pub help : Text
help =
    codes "Usage: hex3 [options]... file\n"
    ++ (codes "-w, --width=INTEGER     the number of bytes per line (1-255)\n"
        ++ (codes "-a, --no-ascii          remove printable characters column\n"
            ++ (codes "-O, --no-offset         remove the offset column\n"
                ++ (codes "-d, --decimal-offset    output the offset column in decimal\n"
                    ++ (codes "-b, --binary            output data in binary representation\n"
                        ++ (codes "-o, --output=FILE       set destination file\n"
                            ++ (codes "-g, --group=INTEGER     set byte grouping to 2, 4 or 8\n"
                                ++ codes "-h, --help              display this help\n")))))))

pub printed : Refusal → Text
unfolding help
printed show_help = help
printed width_range = []
printed grouping_values = []
printed unknown_option = []
printed use_help = []
printed no_file = []

abbrev failed : Outcome
failed = record { status = 1; destination = none; output = [] }

module _ (read_file : Text → Option Text) (can_write : Text → Bool) where
  -- Choosing the output: stdout, or the file named by `-o`.
  pub write_dump : Options → Text → Option Text → Outcome
  write_dump opts file none = record { status = 0; destination = none; output = hexdump opts file }
  write_dump opts file (some out) =
      if can_write out
      then record { status = 0; destination = some out; output = hexdump opts file }
      else failed

  -- After `fopen` of the input.
  pub run_dump : Options → Option Text → Outcome
  run_dump opts none = failed
  run_dump opts (some file) = write_dump opts file opts.output_filename

  -- `fopen(NULL)` fails; `parse_arguments` leaves a name.
  pub run_named : Options → Option Text → Outcome
  run_named opts none = failed
  run_named opts (some name) = run_dump opts (read_file name)

  pub run_parsed : Parsed → Outcome
  unfolding printed
  run_parsed (refused why) = record { status = 1; destination = none; output = printed why }
  run_parsed (parsed opts) = run_named opts opts.filename

  -- `main`
  pub hexdump_main : List (ℕ × Text) → List Text → Outcome
  unfolding write_dump run_dump run_named run_parsed
  hexdump_main options files = run_parsed (parse_arguments default_options options files)

-- What the rest of the program relies on.
pub record IsValid (opts : Options) : Type 0 where
  pub width_pos : 1 ≤ opts.width
  pub width_max : opts.width ≤ 255
  pub grouping_one_of :
      (opts.grouping ≡ 1) ⊎ ((opts.grouping ≡ 2) ⊎ ((opts.grouping ≡ 4) ⊎ (opts.grouping ≡ 8)))
