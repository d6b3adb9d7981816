-- ===== src/Hexdump/Args/Main.antt =====
-- How a run of `main` in tools/hexdump/main.c ends.
use c_systems_programming.Common.{◌≡◌, ◌⊎◌, [], Option, some, none, Text, Bool, true, arith}
use c_systems_programming.Hexdump.{Options}
use c_systems_programming.Hexdump.Args.{
  IsValid, Refusal, printed, Parsed, refused, default_options, Outcome,
}
use c_systems_programming.Hexdump.Dump.{hexdump}

pub default_options-IsValid : IsValid default_options
default_options-IsValid = omega arith

-- A run that printed the whole dump of `file`, read from the file called `name`.
pub record Dumped (read_file : Text → Option Text) (can_write : Text → Bool) (opts : Options)
    (o : Outcome) : Type 0 where
  pub name : Text
  pub file : Text
  pub named : opts.filename ≡ some name
  pub found : read_file name ≡ some file
  pub status_ok : o.status ≡ 0
  pub destination_kept : o.destination ≡ opts.output_filename
  pub writable : (out : Text) → opts.output_filename ≡ some out → can_write out ≡ true
  pub output_dump : o.output ≡ hexdump opts file

-- A run that could not open a file, and one whose arguments were refused.
abbrev pub Failed : Outcome → Type 0
Failed o = (o.status ≡ 1) × (o.output ≡ [])

abbrev pub Refused : Parsed → Outcome → Type 0
Refused p o =
    (why : Refusal) × (p ≡ refused why)
    × (o ≡ record { status = 1; destination = none; output = printed why })

module _ (read_file : Text → Option Text) (can_write : Text → Bool) where
  abbrev Ends : Options → Outcome → Type 0
  Ends opts o = Failed o ⊎ Dumped read_file can_write opts o
