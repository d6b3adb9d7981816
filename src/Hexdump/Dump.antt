-- ===== src/Hexdump/Dump.antt =====
-- `hexdump` of tools/hexdump/main.c, the loop over the input.
use c_systems_programming.Common.{
  ℕ, zero, suc, ◌+◌, List, [], ◌∷◌, ◌++◌, Text, codes, length, take, drop, if◌then◌else◌, u64,
}
use c_systems_programming.Hexdump.{Options, print_offset, print_data, print_ascii}

-- What one round of the loop prints.
unfoldable pub print_line : Options → ℕ → List ℕ → Text
print_line opts offset buffer =
    (if opts.show_offset then print_offset opts offset else [])
    ++ (print_data opts buffer
        ++ ((if opts.show_ascii then print_ascii buffer else []) ++ codes "\n"))

-- The loop with `rounds` of fuel; `fread` gives the next `width` bytes, or what is left.
unfoldable pub dump_loop : Options → ℕ → ℕ → List ℕ → Text
dump_loop opts zero offset file = []
dump_loop opts (suc rounds) offset file = elim (take opts.width file) [
  | [] ↦ []
  | b ∷ bs ↦
      print_line opts offset (b ∷ bs)
      ++ dump_loop opts rounds (u64 (offset + length (b ∷ bs))) (drop opts.width file)
]

-- Each round reads a byte at least, so the length of the file bounds the rounds.
unfoldable pub hexdump : Options → List ℕ → Text
hexdump opts file = dump_loop opts (suc (length file)) 0 file
