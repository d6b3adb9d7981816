-- ===== src/Hexdump/Roundtrip.antt =====
-- Reading a whole dump of tools/hexdump/main.c back.
use mathlib.Core.Option
use c_systems_programming.Common.{
  ℕ, zero, suc, ◌+◌, ◌≤◌, ◌<◌, ◌^◌, ◌≡◌, refl, ap, ◌∙◌, Bool-cases, ==_iff, ◌≢◌, inl, inr, Bool,
  true, Option, some, none, List, [], ◌∷◌, ◌++◌, map, Text, codes, length, take, drop, All-take,
  All-drop, IsByte, IsBytes, take-nil, arith, ◌==◌, if◌then◌else◌, u64, append_assoc, length-append,
  length-take, length-drop, take-append-drop, take-of_length, drop-of_length,
}
use c_systems_programming.Hexdump.{
  Options, radix, print_offset, print_data, print_ascii, ascii_char,
}
use c_systems_programming.Hexdump.Args.{IsValid}
use c_systems_programming.Hexdump.Dump.{print_line, dump_loop, hexdump}
use c_systems_programming.Hexdump.Bounds.{data_width, length-print_data}
use c_systems_programming.Hexdump.Digits.{
  before, after, value_from, before-append, after-append, offset_digits, offset_digits-Avoids,
  value-offset_digits,
}
use c_systems_programming.Hexdump.Decode.{decode, decode-print_data}

-- Whether the offset column of a line, where it is shown, says `count`.
abbrev pub offset_agrees : Options → ℕ → Text → Bool
offset_agrees opts count line =
    if opts.show_offset
    then value_from (radix opts.offset_format) 0 (before 58 line) == count
    else true

-- The line after the offset column.
abbrev pub after_offset : Options → Text → Text
after_offset opts line = if opts.show_offset then drop 2 (after 58 line) else line

-- Reads a dump back: the offset of each line must be the number of bytes before it, the data
-- column is decoded, and the rest of the line up to its end is skipped. `lines` is fuel.
pub undump : Options → ℕ → ℕ → Text → Option (List ℕ)
undump opts zero count text = none
undump opts (suc lines) count [] = some []
undump opts (suc lines) count (c ∷ cs) =
    let body = after_offset opts (c ∷ cs) in
    let bytes = decode opts.data_format (take (data_width opts) body) in
    let rest = undump opts lines (count + length bytes) (after 10 (drop (data_width opts) body)) in
    if offset_agrees opts count (c ∷ cs) then Option.map (λ more. bytes ++ more) rest else none

ascii_char-ne : (c : ℕ) → ascii_char c ≢ 10
unfolding ascii_char
ascii_char-ne c = ground arith

after-map_ascii :
    (buffer : List ℕ) (rest : Text) → after 10 (map ascii_char buffer ++ (10 ∷ rest)) ≡ rest
after-map_ascii [] rest = refl
after-map_ascii (b ∷ bs) rest = ground (arith, ascii_char-ne b, after-map_ascii bs rest)

-- The end of a line, after the data column.
abbrev line_end : Options → List ℕ → Text
line_end opts buffer = (if opts.show_ascii then print_ascii buffer else []) ++ codes "\n"

after-line_end :
    (opts : Options) (buffer : List ℕ) (rest : Text)
    → after 10 (line_end opts buffer ++ rest) ≡ rest
unfolding print_ascii
after-line_end opts buffer rest = elim (Bool-cases opts.show_ascii) [
  | inl shown ↦ rw shown (rw append_assoc (after-map_ascii buffer rest))
  | inr hidden ↦ rw hidden refl
]

module _ (opts : Options) (v : IsValid opts) (count : ℕ) (buffer : List ℕ) (rest : Text) where
  after_offset-print_line :
      after_offset opts (print_line opts count buffer ++ rest)
      ≡ print_data opts buffer ++ (line_end opts buffer ++ rest)
  unfolding print_line print_offset
  after_offset-print_line = elim (Bool-cases opts.show_offset) [
    | inl shown ↦
        simp (shown, append_assoc)
          (ap (drop 2) (after-append 58 digits _ (offset_digits-Avoids opts count)))
    | inr hidden ↦ simp (hidden, append_assoc)
  ]
    where
      digits : Text
      digits = offset_digits opts count

  offset_agrees-print_line :
      count < 2 ^ 64 → offset_agrees opts count (print_line opts count buffer ++ rest) ≡ true
  unfolding print_line print_offset
  offset_agrees-print_line h = elim (Bool-cases opts.show_offset) [
    | inl shown ↦
        simp (shown, append_assoc)
          (ap (λ t. value_from (radix opts.offset_format) 0 t == count)
              (before-append 58 (offset_digits opts count) _ (offset_digits-Avoids opts count))
            ∙ (==_iff _ _).1 (value-offset_digits opts count h))
    | inr hidden ↦ simp hidden
  ]

undump_step :
    (opts : Options) (lines count : ℕ) (text : Text)
    → text ≢ []
    → offset_agrees opts count text ≡ true
    → let body = after_offset opts text in
      let bytes = decode opts.data_format (take (data_width opts) body) in
      undump opts (suc lines) count text
      ≡ Option.map
          (λ more. bytes ++ more)
          (undump opts lines (count + length bytes) (after 10 (drop (data_width opts) body)))
unfolding undump
undump_step opts lines count [] ne agrees = absurd (ne refl)
undump_step opts lines count (c ∷ cs) ne agrees = rw agrees

print_line-ne_nil :
    (opts : Options) (count : ℕ) (buffer : List ℕ) (rest : Text)
    → print_line opts count buffer ++ rest ≢ []
unfolding print_line
print_line-ne_nil opts count buffer rest e = omega (
  arith,
  ap length e,
  length-append (print_line opts count buffer) rest,
  length-append column (print_data opts buffer ++ line_end opts buffer),
  length-append (print_data opts buffer) (line_end opts buffer),
  length-append (if opts.show_ascii then print_ascii buffer else []) (codes "\n"),
)
  where
    column : Text
    column = if opts.show_offset then print_offset opts count else []

-- Reading one printed line back.
undump-print_line :
    (opts : Options) (lines count : ℕ) (buffer : List ℕ) (rest : Text)
    → IsValid opts
    → IsBytes buffer
    → length buffer ≤ opts.width
    → count < 2 ^ 64
    → undump opts (suc lines) count (print_line opts count buffer ++ rest)
      ≡ Option.map (λ more. buffer ++ more) (undump opts lines (count + length buffer) rest)
undump-print_line opts lines count buffer rest v bytes h k =
    undump_step opts lines count _ (print_line-ne_nil opts count buffer rest)
      (offset_agrees-print_line opts v count buffer rest k)
    ∙ rw
        (
          after_offset-print_line opts v count buffer rest,
          take-of_length (data_width opts) (print_data opts buffer) (line_end opts buffer ++ rest)
              fits,
          drop-of_length (data_width opts) (print_data opts buffer) (line_end opts buffer ++ rest)
              fits,
          decode-print_data opts buffer bytes,
          after-line_end opts buffer rest,
        )
        refl
  where
    fits : length (print_data opts buffer) ≡ data_width opts
    fits = length-print_data opts v buffer h

dump_loop-nil : (opts : Options) (lines count : ℕ) → dump_loop opts lines count [] ≡ []
unfolding dump_loop
dump_loop-nil opts zero count = refl
dump_loop-nil opts (suc lines) count = rw (take-nil ℕ opts.width, dump_loop)

dump_step :
    (opts : Options) (lines count : ℕ) (file : List ℕ)
    → 1 ≤ opts.width
    → 1 ≤ length file
    → let chunk = take opts.width file in
      dump_loop opts (suc lines) count file
      ≡ print_line opts count chunk
        ++ dump_loop opts lines (u64 (count + length chunk)) (drop opts.width file)
unfolding dump_loop
dump_step opts lines count file h k = go (take opts.width file) refl
  where
    go :
        (chunk : List ℕ)
        → take opts.width file ≡ chunk
        → dump_loop opts (suc lines) count file
          ≡ print_line opts count (take opts.width file)
            ++ dump_loop opts lines
                (u64 (count + length (take opts.width file)))
                (drop opts.width file)
    go [] e = absurd (omega (arith, length-take opts.width file, ap length e))
    go (b ∷ bs) e = rw (e, dump_loop)

undump-dump_loop :
    (opts : Options) (lines count : ℕ) (file : List ℕ)
    → IsValid opts
    → IsBytes file
    → length file < lines
    → count + length file < 2 ^ 64
    → undump opts lines count (dump_loop opts lines count file) ≡ some file
undump-dump_loop opts zero count file v bytes h k = absurd (omega arith)
undump-dump_loop opts (suc lines) count [] v bytes h k =
    rw (dump_loop-nil opts (suc lines) count) (unfold undump in refl)
undump-dump_loop opts (suc lines) count (x ∷ xs) v bytes h k =
    rw
      (
        dump_step opts lines count (x ∷ xs) v.width_pos (omega arith),
        undump-print_line opts lines count chunk rest v (All-take IsByte w (x ∷ xs) bytes)
            (omega (arith, length-take w (x ∷ xs))) (omega arith),
        wraps,
        undump-dump_loop opts lines (count + length chunk) (drop w (x ∷ xs)) v
            (All-drop IsByte w (x ∷ xs) bytes) (omega (arith, v.width_pos, length-drop w (x ∷ xs)))
            (omega (arith, length-drop w (x ∷ xs), length-take w (x ∷ xs))),
      )
      (ap some (take-append-drop w (x ∷ xs)))
  where
    w : ℕ
    w = opts.width

    chunk : List ℕ
    chunk = take w (x ∷ xs)

    wraps : u64 (count + length chunk) ≡ count + length chunk
    wraps = omega (arith, length-take w (x ∷ xs))

    rest : Text
    rest = dump_loop opts lines (u64 (count + length chunk)) (drop w (x ∷ xs))

-- Under valid options, a file of bytes shorter than a size_t counts is read back from its dump by a
-- reader that checks the offset of each line, decodes the data column and skips the rest.
pub undump-hexdump :
    (opts : Options) (file : List ℕ)
    → IsValid opts
    → IsBytes file
    → length file < 2 ^ 64
    → undump opts (suc (length file)) 0 (hexdump opts file) ≡ some file
unfolding hexdump
undump-hexdump opts file v bytes h =
    undump-dump_loop opts (suc (length file)) 0 file v bytes (omega arith) (omega arith)
