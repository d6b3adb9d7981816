-- ===== src/Hexdump.antt =====
-- tools/hexdump/main.c: the options, and what each column prints.
pub mod Args
pub mod Dump
pub mod Bounds
pub mod Digits
pub mod Decode
pub mod Roundtrip
mod Tests
use c_systems_programming.Common.{
  ℕ, zero, suc, ◌+◌, ◌-◌, ◌%◌, ◌/◌, List, [], ◌∷◌, ◌++◌, map, Bool, ◌&&◌, Option, Text, codes, ltb,
  leb, ◌==◌, not, length, replicate, if◌then◌else◌, ◌>>>◌,
}

-- `offset_format_type`
pub data OffsetFormat : Type 0 where
  offset_hex offset_decimal : OffsetFormat

-- `data_format_type`
pub data DataFormat : Type 0 where
  data_hex data_binary : DataFormat

-- `hexdump_options`
pub record Options : Type 0 where
  pub width : ℕ
  pub show_ascii : Bool
  pub show_offset : Bool
  pub offset_format : OffsetFormat
  pub data_format : DataFormat
  pub grouping : ℕ
  pub filename : Option Text
  pub output_filename : Option Text

-- A digit as printf writes it, letters in upper case.
pub digit_char : ℕ → ℕ
digit_char d = if ltb d 10 then 48 + d else 55 + d

-- The digits of `n` in base `b`, before the text `acc`. Each round takes one digit.
pub digits_from : ℕ → ℕ → ℕ → Text → Text
digits_from b zero n acc = acc
digits_from b (suc f) n acc =
    let more = digits_from b f (n / b) (digit_char (n % b) ∷ acc) in
    if ltb n b then digit_char n ∷ acc else more

-- `%zX` and `%zu`: a size_t has 64 bits, so 64 rounds are enough in any base.
pub print_number : ℕ → ℕ → Text
print_number b n = digits_from b 64 n []

-- The flag `08`: zeros on the left up to eight characters.
pub pad8 : Text → Text
pad8 t = replicate (8 - length t) 48 ++ t

pub radix : OffsetFormat → ℕ
radix offset_hex = 16
radix offset_decimal = 10

-- `print_offset`
pub print_offset : Options → ℕ → Text
unfolding radix
print_offset opts offset = pad8 (print_number (radix opts.offset_format) offset) ++ codes ":  "

-- `%02X` of a byte, and the bits 7 down to 0.
pub print_cell : DataFormat → ℕ → Text
unfolding digit_char
print_cell data_hex b = digit_char (b / 16) ∷ digit_char (b % 16) ∷ []
print_cell data_binary b = map (λ j. 48 + (b >>> j) % 2) (7 ∷ 6 ∷ 5 ∷ 4 ∷ 3 ∷ 2 ∷ 1 ∷ 0 ∷ [])

pub blank_cell : DataFormat → Text
blank_cell data_hex = codes "  "
blank_cell data_binary = codes "        "

-- The two spaces that stand before the cell at index `i`.
pub separator : Options → ℕ → Text
separator opts i = if ltb 0 i && (i % opts.grouping == 0) then codes "  " else []

-- The first loop of `print_data`, from index `i`.
pub print_cells : Options → ℕ → List ℕ → Text
print_cells opts i [] = []
print_cells opts i (b ∷ bs) =
    separator opts i ++ (print_cell opts.data_format b ++ print_cells opts (i + 1) bs)

-- The second loop, with the blank cells that are missing; `i` is `bytes_read_line + k`.
pub print_missing : Options → ℕ → ℕ → Text
print_missing opts i zero = []
print_missing opts i (suc m) =
    separator opts i ++ (blank_cell opts.data_format ++ print_missing opts (i + 1) m)

-- `print_data`; `fread` reads no more than `width` bytes, so the difference is not negative.
pub print_data : Options → List ℕ → Text
print_data opts buffer =
    let n = length buffer in
    print_cells opts 0 buffer
    ++ (if not (n == opts.width) then print_missing opts n (opts.width - n) else [])

-- `isprint` in the C locale.
pub is_print : ℕ → Bool
is_print c = leb 32 c && leb c 126

pub ascii_char : ℕ → ℕ
unfolding is_print
ascii_char c = if is_print c then c else b'.'

-- `print_ascii`
pub print_ascii : List ℕ → Text
print_ascii buffer = codes "  " ++ map ascii_char buffer
