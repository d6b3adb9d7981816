-- ===== src/Greyscale.antt =====
-- projects/graphics/greyscale-filter/main.c: a greyscale filter on 24-bit BMP files. A file is the
-- list of its bytes, little-endian.
pub mod Pixels
pub mod Layout
pub mod Again
mod Tests
use c_systems_programming.Common.{
  ℕ, zero, suc, ◌+◌, ◌-◌, ◌*◌, ◌/◌, ◌%◌, List, [], ◌∷◌, ◌++◌, Bool, true, false, take, drop, length,
  replicate, u8, load16, load32, ◌==◌, ltb, not, if◌then◌else◌,
}
use c_systems_programming.Common.CLib.{ℤ, pos, negsuc, to_signed}

-- `BMP_HEADER` and `BMP_INFO_HEADER` as their bytes, with the fields that the program reads.
abbrev pub header : List ℕ → List ℕ
header file = take 14 file

abbrev pub info_header : List ℕ → List ℕ
info_header file = take 40 (drop 14 file)

abbrev pub bf_type : List ℕ → ℕ
bf_type file = load16 (header file) 0

abbrev pub bf_off_bits : List ℕ → ℕ
bf_off_bits file = load32 (header file) 10

abbrev pub bi_width : List ℕ → ℤ
bi_width file = to_signed (load32 (info_header file) 4)

abbrev pub bi_height : List ℕ → ℤ
bi_height file = to_signed (load32 (info_header file) 8)

abbrev pub bi_bit_count : List ℕ → ℕ
bi_bit_count file = load16 (info_header file) 14

-- `int padding = (4 - (width * sizeof(RGBTRIPLE)) % 4) % 4`
pub padding : ℕ → ℕ
padding width = (4 - width * 3 % 4) % 4

-- `RGBTRIPLE`
pub record Pixel : Type 0 where
  pub blue : ℕ
  pub green : ℕ
  pub red : ℕ

-- The body of the filter's loops; `BYTE avg` keeps eight bits.
pub grey : Pixel → Pixel
grey p =
    let avg = u8 ((p.red + p.green + p.blue) / 3) in record { blue = avg; green = avg; red = avg }

-- The filter on a row in memory, three bytes to a pixel.
pub grey_row : List ℕ → List ℕ
grey_row (b ∷ (g ∷ (r ∷ rest))) =
    let p = grey (record { blue = b; green = g; red = r }) in
    p.blue ∷ p.green ∷ p.red ∷ grey_row rest
grey_row bytes = bytes

-- How a run ends: exit status 1, undefined behaviour, or the bytes of greyscale.bmp. Undefined are
-- the use of a header byte that a short file does not have, an array of rows of no or a negative
-- width, and the `fclose(NULL)` when the output cannot be created.
pub data Outcome : Type 0 where
  refused undefined : Outcome
  saved : List ℕ → Outcome

-- A row read by `fread`: where the file ends early, the memory of `malloc` shows.
pub read_row : ℕ → List ℕ → List ℕ → List ℕ
read_row width memory rest = let got = take (width * 3) rest in got ++ drop (length got) memory

-- The loop that reads the rows, from the position in the file.
pub read_rows : (ℕ → List ℕ) → ℕ → ℕ → List ℕ → List (List ℕ)
read_rows memory width zero rest = []
read_rows memory width (suc rows) rest =
    read_row width (memory rows) rest
    ∷ read_rows memory width rows (drop (width * 3 + padding width) rest)

pub grey_rows : List (List ℕ) → List (List ℕ)
grey_rows [] = []
grey_rows (row ∷ rows) = grey_row row ∷ grey_rows rows

-- The loop that writes the rows.
pub write_rows : ℕ → List (List ℕ) → List ℕ
write_rows width [] = []
write_rows width (row ∷ rows) = row ++ (replicate (padding width) 0 ++ write_rows width rows)

-- The loops run while `i < height`: not at all for a negative height.
abbrev pub rows_of : ℤ → ℕ
rows_of (pos n) = n
rows_of (negsuc n) = 0

module _ (malloc_ok : Bool) (can_create : Bool) (memory : ℕ → List ℕ) where
  -- `main` once the width is known to be positive.
  pub filter_rows : List ℕ → ℕ → Outcome
  filter_rows file width =
      let rows = read_rows memory width (rows_of (bi_height file)) (drop (bf_off_bits file) file) in
      if not malloc_ok
      then refused
      else if not can_create
      then undefined
      else saved (header file ++ (info_header file ++ write_rows width (grey_rows rows)))

  pub filter_width : List ℕ → ℤ → Outcome
  filter_width file (pos zero) = undefined
  filter_width file (pos (suc w)) = filter_rows file (suc w)
  filter_width file (negsuc w) = undefined

  -- The second half of the test of the format, and what follows it.
  pub check_depth : List ℕ → Outcome
  check_depth file =
      if ltb (length file) 30
      then undefined
      else if not (bi_bit_count file == 24)
      then refused
      else if ltb (length file) 54
      then undefined
      else filter_width file (bi_width file)

  -- `main`, on the contents of the input file.
  pub greyscale : List ℕ → Outcome
  greyscale file =
      if ltb (length file) 2
      then undefined
      else if not (bf_type file == 0x4d42)
      then refused
      else check_depth file
