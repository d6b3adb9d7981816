-- ===== src/Hexdump/Bounds.antt =====
-- The width of the data column that tools/hexdump/main.c prints.
use c_systems_programming.Common.{
  ℕ, zero, suc, ◌+◌, ◌-◌, ◌*◌, ◌/◌, ◌≤◌, ◌≡◌, refl, List, [], ◌∷◌, ◌++◌, length, length-append,
  arith,
}
use native.Mathlib.Nat.{add-zero}
use c_systems_programming.Hexdump.{
  Options, DataFormat, data_hex, data_binary, separator, print_cell, blank_cell, print_cells,
  print_missing, print_data,
}
use c_systems_programming.Hexdump.Args.{IsValid}

-- bytes a cell takes
abbrev pub cell_width : DataFormat → ℕ
cell_width data_hex = 2
cell_width data_binary = 8

-- The separators before index `i`.
abbrev breaks : ℕ → ℕ → ℕ
breaks g i = (i - 1) / g

abbrev pub data_width : Options → ℕ
data_width opts = opts.width * cell_width opts.data_format + 2 * ((opts.width - 1) / opts.grouping)

length-print_cell : (f : DataFormat) (b : ℕ) → length (print_cell f b) ≡ cell_width f
unfolding print_cell
length-print_cell data_hex b = refl
length-print_cell data_binary b = refl

length-blank_cell : (f : DataFormat) → length (blank_cell f) ≡ cell_width f
unfolding blank_cell
length-blank_cell data_hex = refl
length-blank_cell data_binary = refl

shift : (i n : ℕ) → i + suc n ≡ i + 1 + n
shift i n = omega arith

module _ (opts : Options) (v : IsValid opts) where
  length-separator :
      (i : ℕ)
      → length (separator opts i) + 2 * breaks opts.grouping i ≡ 2 * breaks opts.grouping (i + 1)
  unfolding separator
  length-separator i = ground (arith, v.grouping_one_of)

  length-print_cells :
      (i : ℕ) (bs : List ℕ)
      → length (print_cells opts i bs) + 2 * breaks opts.grouping i
        ≡ length bs * cell_width opts.data_format + 2 * breaks opts.grouping (i + length bs)
  unfolding print_cells
  length-print_cells i [] = rw add-zero (omega arith)
  length-print_cells i (b ∷ bs) = rw (shift i (length bs)) (
      omega (
        arith,
        length-append (separator opts i) (print_cell f b ++ print_cells opts (i + 1) bs),
        length-append (print_cell f b) (print_cells opts (i + 1) bs),
        length-print_cell f b,
        length-separator i,
        length-print_cells (i + 1) bs,
      ))
    where
      open opts use {data_format as f}

  length-print_missing :
      (i m : ℕ)
      → length (print_missing opts i m) + 2 * breaks opts.grouping i
        ≡ m * cell_width opts.data_format + 2 * breaks opts.grouping (i + m)
  unfolding print_missing
  length-print_missing i zero = rw add-zero (omega arith)
  length-print_missing i (suc m) = rw (shift i m) (
      omega (
        arith,
        length-append (separator opts i) (blank_cell f ++ print_missing opts (i + 1) m),
        length-append (blank_cell f) (print_missing opts (i + 1) m),
        length-blank_cell f,
        length-separator i,
        length-print_missing (i + 1) m,
      ))
    where
      open opts use {data_format as f}

  -- Under valid options a line that holds no more bytes than the width is printed with a data
  -- column of one fixed width: its cells, and two spaces for each full group before the last cell.
  pub length-print_data :
      (buffer : List ℕ)
      → length buffer ≤ opts.width
      → length (print_data opts buffer) ≡ data_width opts
  unfolding print_data
  length-print_data buffer h = ground (
    arith,
    length-append (print_cells opts 0 buffer) [],
    length-append (print_cells opts 0 buffer) (print_missing opts n (opts.width - n)),
    length-print_cells 0 buffer,
    length-print_missing n (opts.width - n),
  )
    where
      n : ℕ
      n = length buffer
