-- ===== src/Greyscale/Again.antt =====
-- Running projects/graphics/greyscale-filter/main.c on its own output.
use c_systems_programming.Common.{
  ℕ, suc, ◌+◌, ◌*◌, ◌≤◌, ◌≡◌, refl, sym, ap, ap₂, ◌∙◌, List, [], ◌∷◌, ◌++◌, true, false, drop,
  length, replicate, arith, length-append, length-replicate, take-of_length, drop-of_length,
  append-nil, append_assoc, ◌==◌, ltb, load32, load16,
}
use c_systems_programming.Common.CLib.{pos, to_signed}
use c_systems_programming.Greyscale.{
  saved, bf_type, bf_off_bits, bi_width, bi_height, bi_bit_count, rows_of, padding, grey_rows,
  read_row, read_rows, write_rows, filter_rows, filter_width, check_depth, greyscale,
}
use c_systems_programming.Greyscale.Pixels.{grey_rows-grey_rows}
use c_systems_programming.Greyscale.Layout.{
  HasWidth, Saves, greyscale-Saves, with_headers, with_headers-Parts, Parts, read_rows-HasWidth,
  grey_rows-HasWidth,
}

read_row-append :
    (width : ℕ) (memory row rest : List ℕ)
    → length row ≡ width * 3
    → length memory ≡ width * 3
    → read_row width memory (row ++ rest) ≡ row
unfolding read_row
read_row-append width memory row rest h k =
    rw (take-of_length (width * 3) row rest h) (ap (λ m. row ++ m) none_left ∙ append-nil row)
  where
    same : length memory ≡ length row
    same = omega (arith, h, k)

    none_left : drop (length row) memory ≡ []
    none_left =
        ap (drop (length row)) (sym (append-nil memory))
        ∙ drop-of_length (length row) memory [] same

-- Rows that were written are read back, whatever the memory held.
read_rows-write_rows :
    (memory : ℕ → List ℕ) (width : ℕ) (rows : List (List ℕ))
    → ((i : ℕ) → length (memory i) ≡ width * 3)
    → HasWidth width rows
    → read_rows memory width (length rows) (write_rows width rows) ≡ rows
unfolding read_rows write_rows
read_rows-write_rows memory width [] m h = refl
read_rows-write_rows memory width (row ∷ rows) m h =
    ap₂ (λ r rs. r ∷ rs)
      (read_row-append width (memory (length rows)) row (zeros ++ more) h.0 (m (length rows)))
      (ap (read_rows memory width (length rows)) skipped
        ∙ read_rows-write_rows memory width rows m h.1)
  where
    zeros : List ℕ
    zeros = replicate (padding width) 0

    more : List ℕ
    more = write_rows width rows

    size : length (row ++ zeros) ≡ width * 3 + padding width
    size =
        omega (
          arith,
          h.0,
          length-append row zeros,
          length-replicate (padding width) (let z : ℕ = 0 in z),
        )

    skipped : drop (width * 3 + padding width) (row ++ (zeros ++ more)) ≡ more
    skipped =
        ap (drop (width * 3 + padding width)) (sym (append_assoc row zeros more))
        ∙ drop-of_length (width * 3 + padding width) (row ++ zeros) more size

-- What the program writes for a file in the format.
greyscale-saved :
    (memory : ℕ → List ℕ) (file : List ℕ) (w : ℕ)
    → 54 ≤ length file
    → bf_type file ≡ 0x4d42
    → bi_bit_count file ≡ 24
    → bi_width file ≡ pos (suc w)
    → greyscale true true memory file
      ≡ saved (
          with_headers file (
            write_rows (suc w) (
              grey_rows (
                read_rows memory
                  (suc w)
                  (rows_of (bi_height file))
                  (drop (bf_off_bits file) file)))))
unfolding greyscale check_depth filter_width filter_rows
greyscale-saved memory file w h t b q = rw (test_2, test_type, test_30, test_bits, test_54, q) refl
  where
    test_2 : ltb (length file) 2 ≡ false
    test_2 = ground arith

    test_30 : ltb (length file) 30 ≡ false
    test_30 = ground arith

    test_54 : ltb (length file) 54 ≡ false
    test_54 = ground arith

    test_type : (bf_type file == 0x4d42) ≡ true
    test_type = ground (arith, t)

    test_bits : (bi_bit_count file == 24) ≡ true
    test_bits = ground (arith, b)

module _ (memory memory' : ℕ → List ℕ) (file out : List ℕ) (s : Saves memory file out) where
  -- The filter on the saved file, whose rows are those that were written.
  again :
      bf_off_bits file ≡ 54
      → ((i : ℕ) → length (memory i) ≡ suc s.width * 3)
      → ((i : ℕ) → length (memory' i) ≡ suc s.width * 3)
      → greyscale true true memory' out ≡ saved out
  again o m m' =
      greyscale-saved memory' out s.width (omega (arith, parts.size))
        (ap (λ t. load16 t 0) parts.same_header ∙ s.magic.0)
        (ap (λ t. load16 t 14) parts.same_info ∙ s.magic.1)
        (ap (λ t. to_signed (load32 t 4)) parts.same_info ∙ s.width_is)
      ∙ ap saved (
          ap₂ (λ a b. a ++ b) parts.same_header
            (ap₂ (λ a b. a ++ b) parts.same_info
              (ap (λ r. write_rows (suc s.width) (grey_rows r)) read_again
                ∙ ap (write_rows (suc s.width)) (grey_rows-grey_rows first)))
          ∙ sym s.written)
    where
      first : List (List ℕ)
      first =
          read_rows memory (suc s.width) (rows_of (bi_height file)) (drop (bf_off_bits file) file)

      body : List ℕ
      body = write_rows (suc s.width) (grey_rows first)

      parts : Parts file out body
      parts = rw (s.written) (with_headers-Parts file body s.has_headers)

      offset : bf_off_bits out ≡ 54
      offset = ap (λ t. load32 t 10) parts.same_header ∙ o

      first_ok : HasWidth (suc s.width) first × (length first ≡ rows_of (bi_height file))
      first_ok =
          read_rows-HasWidth memory (suc s.width) (rows_of (bi_height file))
            (drop (bf_off_bits file) file) m

      grey_ok : HasWidth (suc s.width) (grey_rows first) × (length (grey_rows first) ≡ length first)
      grey_ok = grey_rows-HasWidth (suc s.width) first first_ok.0

      read_again :
          read_rows memory' (suc s.width) (rows_of (bi_height out)) (drop (bf_off_bits out) out)
          ≡ grey_rows first
      read_again =
          ap₂ (λ n t. read_rows memory' (suc s.width) n t)
            (ap (λ t. rows_of (to_signed (load32 t 8))) parts.same_info
              ∙ sym (grey_ok.1 ∙ first_ok.1))
            (ap (λ n. drop n out) offset ∙ parts.rest)
          ∙ read_rows-write_rows memory' (suc s.width) (grey_rows first) m' grey_ok.0

-- If a run with pixel offset 54 saves, then the filter run on the saved file saves the same bytes
-- again, whatever the uninitialised memory holds in each run.
pub greyscale_again :
    (memory memory' : ℕ → List ℕ) (file out : List ℕ) (width : ℕ)
    → bf_off_bits file ≡ 54
    → bi_width file ≡ pos width
    → ((i : ℕ) → length (memory i) ≡ width * 3)
    → ((i : ℕ) → length (memory' i) ≡ width * 3)
    → greyscale true true memory file ≡ saved out
    → greyscale true true memory' out ≡ saved out
greyscale_again memory memory' file out width o q m m' e =
    let s = greyscale-Saves true true memory file out e in
    let same : suc s.width ≡ width = cc (s.width_is, q) in
    again memory memory' file out s o (λ i. m i ∙ ap (λ n. n * 3) (sym same))
      (λ i. m' i ∙ ap (λ n. n * 3) (sym same))
