-- ===== src/Greyscale/Layout.antt =====
-- The layout of the file that projects/graphics/greyscale-filter/main.c writes.
use c_systems_programming.Common.{
  ℕ, zero, suc, ◌+◌, ◌*◌, ◌≤◌, ◌≡◌, refl, sym, ap, ◌∙◌, List, [], ◌∷◌, ◌++◌, Bool, take, drop,
  length, replicate, All, arith, length-append, length-take, length-drop, length-replicate,
  take-of_length, drop-of_length, drop-drop, load32, ◌==◌, not, ltb, if_elim,
}
use c_systems_programming.Common.CLib.{ℤ, pos, negsuc}
use c_systems_programming.Greyscale.{
  Outcome, saved, header, info_header, bf_type, bf_off_bits, bi_width, bi_height, bi_bit_count,
  rows_of, padding, grey_rows, read_row, read_rows, write_rows, filter_rows, filter_width,
  check_depth, greyscale,
}
use c_systems_programming.Greyscale.Pixels.{length-grey_row}

-- Rows of `width` pixels.
abbrev pub HasWidth : ℕ → List (List ℕ) → Type 0
HasWidth width = All (λ row. length row ≡ width * 3)

pub read_rows-HasWidth :
    (memory : ℕ → List ℕ) (width rows : ℕ) (rest : List ℕ)
    → ((i : ℕ) → length (memory i) ≡ width * 3)
    → HasWidth width (read_rows memory width rows rest)
      × (length (read_rows memory width rows rest) ≡ rows)
unfolding read_rows read_row
read_rows-HasWidth memory width zero rest h = (tt, refl)
read_rows-HasWidth memory width (suc rows) rest h =
    let (w, l) = read_rows-HasWidth memory width rows (drop (width * 3 + padding width) rest) h in
    (
      (
        omega (
          arith,
          length-append got (drop (length got) (memory rows)),
          length-drop (length got) (memory rows),
          length-take (width * 3) rest,
          h rows,
        ),
        w,
      ),
      omega (arith, l),
    )
  where
    got : List ℕ
    got = take (width * 3) rest

pub grey_rows-HasWidth :
    (width : ℕ) (rows : List (List ℕ))
    → HasWidth width rows
    → HasWidth width (grey_rows rows) × (length (grey_rows rows) ≡ length rows)
unfolding grey_rows
grey_rows-HasWidth width [] h = (tt, refl)
grey_rows-HasWidth width (row ∷ rows) h =
    let (w, l) = grey_rows-HasWidth width rows h.1 in
    ((length-grey_row row ∙ h.0, w), omega (arith, l))

pub length-write_rows :
    (width : ℕ) (rows : List (List ℕ))
    → HasWidth width rows
    → length (write_rows width rows) ≡ length rows * (width * 3 + padding width)
unfolding write_rows
length-write_rows width [] h = omega arith
length-write_rows width (row ∷ rows) h = omega (
  arith,
  h.0,
  length-append row (replicate (padding width) 0 ++ write_rows width rows),
  length-append (replicate (padding width) 0) (write_rows width rows),
  length-replicate (padding width) (let z : ℕ = 0 in z),
  length-write_rows width rows h.1,
)

-- The three parts of a file with both headers in front of `body`.
pub record Parts (file out body : List ℕ) : Type 0 where
  pub same_header : header out ≡ header file
  pub same_info : info_header out ≡ info_header file
  pub rest : drop 54 out ≡ body
  pub size : length out ≡ 54 + length body

abbrev pub with_headers : List ℕ → List ℕ → List ℕ
with_headers file body = header file ++ (info_header file ++ body)

pub with_headers-Parts :
    (file body : List ℕ) → 54 ≤ length file → Parts file (with_headers file body) body
with_headers-Parts file body h = record {
  same_header = take-of_length 14 (header file) (info_header file ++ body) first;
  same_info = ap (take 40) behind ∙ take-of_length 40 (info_header file) body second;
  rest =
      sym (drop-drop 14 40 (with_headers file body))
      ∙ ap (drop 40) behind
      ∙ drop-of_length 40 (info_header file) body second;
  size = omega (
    arith,
    first,
    second,
    length-append (header file) (info_header file ++ body),
    length-append (info_header file) body,
  );
}
  where
    first : length (header file) ≡ 14
    first = omega (arith, length-take 14 file)

    second : length (info_header file) ≡ 40
    second = omega (arith, length-take 40 (drop 14 file), length-drop 14 file)

    behind : drop 14 (with_headers file body) ≡ info_header file ++ body
    behind = drop-of_length 14 (header file) (info_header file ++ body) first

-- What a run that saves has found in the file, and what it writes.
pub record Saves (memory : ℕ → List ℕ) (file out : List ℕ) : Type 0 where
  pub width : ℕ
  pub width_is : bi_width file ≡ pos (suc width)
  pub has_headers : 54 ≤ length file
  pub magic : (bf_type file ≡ 0x4d42) × (bi_bit_count file ≡ 24)
  pub written :
      out
      ≡ with_headers file (
          write_rows (suc width) (
            grey_rows (
              read_rows memory
                (suc width)
                (rows_of (bi_height file))
                (drop (bf_off_bits file) file))))

module _ (malloc_ok can_create : Bool) (memory : ℕ → List ℕ) (file out : List ℕ) where
  filter_rows-written :
      (width : ℕ)
      → filter_rows malloc_ok can_create memory file width ≡ saved out
      → out
        ≡ with_headers file (
            write_rows width (
              grey_rows
                (read_rows memory width (rows_of (bi_height file)) (drop (bf_off_bits file) file))))
  unfolding filter_rows
  filter_rows-written width e = ground arith

  filter_width-Saves :
      (w : ℤ)
      → bi_width file ≡ w
      → (bf_type file ≡ 0x4d42) × (bi_bit_count file ≡ 24)
      → 54 ≤ length file
      → filter_width malloc_ok can_create memory file w ≡ saved out
      → Saves memory file out
  unfolding filter_width
  filter_width-Saves (pos zero) q m h e = cc
  filter_width-Saves (pos (suc w)) q m h e = record {
    width = w;
    width_is = q;
    has_headers = h;
    magic = m;
    written = filter_rows-written (suc w) e;
  }
  filter_width-Saves (negsuc w) q m h e = cc

  check_depth-Saves :
      bf_type file ≡ 0x4d42
      → check_depth malloc_ok can_create memory file ≡ saved out
      → Saves memory file out
  unfolding check_depth
  check_depth-Saves m =
      if_elim (λ (r : Outcome). r ≡ saved out → Saves memory file out) (ltb (length file) 30)
        (λ c e. cc)
        (λ c.
          if_elim (λ (r : Outcome). r ≡ saved out → Saves memory file out)
            (not (bi_bit_count file == 24)) (λ d e. cc)
            (λ d.
              if_elim (λ (r : Outcome). r ≡ saved out → Saves memory file out)
                (ltb (length file) 54) (λ l e. cc)
                (λ l e.
                  filter_width-Saves (bi_width file) refl (m, ground (arith, d)) (ground (arith, l))
                    e)))

  pub greyscale-Saves :
      greyscale malloc_ok can_create memory file ≡ saved out → Saves memory file out
  unfolding greyscale
  greyscale-Saves =
      if_elim (λ (r : Outcome). r ≡ saved out → Saves memory file out) (ltb (length file) 2)
        (λ c e. cc)
        (λ c.
          if_elim (λ (r : Outcome). r ≡ saved out → Saves memory file out)
            (not (bf_type file == 0x4d42)) (λ d e. cc) (λ d. check_depth-Saves (ground (arith, d))))

-- A file that is saved keeps both headers, and its pixel rows follow at byte 54, each of
-- the width in pixels and padded to a multiple of four bytes, whatever offset the header names.
pub greyscale_layout :
    (malloc_ok can_create : Bool) (memory : ℕ → List ℕ) (file out : List ℕ) (width : ℕ)
    → bi_width file ≡ pos width
    → ((i : ℕ) → length (memory i) ≡ width * 3)
    → greyscale malloc_ok can_create memory file ≡ saved out
    → (header out ≡ header file)
      × (info_header out ≡ info_header file)
      × (bf_off_bits out ≡ bf_off_bits file)
      × (length out ≡ 54 + rows_of (bi_height file) * (width * 3 + padding width))
      × (drop 54 out
          ≡ write_rows width (
              grey_rows
                (read_rows memory width (rows_of (bi_height file)) (drop (bf_off_bits file) file))))
greyscale_layout malloc_ok can_create memory file out width q m e =
    let s = greyscale-Saves malloc_ok can_create memory file out e in
    let parts = with_headers-Parts file (body width) s.has_headers in
    let same : suc s.width ≡ width = cc (s.width_is, q) in
    rw (s.written ∙ ap (λ w. with_headers file (body w)) same) (
      parts.same_header,
      parts.same_info,
      ap (λ t. load32 t 10) parts.same_header,
      parts.size ∙ ap (λ n. 54 + n) size,
      parts.rest,
    )
  where
    rows : ℕ → List (List ℕ)
    rows w = read_rows memory w (rows_of (bi_height file)) (drop (bf_off_bits file) file)

    body : ℕ → List ℕ
    body w = write_rows w (grey_rows (rows w))

    size : length (body width) ≡ rows_of (bi_height file) * (width * 3 + padding width)
    size =
        let (rw_ok, rl) =
          read_rows-HasWidth memory width (rows_of (bi_height file)) (drop (bf_off_bits file) file)
            m in
        let (gw, gl) = grey_rows-HasWidth width (rows width) rw_ok in
        length-write_rows width (grey_rows (rows width)) gw
        ∙ ap (λ n. n * (width * 3 + padding width)) (gl ∙ rl)
