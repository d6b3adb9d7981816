-- ===== src/Greyscale/Tests.antt =====
-- Runs of projects/graphics/greyscale-filter/main.c on an image of one pixel.
use c_systems_programming.Common.{
  ℕ, ◌+◌, ◌*◌, ◌≡◌, refl, List, [], ◌∷◌, ◌++◌, true, false, drop, length, replicate,
}
use c_systems_programming.Greyscale.{
  Pixel, refused, undefined, saved, header, info_header, bf_off_bits, bi_height, rows_of, padding,
  grey, grey_rows, read_row, grey_row, read_rows, write_rows, filter_rows, filter_width,
  check_depth, greyscale,
}
use c_systems_programming.Greyscale.Layout.{greyscale_layout}
use c_systems_programming.Greyscale.Again.{greyscale_again}

-- "BM", the file's size and the offset of the pixels; then the size, the width, the height, the
-- planes and the bits of the information header.
abbrev both_headers : List ℕ
both_headers =
    0x42
    ∷ 0x4d
    ∷ 58
    ∷ 0
    ∷ 0
    ∷ 0
    ∷ 0
    ∷ 0
    ∷ 0
    ∷ 0
    ∷ 54
    ∷ 0
    ∷ 0
    ∷ 0
    ∷ 40
    ∷ 0
    ∷ 0
    ∷ 0
    ∷ 1
    ∷ 0
    ∷ 0
    ∷ 0
    ∷ 1
    ∷ 0
    ∷ 0
    ∷ 0
    ∷ 1
    ∷ 0
    ∷ 24
    ∷ 0
    ∷ replicate 24 0

abbrev one_pixel : List ℕ
one_pixel = both_headers ++ (10 ∷ 20 ∷ 60 ∷ 0 ∷ [])

abbrev one_grey : List ℕ
one_grey = both_headers ++ (30 ∷ 30 ∷ 30 ∷ 0 ∷ [])

abbrev noise : ℕ → ℕ → List ℕ
noise byte i = replicate 3 byte

abbrev orange : Pixel
orange = record { blue = 10; green = 20; red = 60 }

one_pixel-saved : greyscale true true (noise 7) one_pixel ≡ saved one_grey
unfolding greyscale check_depth filter_width filter_rows read_rows read_row write_rows grey_rows
    grey_row grey padding
one_pixel-saved = refl

cannot_create : greyscale true false (noise 7) one_pixel ≡ undefined
unfolding greyscale check_depth filter_width filter_rows
cannot_create = refl

not_bitmap : greyscale true true (noise 7) (0 ∷ one_pixel) ≡ refused
unfolding greyscale
not_bitmap = refl

greyscale_layout_example :
    (header one_grey ≡ header one_pixel)
    × (info_header one_grey ≡ info_header one_pixel)
    × (bf_off_bits one_grey ≡ bf_off_bits one_pixel)
    × (length one_grey ≡ 54 + rows_of (bi_height one_pixel) * (1 * 3 + padding 1))
    × (drop 54 one_grey
        ≡ write_rows 1 (
            grey_rows (
              read_rows
                (noise 7)
                1
                (rows_of (bi_height one_pixel))
                (drop (bf_off_bits one_pixel) one_pixel))))
greyscale_layout_example =
    greyscale_layout true true (noise 7) one_pixel one_grey 1 refl (λ i. refl) one_pixel-saved

greyscale_again_example : greyscale true true (noise 9) one_grey ≡ saved one_grey
greyscale_again_example =
    greyscale_again (noise 7) (noise 9) one_pixel one_grey 1 refl refl (λ i. refl) (λ i. refl)
      one_pixel-saved
