-- ===== src/Greyscale/Pixels.antt =====
-- The filter of projects/graphics/greyscale-filter/main.c on a pixel and on a row.
use c_systems_programming.Common.{
  ℕ, ◌+◌, ◌/◌, ◌≤◌, ◌<◌, ◌≡◌, refl, List, [], ◌∷◌, length, arith, min, max, u8,
}
use c_systems_programming.Greyscale.{Pixel, grey, grey_row, grey_rows}

-- The pixel becomes grey, between its darkest and its brightest channel, and a grey one stays.
pub grey_lem :
    (p : Pixel)
    → p.blue < 256
    → p.green < 256
    → p.red < 256
    → let g = grey p in
      (g.blue ≡ g.green)
      × (g.green ≡ g.red)
      × (min (min p.blue p.green) p.red ≤ g.red)
      × (g.red ≤ max (max p.blue p.green) p.red)
      × (grey g ≡ g)
unfolding grey
grey_lem p hb hg hr = (refl, refl, omega arith, omega arith, ground arith)

average_idem : (t : ℕ) → u8 ((u8 t + u8 t + u8 t) / 3) ≡ u8 t
average_idem t = omega arith

pub length-grey_row : (row : List ℕ) → length (grey_row row) ≡ length row
unfolding grey_row grey
length-grey_row [] = refl
length-grey_row (b ∷ []) = refl
length-grey_row (b ∷ (g ∷ [])) = refl
length-grey_row (b ∷ (g ∷ (r ∷ rest))) = omega (arith, length-grey_row rest)

pub grey_row-grey_row : (row : List ℕ) → grey_row (grey_row row) ≡ grey_row row
unfolding grey_row grey
grey_row-grey_row [] = refl
grey_row-grey_row (b ∷ []) = refl
grey_row-grey_row (b ∷ (g ∷ [])) = refl
grey_row-grey_row (b ∷ (g ∷ (r ∷ rest))) =
    rw (average_idem ((r + g + b) / 3), grey_row-grey_row rest)

pub grey_rows-grey_rows : (rows : List (List ℕ)) → grey_rows (grey_rows rows) ≡ grey_rows rows
unfolding grey_rows
grey_rows-grey_rows [] = refl
grey_rows-grey_rows (row ∷ rows) = rw (grey_row-grey_row row, grey_rows-grey_rows rows)
