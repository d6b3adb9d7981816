-- ===== src/Hexdump/Decode.antt =====
-- Reading back the data column that `print_data` of tools/hexdump/main.c prints.
use c_systems_programming.Common.{
  ℕ, zero, suc, ◌+◌, ◌-◌, ◌*◌, ◌/◌, ◌%◌, ◌≤◌, ◌<◌, ◌≡◌, refl, List, [], ◌∷◌, ◌++◌, Text, length,
  arith, ◌==◌, not, if◌then◌else◌, ◌≢◌, All, All-append, true, false, IsBytes, append_assoc,
  append-nil, ap, sym, ◌∙◌, Bool-cases, inl, inr,
}
use c_systems_programming.Hexdump.{
  Options, DataFormat, data_hex, data_binary, digit_char, separator, print_cell, blank_cell,
  print_cells, print_missing, print_data,
}
use c_systems_programming.Hexdump.Digits.{digit_value, digit_value-digit_char}
use c_systems_programming.Hexdump.Bounds.{cell_width}

abbrev cell_base : DataFormat → ℕ
cell_base data_hex = 16
cell_base data_binary = 2

-- A reader that knows nothing of groups: it skips spaces and takes `cell_width` digits for a byte.
-- `left` digits are missing of the byte whose first digits have the value `acc`.
pub decode_from : DataFormat → ℕ → ℕ → Text → List ℕ
decode_from f left acc [] = []
decode_from f left acc (c ∷ cs) = elim (c == 32) [
  | true ↦ decode_from f left acc cs
  | false ↦ elim (left == 1) [
    | true ↦ (acc * cell_base f + digit_value c) ∷ decode_from f (cell_width f) 0 cs
    | false ↦ decode_from f (left - 1) (acc * cell_base f + digit_value c) cs
  ]
]

pub decode : DataFormat → Text → List ℕ
decode f t = decode_from f (cell_width f) 0 t

abbrev IsSpaces : Text → Type 0
IsSpaces = All (λ c. c ≡ 32)

digit_char-ge : (d : ℕ) → 48 ≤ digit_char d
unfolding digit_char
digit_char-ge d = ground arith

module _ (f : DataFormat) (left acc c : ℕ) (cs : Text) where
  digit_more :
      left ≢ 1
      → 48 ≤ c
      → decode_from f left acc (c ∷ cs)
        ≡ decode_from f (left - 1) (acc * cell_base f + digit_value c) cs
  unfolding decode_from
  digit_more h k = ground arith

  digit_last :
      left ≡ 1
      → 48 ≤ c
      → decode_from f left acc (c ∷ cs)
        ≡ (acc * cell_base f + digit_value c) ∷ decode_from f (cell_width f) 0 cs
  unfolding decode_from
  digit_last h k = ground arith

bit_more :
    (left acc x : ℕ) (cs : Text)
    → left ≢ 1
    → x < 2
    → decode_from data_binary left acc ((48 + x) ∷ cs)
      ≡ decode_from data_binary (left - 1) (acc * 2 + x) cs
bit_more left acc x cs h k =
    digit_more data_binary left acc (48 + x) cs h (omega arith)
    ∙ ap (λ v. decode_from data_binary (left - 1) (acc * 2 + v) cs) (ground arith)

bit_last :
    (acc x : ℕ) (cs : Text)
    → x < 2
    → decode_from data_binary 1 acc ((48 + x) ∷ cs) ≡ (acc * 2 + x) ∷ decode data_binary cs
unfolding decode
bit_last acc x cs k =
    digit_last data_binary 1 acc (48 + x) cs refl (omega arith)
    ∙ ap (λ v. (acc * 2 + v) ∷ decode_from data_binary 8 0 cs) (ground arith)

decode-cell_hex :
    (b : ℕ) (t : Text)
    → b < 256
    → decode data_hex (print_cell data_hex b ++ t) ≡ b ∷ decode data_hex t
unfolding decode print_cell
decode-cell_hex b t h =
    digit_more data_hex 2 0 _ _ (omega arith) (digit_char-ge (b / 16))
    ∙ digit_last data_hex 1 _ _ _ refl (digit_char-ge (b % 16))
    ∙ ap (λ v. v ∷ decode_from data_hex 2 0 t)
        (omega (arith, digit_value-digit_char (b / 16), digit_value-digit_char (b % 16)))

decode-cell_binary :
    (b : ℕ) (t : Text)
    → b < 256
    → decode data_binary (print_cell data_binary b ++ t) ≡ b ∷ decode data_binary t
unfolding decode print_cell
decode-cell_binary b t h =
    bit_more 8 0 _ _ (omega arith) (omega arith)
    ∙ bit_more 7 _ _ _ (omega arith) (omega arith)
    ∙ bit_more 6 _ _ _ (omega arith) (omega arith)
    ∙ bit_more 5 _ _ _ (omega arith) (omega arith)
    ∙ bit_more 4 _ _ _ (omega arith) (omega arith)
    ∙ bit_more 3 _ _ _ (omega arith) (omega arith)
    ∙ bit_more 2 _ _ _ (omega arith) (omega arith)
    ∙ bit_last _ _ _ (omega arith)
    ∙ ap (λ v. v ∷ decode_from data_binary 8 0 t) (omega arith)

decode-print_cell :
    (f : DataFormat) (b : ℕ) (t : Text) → b < 256 → decode f (print_cell f b ++ t) ≡ b ∷ decode f t
decode-print_cell data_hex = decode-cell_hex
decode-print_cell data_binary = decode-cell_binary

decode-spaces : (f : DataFormat) (s t : Text) → IsSpaces s → decode f (s ++ t) ≡ decode f t
unfolding decode decode_from
decode-spaces f [] t h = refl
decode-spaces f (c ∷ s) t h = rw h.0 (decode-spaces f s t h.1)

separator-IsSpaces : (opts : Options) (i : ℕ) → IsSpaces (separator opts i)
unfolding separator
separator-IsSpaces opts i = ground arith

blank_cell-IsSpaces : (f : DataFormat) → IsSpaces (blank_cell f)
unfolding blank_cell
blank_cell-IsSpaces data_hex = (refl, (refl, tt))
blank_cell-IsSpaces data_binary = (refl, (refl, (refl, (refl, (refl, (refl, (refl, (refl, tt))))))))

print_missing-IsSpaces : (opts : Options) (i m : ℕ) → IsSpaces (print_missing opts i m)
unfolding print_missing
print_missing-IsSpaces opts i zero = tt
print_missing-IsSpaces opts i (suc m) =
    All-append _ (separator opts i) _ (separator-IsSpaces opts i) (
      All-append _ (blank_cell opts.data_format) _ (blank_cell-IsSpaces opts.data_format)
        (print_missing-IsSpaces opts (i + 1) m))

decode-print_cells :
    (opts : Options) (i : ℕ) (bs : List ℕ) (t : Text)
    → IsBytes bs
    → decode opts.data_format (print_cells opts i bs ++ t) ≡ bs ++ decode opts.data_format t
unfolding print_cells
decode-print_cells opts i [] t h = refl
decode-print_cells opts i (b ∷ bs) t h =
    rw (append_assoc, append_assoc)
      (decode-spaces f (separator opts i) _ (separator-IsSpaces opts i)
        ∙ decode-print_cell f b _ h.0
        ∙ ap (λ r. b ∷ r) (decode-print_cells opts (i + 1) bs t h.1))
  where
    open opts use {data_format as f}

blanks : Options → ℕ → Text
blanks opts n = if not (n == opts.width) then print_missing opts n (opts.width - n) else []

decode-blanks : (opts : Options) (n : ℕ) → decode opts.data_format (blanks opts n) ≡ []
unfolding blanks decode decode_from
decode-blanks opts n = elim (Bool-cases (n == opts.width)) [
  | inl full ↦ rw full refl
  | inr short ↦ rw short (
      ap (decode opts.data_format) (sym (append-nil (print_missing opts n (opts.width - n))))
      ∙ decode-spaces opts.data_format _ [] (print_missing-IsSpaces opts n (opts.width - n)))
]

-- A reader of the data column that skips the spaces finds the bytes of the line.
pub decode-print_data :
    (opts : Options) (buffer : List ℕ)
    → IsBytes buffer
    → decode opts.data_format (print_data opts buffer) ≡ buffer
unfolding print_data blanks
decode-print_data opts buffer h =
    decode-print_cells opts 0 buffer (blanks opts (length buffer)) h
    ∙ ap (λ r. buffer ++ r) (decode-blanks opts (length buffer))
    ∙ append-nil buffer
