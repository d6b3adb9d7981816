-- ===== src/Hexdump/Digits.antt =====
-- Reading the numbers back that `print_offset` of tools/hexdump/main.c prints.
use native.Mathlib.Nat.{pow-suc}
use c_systems_programming.Common.{
  ℕ, zero, suc, ◌+◌, ◌-◌, ◌*◌, ◌/◌, ◌%◌, ◌^◌, ◌≤◌, ◌<◌, ◌≡◌, ◌⊎◌, inl, inr, refl, [], ◌∷◌, ◌++◌,
  Text, length, arith, ap, ◌∙◌, ◌==◌, ◌≢◌, ltb, if◌then◌else◌, replicate, All, All-append,
}
use c_systems_programming.Hexdump.{
  Options, OffsetFormat, offset_hex, offset_decimal, digit_char, digits_from, print_number, pad8,
  radix,
}

-- The value of a digit, letters in upper case.
abbrev pub digit_value : ℕ → ℕ
digit_value c = if ltb c 58 then c - 48 else c - 55

-- The value of a text of digits in base `b`, after the digits whose value is `acc`.
abbrev pub value_from : ℕ → ℕ → Text → ℕ
value_from b acc [] = acc
value_from b acc (c ∷ cs) = value_from b (acc * b + digit_value c) cs

abbrev pub IsDigitChar : ℕ → Type 0
IsDigitChar c = (48 ≤ c) × ((c ≤ 57) ⊎ (65 ≤ c))

pub digit_value-digit_char : (d : ℕ) → d < 16 → digit_value (digit_char d) ≡ d
unfolding digit_char
digit_value-digit_char d h = ground arith

digit_char-IsDigitChar : (d : ℕ) → IsDigitChar (digit_char d)
unfolding digit_char
digit_char-IsDigitChar d = ground arith

module _ (b : ℕ) (base : (b ≡ 10) ⊎ (b ≡ 16)) where
  value-digits_from :
      (f n : ℕ) (acc : Text)
      → n < 2 ^ f
      → value_from b 0 (digits_from b f n acc) ≡ value_from b n acc
  unfolding digits_from
  value-digits_from zero n acc h = let e : n ≡ 0 = omega arith in rw e
  value-digits_from (suc f) n acc h = elim base [
    | inl e ↦ ground (
      arith,
      value-digits_from f (n / b) (digit_char (n % b) ∷ acc),
      digit_value-digit_char n,
      digit_value-digit_char (n % b),
      pow-suc 2 f,
    )
    | inr e ↦ ground (
      arith,
      value-digits_from f (n / b) (digit_char (n % b) ∷ acc),
      digit_value-digit_char n,
      digit_value-digit_char (n % b),
      pow-suc 2 f,
    )
  ]

  digits_from-IsDigitChar :
      (f n : ℕ) (acc : Text) → All IsDigitChar acc → All IsDigitChar (digits_from b f n acc)
  unfolding digits_from
  digits_from-IsDigitChar zero n acc h = h
  digits_from-IsDigitChar (suc f) n acc h = ground (
    arith,
    digit_char-IsDigitChar n,
    digits_from-IsDigitChar f (n / b) (digit_char (n % b) ∷ acc),
    digit_char-IsDigitChar (n % b),
  )

value-zeros : (b k : ℕ) (t : Text) → value_from b 0 (replicate k 48 ++ t) ≡ value_from b 0 t
value-zeros b zero t = refl
value-zeros b (suc k) t =
    ap (λ a. value_from b a (replicate k 48 ++ t)) (omega arith) ∙ value-zeros b k t

zeros-IsDigitChar : (k : ℕ) → All IsDigitChar (replicate k 48)
zeros-IsDigitChar zero = tt
zeros-IsDigitChar (suc k) = ((omega arith, inl (omega arith)), zeros-IsDigitChar k)

-- The text before and after the first `c`.
abbrev pub before : ℕ → Text → Text
before c [] = []
before c (x ∷ xs) = if x == c then [] else x ∷ before c xs

abbrev pub after : ℕ → Text → Text
after c [] = []
after c (x ∷ xs) = if x == c then xs else after c xs

abbrev Avoids : ℕ → Text → Type 0
Avoids c = All (λ x. x ≢ c)

pub before-append : (c : ℕ) (xs ys : Text) → Avoids c xs → before c (xs ++ (c ∷ ys)) ≡ xs
before-append c [] ys h = ground arith
before-append c (x ∷ xs) ys h = ground (arith, h.0, before-append c xs ys h.1)

pub after-append : (c : ℕ) (xs ys : Text) → Avoids c xs → after c (xs ++ (c ∷ ys)) ≡ ys
after-append c [] ys h = ground arith
after-append c (x ∷ xs) ys h = ground (arith, h.0, after-append c xs ys h.1)

digits-Avoids : (xs : Text) → All IsDigitChar xs → Avoids 58 xs
digits-Avoids [] h = tt
digits-Avoids (x ∷ xs) h = (omega (arith, h.0), digits-Avoids xs h.1)

radix_base : (f : OffsetFormat) → (radix f ≡ 10) ⊎ (radix f ≡ 16)
unfolding radix
radix_base offset_hex = inr refl
radix_base offset_decimal = inl refl

-- The digits that `print_offset` prints before the colon.
abbrev pub offset_digits : Options → ℕ → Text
offset_digits opts n = pad8 (print_number (radix opts.offset_format) n)

pub offset_digits-Avoids : (opts : Options) (n : ℕ) → Avoids 58 (offset_digits opts n)
unfolding pad8 print_number
offset_digits-Avoids opts n = digits-Avoids _ (
    All-append IsDigitChar (replicate (8 - length t) 48) t (zeros-IsDigitChar (8 - length t))
      (digits_from-IsDigitChar b (radix_base opts.offset_format) 64 n [] tt))
  where
    b : ℕ
    b = radix opts.offset_format

    t : Text
    t = digits_from b 64 n []

-- The digits of an offset, as `print_offset` pads them, have the offset as their value in the chosen
-- radix, for every offset that a size_t holds.
pub value-offset_digits :
    (opts : Options) (n : ℕ)
    → n < 2 ^ 64
    → value_from (radix opts.offset_format) 0 (offset_digits opts n) ≡ n
unfolding pad8 print_number
value-offset_digits opts n h =
    value-zeros b (8 - length t) t ∙ value-digits_from b (radix_base opts.offset_format) 64 n [] h
  where
    b : ℕ
    b = radix opts.offset_format

    t : Text
    t = digits_from b 64 n []
