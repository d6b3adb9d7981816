-- ===== src/HttpServer.antt =====
-- projects/networking/http-server/main.c: the name of the file, its extension and its MIME type.
pub mod Accepting
pub mod Name
pub mod Handler
mod Tests
use mathlib.Core.Option
use c_systems_programming.Common.{
  ℕ, zero, suc, ◌+◌, ◌-◌, ◌*◌, ◌%◌, ◌≤◌, ◌<◌, ◌≡◌, ◌^◌, min, List, [], ◌∷◌, ◌++◌, map, Bool, true,
  false, Option, some, none, Text, codes, ltb, leb, ◌==◌, not, ◌&&◌, ◌||◌, if◌then◌else◌, length,
  take, drop, u8, text_eq, is_space, is_digit,
}

-- A hexadecimal digit of either case.
abbrev pub hex_digit : ℕ → Option ℕ
hex_digit c =
    if is_digit c
    then some (c - 48)
    else if leb 65 c && leb c 70
    then some (c - 55)
    else if leb 97 c && leb c 102
    then some (c - 87)
    else none

-- What `%2x` reads behind white space: at most two characters, which may be a sign and a digit. It
-- fails where no digit is read, and on `0x` with no digit in reach.
abbrev second_digit : ℕ → Option ℕ → ℕ
second_digit high none = high
second_digit high (some low) = high * 16 + low

abbrev two_digits : Option ℕ → Text → Option ℕ
two_digits none rest = none
two_digits (some high) [] = some high
two_digits (some high) (d ∷ rest) =
    if (high == 0) && ((d == b'x') || (d == b'X'))
    then none
    else some (second_digit high (hex_digit d))

abbrev one_digit : Text → Option ℕ
one_digit [] = none
one_digit (d ∷ rest) = hex_digit d

abbrev scan_number : ℕ → Text → Option ℕ
scan_number c rest =
    if c == b'-'
    then Option.map (λ n. (2 ^ 32 - n) % 2 ^ 32) (one_digit rest)
    else if c == b'+'
    then one_digit rest
    else two_digits (hex_digit c) rest

-- `sscanf(text, "%2x", &hex)`; the value is an `unsigned int`.
unfoldable pub scan_hex : Text → Option ℕ
scan_hex [] = none
scan_hex (c ∷ rest) = let skip = scan_hex rest in if is_space c then skip else scan_number c rest

-- The byte stored for an escape: where sscanf fails, `hex` is not initialised.
abbrev pub escape : ℕ → Option ℕ → ℕ
escape stale none = u8 stale
escape stale (some n) = u8 n

-- The loop of `get_filename`; `i + 2 < len` says that two characters follow. `stale` is the content
-- of `hex` with a given number of characters left.
pub get_filename : (ℕ → ℕ) → Text → Text
get_filename stale [] = []
get_filename stale (c ∷ []) = c ∷ []
get_filename stale (c ∷ (a ∷ [])) = c ∷ a ∷ []
get_filename stale (c ∷ (a ∷ (b ∷ more))) =
    let skip = get_filename stale more in
    let keep = get_filename stale (a ∷ (b ∷ more)) in
    if c == b'%' then escape (stale (length more)) (scan_hex (a ∷ (b ∷ more))) ∷ skip else c ∷ keep

-- `strrchr`: the text from the last such character on.
abbrev or_here : Option Text → Bool → Text → Option Text
or_here (some later) here text = some later
or_here none here text = if here then some text else none

abbrev pub strrchr : ℕ → Text → Option Text
strrchr c [] = none
strrchr c (x ∷ xs) = or_here (strrchr c xs) (x == c) (x ∷ xs)

-- `get_extension`; the point starts the name when the text from it on is as long as the name.
abbrev pub after_point : Text → Option Text → Text
after_point url_file none = []
after_point url_file (some point) = if length point == length url_file then [] else drop 1 point

pub get_extension : Text → Text
get_extension url_file = after_point url_file (strrchr b'.' url_file)

-- `strcasecmp(a, b) == 0` in the C locale.
abbrev pub lower : ℕ → ℕ
lower c = if leb 65 c && leb c 90 then c + 32 else c

abbrev pub same_letters : Text → Text → Bool
same_letters a b = text_eq (map lower a) (map lower b)

-- `get_mime`
pub get_mime : Text → Text
get_mime extension =
    if same_letters extension (codes "html")
    then codes "text/html"
    else if same_letters extension (codes "txt")
    then codes "text/plain"
    else if same_letters extension (codes "jpg") || same_letters extension (codes "jpeg")
    then codes "image/jpeg"
    else if same_letters extension (codes "png")
    then codes "image/png"
    else codes "application/octet-stream"
