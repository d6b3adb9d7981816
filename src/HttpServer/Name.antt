-- ===== src/HttpServer/Name.antt =====
-- What `get_filename` and `get_extension` of projects/networking/http-server/main.c give.
use c_systems_programming.Common.{
  ℕ, suc, ◌+◌, ◌/◌, ◌%◌, ◌≤◌, ◌<◌, ◌≡◌, ◌≢◌, refl, ap, ◌∙◌, List, [], ◌∷◌, ◌++◌, Bool, true, false,
  some, none, Text, ltb, ◌==◌, ◌&&◌, ◌||◌, if◌then◌else◌, length, arith, IsBytes, All, if_elim,
  is_space, length-append,
}
use c_systems_programming.HttpServer.{hex_digit, scan_hex, get_filename, get_extension, strrchr}

-- Percent-encoding of the bytes that are not kept.
abbrev pub hex_char : ℕ → ℕ
hex_char d = if ltb d 10 then 48 + d else 55 + d

abbrev pub encode : (ℕ → Bool) → List ℕ → Text
encode keep [] = []
encode keep (b ∷ bs) =
    let rest = encode keep bs in
    if keep b then b ∷ rest else b'%' ∷ hex_char (b / 16) ∷ hex_char (b % 16) ∷ rest

hex_digit-hex_char : (d : ℕ) → d < 16 → hex_digit (hex_char d) ≡ some d
hex_digit-hex_char d h = ground arith

scan_hex-hex_char :
    (b : ℕ) (rest : Text)
    → b < 256
    → scan_hex (hex_char (b / 16) ∷ hex_char (b % 16) ∷ rest) ≡ some b
unfolding scan_hex
scan_hex-hex_char b rest h =
    rw
      (
        no_space,
        no_minus,
        no_plus,
        hex_digit-hex_char (b / 16) (omega arith),
        no_x,
        hex_digit-hex_char (b % 16) (omega arith),
      )
      (ap some (omega arith))
  where
    no_space : is_space (hex_char (b / 16)) ≡ false
    no_space = ground arith

    no_minus : (hex_char (b / 16) == b'-') ≡ false
    no_minus = ground arith

    no_plus : (hex_char (b / 16) == b'+') ≡ false
    no_plus = ground arith

    no_x : ((b / 16 == 0) && ((hex_char (b % 16) == b'x') || (hex_char (b % 16) == b'X'))) ≡ false
    no_x = ground arith

get_filename-nil : (stale : ℕ → ℕ) → get_filename stale [] ≡ []
unfolding get_filename
get_filename-nil stale = refl

get_filename-plain :
    (stale : ℕ → ℕ) (c : ℕ) (rest : Text)
    → c ≢ b'%'
    → get_filename stale (c ∷ rest) ≡ c ∷ get_filename stale rest
unfolding get_filename
get_filename-plain stale c [] ne = refl
get_filename-plain stale c (a ∷ []) ne = refl
get_filename-plain stale c (a ∷ (b ∷ more)) ne = ground (arith, ne)

get_filename-escape :
    (stale : ℕ → ℕ) (b : ℕ) (rest : Text)
    → b < 256
    → get_filename stale (b'%' ∷ hex_char (b / 16) ∷ hex_char (b % 16) ∷ rest)
      ≡ b ∷ get_filename stale rest
unfolding get_filename
get_filename-escape stale b rest h =
    rw (scan_hex-hex_char b rest h) (ap (λ c. c ∷ get_filename stale rest) (omega arith))

-- A client may percent-encode any bytes of a path, as long as it encodes every %: the server finds
-- the path itself, whatever the uninitialised memory holds.
pub get_filename-encode :
    (stale : ℕ → ℕ) (keep : ℕ → Bool) (path : List ℕ)
    → IsBytes path
    → keep b'%' ≡ false
    → get_filename stale (encode keep path) ≡ path
get_filename-encode stale keep [] bytes k = get_filename-nil stale
get_filename-encode stale keep (b ∷ bs) bytes k =
    if_elim (λ (t : Text). get_filename stale t ≡ b ∷ bs) (keep b)
      (λ e.
        get_filename-plain stale b (encode keep bs) (λ q. cc (e, k, ap keep q))
        ∙ ap (λ r. b ∷ r) (get_filename-encode stale keep bs bytes.1 k))
      (λ e.
        get_filename-escape stale b (encode keep bs) bytes.0
        ∙ ap (λ r. b ∷ r) (get_filename-encode stale keep bs bytes.1 k))

-- The name that is stored fits the memory that `get_filename` allocates for it.
pub length-get_filename :
    (stale : ℕ → ℕ) (file : Text) → length (get_filename stale file) ≤ length file
unfolding get_filename
length-get_filename stale [] = omega arith
length-get_filename stale (c ∷ []) = omega arith
length-get_filename stale (c ∷ (a ∷ [])) = omega arith
length-get_filename stale (c ∷ (a ∷ (b ∷ more))) =
    if_elim (λ (t : Text). length t ≤ suc (suc (suc (length more)))) (c == b'%')
      (λ e. omega (arith, length-get_filename stale more))
      (λ e. omega (arith, length-get_filename stale (a ∷ (b ∷ more))))

abbrev pub NoPoint : Text → Type 0
NoPoint = All (λ c. c ≢ b'.')

strrchr-none : (text : Text) → NoPoint text → strrchr b'.' text ≡ none
strrchr-none [] h = refl
strrchr-none (c ∷ cs) h = rw (strrchr-none cs h.1) ground (arith, h.0)

strrchr-append :
    (stem ext : Text) → NoPoint ext → strrchr b'.' (stem ++ (b'.' ∷ ext)) ≡ some (b'.' ∷ ext)
strrchr-append [] ext h = rw (strrchr-none ext h) refl
strrchr-append (c ∷ cs) ext h = rw (strrchr-append cs ext h) refl

-- The extension of a name is what follows its last point, and nothing if there is no point or if
-- the last point starts the name.
pub get_extension_lem :
    (c : ℕ) (stem ext : Text)
    → NoPoint ext
    → (get_extension ext ≡ [])
      × (get_extension (b'.' ∷ ext) ≡ [])
      × (get_extension (c ∷ (stem ++ (b'.' ∷ ext))) ≡ ext)
unfolding get_extension
get_extension_lem c stem ext h = (
  rw (strrchr-none ext h) refl,
  rw (strrchr-append [] ext h) (rw same refl),
  rw (strrchr-append (c ∷ stem) ext h) (rw longer refl),
)
  where
    same : (suc (length ext) == suc (length ext)) ≡ true
    same = ground arith

    longer : (suc (length ext) == suc (length (stem ++ (b'.' ∷ ext)))) ≡ false
    longer = ground (arith, length-append stem (b'.' ∷ ext))
