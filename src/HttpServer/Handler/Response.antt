-- ===== src/HttpServer/Handler/Response.antt =====
-- The response that `build_http` of projects/networking/http-server/main.c builds.
use c_systems_programming.Common.{
  ℕ, zero, suc, ◌+◌, ◌-◌, ◌≤◌, ◌<◌, ◌≡◌, ◌≢◌, refl, sym, ap, ◌∙◌, min, List, [], ◌∷◌, ◌++◌, Option,
  some, none, Text, codes, ◌==◌, length, take, drop, arith, if_elim, length-append, length-take,
  length-drop, take-nil,
}
use c_systems_programming.HttpServer.{get_mime}
use c_systems_programming.HttpServer.Handler.{
  buffer_size, ok_header, granted, read_loop, build_http,
}

take-split {ℓ} :
    {A : Type ℓ} (m n : ℕ) (xs : List A) → take m xs ++ take n (drop m xs) ≡ take (m + n) xs
take-split zero n xs = ap (λ k. take k xs) (omega arith)
take-split {A} (suc m) n [] = take-nil A n ∙ sym (take-nil A (suc m + n))
take-split (suc m) n (x ∷ xs) =
    let e : suc (m + n) ≡ suc m + n = omega arith in
    ap (λ t. x ∷ t) (take-split m n xs) ∙ ap (λ k. take k (x ∷ xs)) e

take-append_front {ℓ} :
    {A : Type ℓ} (n : ℕ) (xs ys : List A)
    → length xs ≤ n
    → take n (xs ++ ys) ≡ xs ++ take (n - length xs) ys
take-append_front n [] ys h = ap (λ k. take k ys) (omega arith)
take-append_front zero (x ∷ xs) ys h = absurd (omega (arith, h))
take-append_front (suc n) (x ∷ xs) ys h =
    let e : n - length xs ≡ suc n - suc (length xs) = omega arith in
    ap (λ t. x ∷ t) (take-append_front n xs ys (omega arith) ∙ ap (λ k. xs ++ take k ys) e)

granted-le : (r : Option ℕ) (most : ℕ) → granted r most ≤ most
granted-le none most = omega arith
granted-le (some limit) most = omega arith

granted-zero : (r : Option ℕ) (most : ℕ) → r ≢ none → granted r most ≡ 0 → most ≡ 0
granted-zero none most ne e = absurd (ne refl)
granted-zero (some limit) most ne e = omega (arith, e)

nothing_left {ℓ} :
    {A : Type ℓ} (room : ℕ) (rest : List A) → min room (length rest) ≡ 0 → [] ≡ take room rest
nothing_left zero rest e = refl
nothing_left (suc room) [] e = refl
nothing_left (suc room) (x ∷ rest) e = absurd (omega (arith, e))

-- However `read` splits the file, reads that do not fail give what fits of it.
read_loop-take :
    (reads : ℕ → Option ℕ) (rounds room : ℕ) (rest : List ℕ)
    → ((i : ℕ) → reads i ≢ none)
    → length rest < rounds
    → read_loop reads rounds room rest ≡ take room rest
unfolding read_loop
read_loop-take reads zero room rest ok h = absurd (omega (arith, h))
read_loop-take reads (suc rounds) room rest ok h =
    if_elim (λ (r : List ℕ). r ≡ take room rest) (size == 0)
      (λ e. nothing_left room rest (granted-zero (reads rounds) _ (ok rounds) (ground (arith, e))))
      (λ e.
        let some_read : 1 ≤ size = ground (arith, e) in
        ap (λ t. take size rest ++ t)
          (read_loop-take reads rounds (room - size) (drop size rest) ok (
            omega (
              arith,
              length-drop size rest,
              h,
              some_read,
              granted-le (reads rounds) (min room (length rest)),
            )))
        ∙ take-split size (room - size) rest
        ∙ ap (λ k. take k rest) (omega (arith, granted-le (reads rounds) (min room (length rest)))))
  where
    size : ℕ
    size = granted (reads rounds) (min room (length rest))

length-read_loop :
    (reads : ℕ → Option ℕ) (rounds room : ℕ) (rest : List ℕ)
    → length (read_loop reads rounds room rest) ≤ room
unfolding read_loop
length-read_loop reads zero room rest = omega arith
length-read_loop reads (suc rounds) room rest =
    if_elim (λ (r : List ℕ). length r ≤ room) (size == 0) (λ e. omega arith)
      (λ e. omega (
        arith,
        granted-le (reads rounds) (min room (length rest)),
        length-append (take size rest) (read_loop reads rounds (room - size) (drop size rest)),
        length-take size rest,
        length-read_loop reads rounds (room - size) (drop size rest),
      ))
  where
    size : ℕ
    size = granted (reads rounds) (min room (length rest))

length-get_mime : (extension : Text) → length (get_mime extension) ≤ 24
unfolding get_mime
length-get_mime extension = ground arith

length-ok_header : (extension : Text) → length (ok_header extension) ≤ 100
unfolding ok_header
length-ok_header extension =
    omega (arith, length-get_mime extension, length-append (get_mime extension) (codes "\r\n\r\n"))

-- For a file that could be opened and whose reads do not fail, the response is the header and the
-- content, cut at BUFFER_SIZE bytes, however `read` splits the content.
pub build_http_lem :
    (reads : ℕ → Option ℕ) (content : List ℕ) (extension : Text)
    → ((i : ℕ) → reads i ≢ none)
    → build_http reads (some content) extension ≡ take buffer_size (ok_header extension ++ content)
unfolding build_http
build_http_lem reads content extension ok =
    ap (λ t. ok_header extension ++ t)
      (read_loop-take reads (suc (length content)) (buffer_size - length (ok_header extension))
        content ok (omega arith))
    ∙ sym (
        take-append_front buffer_size (ok_header extension) content
          (omega (arith, length-ok_header extension)))

-- Every response, with reads that fail too, has at most BUFFER_SIZE bytes, so it fits its memory.
pub length-build_http :
    (reads : ℕ → Option ℕ) (file : Option (List ℕ)) (extension : Text)
    → length (build_http reads file extension) ≤ buffer_size
unfolding build_http
length-build_http reads none extension = omega arith
length-build_http reads (some content) extension =
    let room = buffer_size - length (ok_header extension) in
    omega (
      arith,
      length-append (ok_header extension) (read_loop reads (suc (length content)) room content),
      length-read_loop reads (suc (length content)) room content,
      length-ok_header extension,
    )
