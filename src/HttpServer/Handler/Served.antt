-- ===== src/HttpServer/Handler/Served.antt =====
-- What `handler` of projects/networking/http-server/main.c answers to a GET request.
use c_systems_programming.Common.{
  ℕ, ◌≡◌, ◌≢◌, ◌<◌, refl, ap, ◌∙◌, List, [], ◌∷◌, ◌++◌, Bool, true, false, Option, some, none, Text,
  codes, ltb, length, take, arith, All, IsBytes, append_assoc, if_elim, c_string, NoNul,
  c_string-append, c_string_self,
}
use c_systems_programming.HttpServer.{get_filename, get_extension}
use c_systems_programming.HttpServer.Name.{encode, get_filename-encode}
use c_systems_programming.HttpServer.Handler.{
  buffer_size, ok_header, not_found, build_http, before_space, from_space, regexec, has_nul,
  replied, reply_to, handler,
}
use c_systems_programming.HttpServer.Handler.Response.{build_http_lem}

abbrev pub NoSpace : Text → Type 0
NoSpace = All (λ c. c ≢ 32)

before_space-append : (name rest : Text) → NoSpace name → before_space (name ++ (32 ∷ rest)) ≡ name
before_space-append [] rest h = refl
before_space-append (c ∷ cs) rest h = rw (before_space-append cs rest h.1) (ground (arith, h.0))

from_space-append : (name rest : Text) → NoSpace name → from_space (name ++ (32 ∷ rest)) ≡ 32 ∷ rest
from_space-append [] rest h = refl
from_space-append (c ∷ cs) rest h = rw (from_space-append cs rest h.1) (ground (arith, h.0))

-- A request line names a text without spaces.
regexec-request :
    (name rest : Text)
    → NoSpace name
    → regexec (codes "GET /" ++ (name ++ (codes " HTTP/1" ++ rest))) ≡ some name
unfolding regexec
regexec-request name rest h =
    rw
      (
        before_space-append name (codes "HTTP/1" ++ rest) h,
        from_space-append name (codes "HTTP/1" ++ rest) h,
      )
      refl

-- An encoded path has no byte below the percent sign that is not kept.
encode-All :
    (keep : ℕ → Bool) (bad : ℕ) (path : List ℕ)
    → bad < 37
    → IsBytes path
    → All (λ b. keep b ≡ true → b ≢ bad) path
    → All (λ c. c ≢ bad) (encode keep path)
encode-All keep bad [] small bytes h = tt
encode-All keep bad (b ∷ bs) small bytes h =
    if_elim (All (λ c. c ≢ bad)) (keep b) (λ e. (h.0 e, encode-All keep bad bs small bytes.1 h.1))
      (λ e.
        (ground arith, (ground arith, (ground arith, encode-All keep bad bs small bytes.1 h.1))))

kept-ne :
    (keep : ℕ → Bool) (bad : ℕ) (path : List ℕ)
    → keep bad ≡ false
    → All (λ b. keep b ≡ true → b ≢ bad) path
kept-ne keep bad [] k = tt
kept-ne keep bad (b ∷ bs) k = ((λ e q. cc (e, k, ap keep q)), kept-ne keep bad bs k)

NoNul-kept : (keep : ℕ → Bool) (path : List ℕ) → NoNul path → All (λ b. keep b ≡ true → b ≢ 0) path
NoNul-kept keep [] h = tt
NoNul-kept keep (b ∷ bs) h = ((λ e. h.0), NoNul-kept keep bs h.1)

abbrev pub get_request : Text → Text → Text
get_request name tail = codes "GET /" ++ (name ++ (codes " HTTP/1" ++ tail))

-- What the buffer holds up to the first NUL.
c_string-request :
    (name tail memory : List ℕ)
    → NoNul name
    → c_string (get_request name tail ++ memory) ≡ get_request name (c_string (tail ++ memory))
c_string-request name tail memory h =
    ap (λ t. codes "GET /" ++ t)
      (ap c_string (append_assoc name (codes " HTTP/1" ++ tail) memory)
        ∙ c_string-append name (codes " HTTP/1" ++ (tail ++ memory)) h)

-- The response to a request for a file with a given extension.
abbrev pub response : Option (List ℕ) → Text → Text
response none extension = not_found
response (some content) extension = take buffer_size (ok_header extension ++ content)

build_http-response :
    (reads : ℕ → Option ℕ) (file : Option (List ℕ)) (extension : Text)
    → ((i : ℕ) → reads i ≢ none)
    → build_http reads file extension ≡ response file extension
unfolding build_http
build_http-response reads none extension ok = refl
build_http-response reads (some content) extension ok = build_http_lem reads content extension ok

module _ (files : Text → Option (List ℕ)) (stale : ℕ → ℕ) (reads : ℕ → Option ℕ) where
  reply_to-response :
      (name path : Text)
      → get_filename stale name ≡ path
      → NoNul path
      → length (get_extension name) < 32
      → ((i : ℕ) → reads i ≢ none)
      → reply_to files stale reads (some name)
        ≡ replied (response (files path) (get_extension name))
  unfolding reply_to
  reply_to-response name path e nul short ok = rw (fits) (
      ap (λ p. replied (build_http reads (files p) (get_extension name))) same
      ∙ ap replied (build_http-response reads (files path) (get_extension name) ok))
    where
      fits : ltb (length (get_extension name)) 32 ≡ true
      fits = ground (arith, short)

      same : c_string (get_filename stale name) ≡ path
      same = ap c_string e ∙ c_string_self path nul

  handler-request :
      (name tail memory : Text)
      → NoNul name
      → NoSpace name
      → has_nul (get_request name tail ++ memory) ≡ true
      → handler files stale reads (some (get_request name tail)) memory
        ≡ reply_to files stale reads (some name)
  unfolding handler
  handler-request name tail memory nul space ended = rw (ended) (
      ap (λ t. reply_to files stale reads (regexec t)) (c_string-request name tail memory nul)
      ∙ ap (reply_to files stale reads) (regexec-request name (c_string (tail ++ memory)) space))

  -- A GET request for a path of bytes without NUL, in which at least the percent sign and the space
  -- are encoded and whose extension is shorter than 32 bytes, is answered with the file of exactly
  -- that path, if reads do not fail and a NUL stands in the buffer at or behind the end of what was
  -- received, where the code puts none: with the 200 header and its content, cut at BUFFER_SIZE bytes, if
  -- it can be opened, and with 404 if it cannot. The path may be absolute or lead out of the
  -- directory.
  pub handler_serves :
      (keep : ℕ → Bool) (path tail memory : List ℕ)
      → IsBytes path
      → NoNul path
      → keep b'%' ≡ false
      → keep 32 ≡ false
      → length (get_extension (encode keep path)) < 32
      → has_nul (get_request (encode keep path) tail ++ memory) ≡ true
      → ((i : ℕ) → reads i ≢ none)
      → handler files stale reads (some (get_request (encode keep path) tail)) memory
        ≡ replied (response (files path) (get_extension (encode keep path)))
  handler_serves keep path tail memory bytes nul percent space short ended ok =
      handler-request (encode keep path) tail memory
        (encode-All keep 0 path (omega arith) bytes (NoNul-kept keep path nul))
        (encode-All keep 32 path (omega arith) bytes (kept-ne keep 32 path space)) ended
      ∙ reply_to-response (encode keep path) path
          (get_filename-encode stale keep path bytes percent) nul short ok
