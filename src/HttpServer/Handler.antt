-- ===== src/HttpServer/Handler.antt =====
-- `build_http` and `handler` of projects/networking/http-server/main.c. What recv gives, the files
-- and the answers of read are inputs. The allocations that the code does not check are taken to
-- succeed.
pub mod Response
pub mod Served
use c_systems_programming.Common.{
  ℕ, zero, suc, ◌-◌, min, List, [], ◌∷◌, ◌++◌, Bool, true, false, Option, some, none, Text, codes,
  ltb, ◌==◌, ◌||◌, if◌then◌else◌, length, take, drop, c_string,
}
use c_systems_programming.HttpServer.{get_filename, get_extension, get_mime}

-- BUFFER_SIZE
abbrev pub buffer_size : ℕ
buffer_size = 52428800

-- The headers of the two responses.
abbrev pub not_found : Text
not_found = codes "HTTP/1.1 404 Not Found\r\nContent-Type: text/plain\r\n\r\n404 Not Found"

pub ok_header : Text → Text
unfolding get_mime
ok_header extension =
    codes "HTTP/1.1 200 OK\r\nContent-Type: " ++ (get_mime extension ++ codes "\r\n\r\n")

-- What one `read` gives: nothing on an error, else at most what there is and what it would give.
abbrev pub granted : Option ℕ → ℕ → ℕ
granted none most = 0
granted (some limit) most = min (suc limit) most

-- The loop that reads the file behind the header, with `room` bytes left up to BUFFER_SIZE. Each
-- answer of `read` is an error, or how many bytes more than one it would give at most.
pub read_loop : (ℕ → Option ℕ) → ℕ → ℕ → List ℕ → List ℕ
read_loop reads zero room rest = []
read_loop reads (suc rounds) room rest =
    let size = granted (reads rounds) (min room (length rest)) in
    let more = read_loop reads rounds (room - size) (drop size rest) in
    if size == 0 then [] else take size rest ++ more

-- `build_http`; each round of the loop reads a byte at least.
pub build_http : (ℕ → Option ℕ) → Option (List ℕ) → Text → Text
unfolding ok_header read_loop
build_http reads none extension = not_found
build_http reads (some content) extension =
    let header = ok_header extension in
    header ++ read_loop reads (suc (length content)) (buffer_size - length header) content

-- The match of `^GET /([^ ]*) HTTP/1`: the group, which runs up to the first space.
abbrev pub strip : Text → Text → Option Text
strip [] text = some text
strip (p ∷ ps) [] = none
strip (p ∷ ps) (c ∷ cs) = if p == c then strip ps cs else none

abbrev pub before_space : Text → Text
before_space [] = []
before_space (c ∷ cs) = if c == 32 then [] else c ∷ before_space cs

abbrev pub from_space : Text → Text
from_space [] = []
from_space (c ∷ cs) = if c == 32 then c ∷ cs else from_space cs

abbrev pub matched : Text → Option Text → Option Text
matched name none = none
matched name (some rest) = some name

abbrev pub match_name : Option Text → Option Text
match_name none = none
match_name (some text) = matched (before_space text) (strip (codes " HTTP/1") (from_space text))

unfoldable pub regexec : Text → Option Text
regexec text = match_name (strip (codes "GET /") text)

abbrev pub has_nul : List ℕ → Bool
has_nul [] = false
has_nul (c ∷ cs) = (c == 0) || has_nul cs

-- How a request ends: with no response, with what is sent, or undefined, as the extension does not
-- fit its array of 32 bytes, or `regexec` finds no NUL in the buffer.
pub data Reply : Type 0 where
  no_reply overflow overread : Reply
  replied : Text → Reply

module _ (files : Text → Option (List ℕ)) (stale : ℕ → ℕ) (reads : ℕ → Option ℕ) where
  pub reply_to : Option Text → Reply
  unfolding get_filename get_extension build_http
  reply_to none = no_reply
  reply_to (some url_file) =
      if ltb (length (get_extension url_file)) 32
      then replied (
          build_http reads (files (c_string (get_filename stale url_file)))
            (get_extension url_file))
      else overflow

  -- `handler`, on what `recv` gave, and the fresh memory of the buffer behind it.
  pub handler : Option (List ℕ) → List ℕ → Reply
  unfolding regexec
  handler none memory = no_reply
  handler (some received) memory =
      let buffer = received ++ memory in
      if has_nul buffer then reply_to (regexec (c_string buffer)) else overread
