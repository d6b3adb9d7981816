-- ===== src/HttpServer/Tests.antt =====
-- Requests to projects/networking/http-server/main.c, and the theorems at such requests.
use c_systems_programming.Common.{
  ℕ, ◌≡◌, refl, List, [], ◌∷◌, Bool, true, false, not, ◌||◌, Option, some, none, Text, codes, ◌==◌,
  arith, text_eq, if◌then◌else◌,
}
use c_systems_programming.HttpServer.{get_filename, get_extension, get_mime, scan_hex}
use c_systems_programming.HttpServer.Accepting.{
  Events, accepted, interrupted, listening, server_main, Settles, server_main-Settles,
}
use c_systems_programming.HttpServer.Name.{encode}
use c_systems_programming.HttpServer.Handler.{replied, handler}
use c_systems_programming.HttpServer.Handler.Served.{get_request, response, handler_serves}

abbrev stale : ℕ → ℕ
stale left = 171

-- Only the percent sign and the space are encoded.
abbrev keep : ℕ → Bool
keep c = not ((c == b'%') || (c == 32))

abbrev path : Text
path = codes "a b.TXT"

abbrev files : Text → Option (List ℕ)
files name = if text_eq name path then some (codes "hello") else none

abbrev one_each : ℕ → Option ℕ
one_each i = some 0

decoded : get_filename stale (codes "a%20b%2") ≡ codes "a b%2"
unfolding get_filename scan_hex
decoded = refl

not_hex : get_filename stale (codes "%zz") ≡ 171 ∷ []
unfolding get_filename scan_hex
not_hex = refl

mixed_case : get_mime (codes "Jpeg") ≡ codes "image/jpeg"
unfolding get_mime
mixed_case = refl

encoded_extension : get_extension (encode keep path) ≡ codes "TXT"
unfolding get_extension
encoded_extension = refl

handler_serves_example :
    handler files stale one_each (some (get_request (encode keep path) (codes ".1"))) (0 ∷ 7 ∷ [])
    ≡ replied (response (files path) (get_extension (encode keep path)))
unfolding get_extension
handler_serves_example =
    handler_serves files stale one_each keep path (codes ".1") (0 ∷ 7 ∷ []) (ground arith)
      (ground arith) refl refl (omega arith) refl (λ i q. cc)

-- A connection for which no thread could be started, one that is served, and SIGINT.
abbrev turned_away : Events
turned_away = record {
  keep_running = true;
  malloc_ok = true;
  accept_answer = accepted 7;
  thread_started = false;
}

abbrev stops : Events
stops = record turned_away { accept_answer = interrupted }

server_main-Settles_example : Settles 3 7 (
    server_main
      (some 3)
      listening
      (turned_away ∷ record turned_away { thread_started = true } ∷ stops ∷ []))
server_main-Settles_example =
    server_main-Settles 3 7
      (turned_away ∷ record turned_away { thread_started = true } ∷ stops ∷ [])
