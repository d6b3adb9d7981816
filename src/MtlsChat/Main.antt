-- ===== src/MtlsChat/Main.antt =====
-- projects/networking/mtls-chat/main.c: which side the command line selects.
use c_systems_programming.Common.{ℕ, List, [], ◌∷◌, Text, codes, text_eq, ℤ, atoi, if◌then◌else◌}

-- The call that `select_function` makes, with the five arguments; or `usage`.
pub data Selected : Type 0 where
  server client : Text → ℤ → Text → Text → Text → Selected
  usage : Selected

pub select_function : Text → Text → Text → Text → Text → Text → Selected
select_function role ip port ca cert key =
    if text_eq role (codes "server")
    then server ip (atoi port) ca cert key
    else if text_eq role (codes "client")
    then client ip (atoi port) ca cert key
    else usage

-- `main`: what it calls, and its status once that returns; the result of `select_function` is dropped.
pub mtls_main : List Text → Selected × ℕ
unfolding select_function
mtls_main (name ∷ role ∷ ip ∷ port ∷ ca ∷ cert ∷ key ∷ []) =
    (select_function role ip port ca cert key, 0)
mtls_main args = (usage, 1)
