-- ===== src/MtlsChat/Setup.antt =====
-- `setup_context` of projects/networking/mtls-chat/server.c and client.c. Whether each checked call
-- of OpenSSL succeeds is an input; a failure exits with status 1.
use c_systems_programming.Common.{ℕ, ◌≡◌, refl, Bool, true, false, arith, ◌&&◌, if◌then◌else◌}

-- What has been configured on an `SSL_CTX`.
pub record Context : Type 0 where
  pub ca_loaded : Bool
  pub client_ca_sent : Bool
  pub certificate : Bool
  pub private_key : Bool
  pub key_checked : Bool
  pub verify_peer : Bool
  pub fail_if_no_peer_cert : Bool
  pub verify_depth : ℕ
  pub tls13_only : Bool
  pub client_cache : Bool
  pub session_callback : Bool

abbrev pub fresh_context : Context
fresh_context = record {
  ca_loaded = false;
  client_ca_sent = false;
  certificate = false;
  private_key = false;
  key_checked = false;
  verify_peer = false;
  fail_if_no_peer_cert = false;
  verify_depth = 100;
  tls13_only = false;
  client_cache = false;
  session_callback = false;
}

-- Whether the calls that are checked succeed.
pub record Answers : Type 0 where
  pub new : Bool
  pub load_ca : Bool
  pub use_certificate : Bool
  pub use_key : Bool
  pub check_key : Bool

-- The call that ended the program.
pub data Stopped : Type 0 where
  no_context no_ca no_certificate no_key key_mismatch : Stopped

pub data Result (A : Type 0) : Type 0 where
  ok : A → Result A
  exited : Stopped → Result A

infixl 5 ◌>>=◌
abbrev ◌>>=◌ : {A B : Type 0} → Result A → (A → Result B) → Result B
ok a >>= f = f a
exited why >>= f = exited why

abbrev check : Bool → Stopped → Context → Result Context
check succeeded why c = if succeeded then ok c else exited why

-- `setup_context` of the server.
pub server_context : Answers → Result Context
server_context a = do
  c ← check a.new no_context fresh_context
  c ← check a.load_ca no_ca (record c { ca_loaded = true })
  c ←
      check a.use_certificate no_certificate
        (record c { client_ca_sent = true; certificate = true })
  c ← check a.use_key no_key (record c { private_key = true })
  c ← check a.check_key key_mismatch (record c { key_checked = true })
  ok (record c {
    verify_peer = true;
    fail_if_no_peer_cert = true;
    verify_depth = 1;
    tls13_only = true;
  })

-- `setup_context` of the client.
unfoldable pub client_context : Answers → Result Context
client_context a = do
  c ← check a.new no_context fresh_context
  c ← check a.load_ca no_ca (record c { ca_loaded = true })
  c ← check a.use_certificate no_certificate (record c { certificate = true })
  c ← check a.use_key no_key (record c { private_key = true })
  c ← check a.check_key key_mismatch (record c { key_checked = true })
  ok (record c {
    tls13_only = true;
    client_cache = true;
    session_callback = true;
    verify_peer = true;
    fail_if_no_peer_cert = true;
    verify_depth = 1;
  })

-- Mutual authentication against the CA, with a matching key, under TLS 1.3.
pub record IsMutual (c : Context) : Type 0 where
  pub ca : c.ca_loaded ≡ true
  pub own_certificate : c.certificate ≡ true
  pub own_key : (c.private_key ≡ true) × (c.key_checked ≡ true)
  pub peer_required : (c.verify_peer ≡ true) × (c.fail_if_no_peer_cert ≡ true)
  pub depth_one : c.verify_depth ≡ 1
  pub version : c.tls13_only ≡ true

abbrev pub all_succeed : Answers → Bool
all_succeed a = a.new && (a.load_ca && (a.use_certificate && (a.use_key && a.check_key)))

-- What a set-up function promises for each outcome of its calls.
abbrev pub Promises : Result Context → Bool → Type 0
Promises (ok c) succeeded = (succeeded ≡ true) × IsMutual c
Promises (exited why) succeeded = succeeded ≡ false

module _ (f : Answers → Result Context) where
  abbrev Keeps : Bool → Bool → Bool → Bool → Bool → Type 0
  Keeps n l c k m =
      let a : Answers = record {
        new = n;
        load_ca = l;
        use_certificate = c;
        use_key = k;
        check_key = m;
      } in
      Promises (f a) (all_succeed a)

server_context-Keeps : (n l c k m : Bool) → Keeps server_context n l c k m
unfolding server_context
server_context-Keeps false l c k m = refl
server_context-Keeps true false c k m = refl
server_context-Keeps true true false k m = refl
server_context-Keeps true true true false m = refl
server_context-Keeps true true true true false = refl
server_context-Keeps true true true true true = ground arith

client_context-Keeps : (n l c k m : Bool) → Keeps client_context n l c k m
unfolding client_context
client_context-Keeps false l c k m = refl
client_context-Keeps true false c k m = refl
client_context-Keeps true true false k m = refl
client_context-Keeps true true true false m = refl
client_context-Keeps true true true true false = refl
client_context-Keeps true true true true true = ground arith

-- Each side goes on only if every checked call succeeded, and then its context authenticates both
-- sides against the CA, with a checked key, depth 1 and TLS 1.3 at least.
pub contexts-Promises :
    (a : Answers)
    → Promises (server_context a) (all_succeed a) × Promises (client_context a) (all_succeed a)
contexts-Promises a = (
  server_context-Keeps a.new a.load_ca a.use_certificate a.use_key a.check_key,
  client_context-Keeps a.new a.load_ca a.use_certificate a.use_key a.check_key,
)
