-- ===== src/MtlsChat.antt =====
-- projects/networking/mtls-chat: the TLS set-up of both sides, and the server's poll loop.
pub mod Setup
pub mod Server
pub mod Client
pub mod Start
pub mod Main
pub mod Chat
mod Tests
