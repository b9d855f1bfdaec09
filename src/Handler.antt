-- ===== src/Handler.antt =====
-- go-api/internal/handler: the HTTP handlers, by their files.
pub mod Webhooks
pub mod Socket
