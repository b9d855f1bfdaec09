-- ===== src/Service.antt =====
-- go-api/internal/service: what happens to an event behind the queue.
pub mod Streams
pub mod Envelope
pub mod Processor
pub mod Fanout
pub mod Tenant
pub mod Tail
