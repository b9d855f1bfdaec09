-- ===== src/Streams.antt =====
-- go-api/internal/streams: the work queue on Redis Streams, and the monitor of its depth.
pub mod Monitor
pub mod Queue
