-- ===== src/Runtime.antt =====
-- What the services run on: Go errors, the metrics of internal/observability, the Redis client and
-- the clock as an interface, and the code's effects as actions on a state.
pub mod Errors
pub mod Events
pub mod Env
pub mod Exec
pub mod Fake
pub mod Keys
