-- ===== src/Metrics.antt =====
-- go-api/internal/observability/metrics.go: the collectors, which Prometheus registers as the
-- program starts, and the update as the services start.
pub mod Options
pub mod Names
use easyhooks.Prelude.{ℕ, ℤ, Bytes, codes, Option, List, [], ◌∷◌}
use easyhooks.Runtime.Errors.{Error}
use easyhooks.Runtime.Events.{easyhooks_profile_info}
use easyhooks.Runtime.Exec.{State, Exec, count}

pub data Kind : Type 0 where
  counter gauge histogram : Kind

-- The variables of the package.
pub data Collector : Type 0 where
  the_webhook_requests_total : Collector
  the_webhook_processing_duration : Collector
  the_webhook_retries_total : Collector
  the_webhook_dlq_total : Collector
  the_idempotency_duplicates_total : Collector
  the_web_socket_connections_active : Collector
  the_web_socket_messages_sent_total : Collector
  the_redis_operations_total : Collector
  the_stream_consume_total : Collector
  the_stream_publish_total : Collector
  the_http_request_duration : Collector
  the_http_requests_total : Collector
  the_loadtest_requests_total : Collector
  the_loadtest_errors_total : Collector
  the_web_socket_e2e_latency : Collector
  the_web_socket_connection_duration : Collector
  the_tenant_isolation_latency : Collector
  the_webhook_load_shed_total : Collector
  the_ingest_queue_depth : Collector
  the_ingest_load_shedding_active : Collector
  the_web_socket_subscriber_dropped_total : Collector
  the_easyhooks_profile_info : Collector

-- Bounds of buckets are in units of 0.0001.
pub record Opts : Type 0 where
  pub kind : Kind
  pub name : Bytes
  pub help : Bytes
  pub buckets : List ℕ
  pub labels : List Bytes

unfoldable pub record_profile_info : {W : Type 0} → Bytes → Exec W (Unit {0})
record_profile_info profile = count (easyhooks_profile_info profile)
