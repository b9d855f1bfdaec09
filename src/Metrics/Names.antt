-- ===== src/Metrics/Names.antt =====
-- go-api/internal/observability/metrics.go: the names of the collectors, which Prometheus asks to
-- differ.
use easyhooks.Prelude.{
  Bytes, bytes_eq, Option, none, some, List, [], ◌∷◌, ◌≡◌, refl, sym, ap, ◌∙◌, if◌then◌else◌,
}
use easyhooks.Metrics.Options.{options}
use easyhooks.Metrics.{
  Collector, the_webhook_requests_total, the_webhook_processing_duration, the_webhook_retries_total,
  the_webhook_dlq_total, the_idempotency_duplicates_total, the_web_socket_connections_active,
  the_web_socket_messages_sent_total, the_redis_operations_total, the_stream_consume_total,
  the_stream_publish_total, the_http_request_duration, the_http_requests_total,
  the_loadtest_requests_total, the_loadtest_errors_total, the_web_socket_e2e_latency,
  the_web_socket_connection_duration, the_tenant_isolation_latency, the_webhook_load_shed_total,
  the_ingest_queue_depth, the_ingest_load_shedding_active, the_web_socket_subscriber_dropped_total,
  the_easyhooks_profile_info,
}

all : List Collector
all =
    the_webhook_requests_total ∷ the_webhook_processing_duration ∷ the_webhook_retries_total
    ∷ the_webhook_dlq_total ∷ the_idempotency_duplicates_total ∷ the_web_socket_connections_active
    ∷ the_web_socket_messages_sent_total ∷ the_redis_operations_total ∷ the_stream_consume_total
    ∷ the_stream_publish_total ∷ the_http_request_duration ∷ the_http_requests_total
    ∷ the_loadtest_requests_total ∷ the_loadtest_errors_total ∷ the_web_socket_e2e_latency
    ∷ the_web_socket_connection_duration ∷ the_tenant_isolation_latency
    ∷ the_webhook_load_shed_total ∷ the_ingest_queue_depth ∷ the_ingest_load_shedding_active
    ∷ the_web_socket_subscriber_dropped_total ∷ the_easyhooks_profile_info ∷ []

-- The registry's lookup by a name.
find : Bytes → List Collector → Option Collector
find n [] = none
find n (c ∷ cs) = if bytes_eq (options c).name n then some c else find n cs

found : (c : Collector) → find (options c).name all ≡ some c
unfolding find all options bytes_eq
found the_webhook_requests_total = refl
found the_webhook_processing_duration = refl
found the_webhook_retries_total = refl
found the_webhook_dlq_total = refl
found the_idempotency_duplicates_total = refl
found the_web_socket_connections_active = refl
found the_web_socket_messages_sent_total = refl
found the_redis_operations_total = refl
found the_stream_consume_total = refl
found the_stream_publish_total = refl
found the_http_request_duration = refl
found the_http_requests_total = refl
found the_loadtest_requests_total = refl
found the_loadtest_errors_total = refl
found the_web_socket_e2e_latency = refl
found the_web_socket_connection_duration = refl
found the_tenant_isolation_latency = refl
found the_webhook_load_shed_total = refl
found the_ingest_queue_depth = refl
found the_ingest_load_shedding_active = refl
found the_web_socket_subscriber_dropped_total = refl
found the_easyhooks_profile_info = refl

or_else : Collector → Option Collector → Collector
or_else d none = d
or_else d (some c) = c

some-same : (c d : Collector) → some c ≡ some d → c ≡ d
unfolding or_else
some-same c d e = ap (or_else c) e

-- No two collectors have one name.
pub names-injective : (c d : Collector) → (options c).name ≡ (options d).name → c ≡ d
names-injective c d same =
    some-same c d (sym (found c) ∙ ap (λ (n : Bytes). find n all) same ∙ found d)
