-- ===== src/Metrics/Options.antt =====
-- The options of each collector.
use easyhooks.Prelude.{codes, [], ◌∷◌}
use easyhooks.Metrics.{
  Collector, Opts, counter, gauge, histogram, the_webhook_requests_total,
  the_webhook_processing_duration, the_webhook_retries_total, the_webhook_dlq_total,
  the_idempotency_duplicates_total, the_web_socket_connections_active,
  the_web_socket_messages_sent_total, the_redis_operations_total, the_stream_consume_total,
  the_stream_publish_total, the_http_request_duration, the_http_requests_total,
  the_loadtest_requests_total, the_loadtest_errors_total, the_web_socket_e2e_latency,
  the_web_socket_connection_duration, the_tenant_isolation_latency, the_webhook_load_shed_total,
  the_ingest_queue_depth, the_ingest_load_shedding_active, the_web_socket_subscriber_dropped_total,
  the_easyhooks_profile_info,
}

unfoldable pub options : Collector → Opts
options the_webhook_requests_total = record {
  kind = counter;
  name = codes "webhook_requests_total";
  help = codes "Total number of webhook requests received";
  buckets = [];
  labels = codes "tenant_id" ∷ codes "status" ∷ [];
}
options the_webhook_processing_duration = record {
  kind = histogram;
  name = codes "webhook_processing_duration_seconds";
  help = codes "Time spent processing webhook events in worker";
  buckets =
      50 ∷ 100 ∷ 250 ∷ 500 ∷ 750 ∷ 1000 ∷ 2500 ∷ 5000 ∷ 7500 ∷ 10000 ∷ 25000 ∷ 50000 ∷ 75000
      ∷ 100000 ∷ [];
  labels = codes "tenant_id" ∷ [];
}
options the_webhook_retries_total = record {
  kind = counter;
  name = codes "webhook_retries_total";
  help = codes "Total number of webhook processing retries";
  buckets = [];
  labels = codes "tenant_id" ∷ codes "attempt" ∷ [];
}
options the_webhook_dlq_total = record {
  kind = counter;
  name = codes "webhook_dlq_total";
  help = codes "Total number of events sent to Dead Letter Queue";
  buckets = [];
  labels = codes "tenant_id" ∷ codes "error_type" ∷ [];
}
options the_idempotency_duplicates_total = record {
  kind = counter;
  name = codes "idempotency_duplicates_total";
  help = codes "Total number of duplicate events detected by idempotency check";
  buckets = [];
  labels = codes "tenant_id" ∷ [];
}
options the_web_socket_connections_active = record {
  kind = gauge;
  name = codes "websocket_connections_active";
  help = codes "Number of active WebSocket connections";
  buckets = [];
  labels = codes "tenant_id" ∷ [];
}
options the_web_socket_messages_sent_total = record {
  kind = counter;
  name = codes "websocket_messages_sent_total";
  help = codes "Total number of messages sent via WebSocket";
  buckets = [];
  labels = codes "tenant_id" ∷ [];
}
options the_redis_operations_total = record {
  kind = counter;
  name = codes "redis_operations_total";
  help = codes "Total number of Redis operations";
  buckets = [];
  labels = codes "operation" ∷ codes "status" ∷ [];
}
options the_stream_consume_total = record {
  kind = counter;
  name = codes "stream_consume_total";
  help = codes "Total number of messages consumed from a Redis Stream consumer group";
  buckets = [];
  labels = codes "stream" ∷ codes "consumer_group" ∷ [];
}
options the_stream_publish_total = record {
  kind = counter;
  name = codes "stream_publish_total";
  help = codes "Total number of messages published to a Redis Stream (success or error)";
  buckets = [];
  labels = codes "stream" ∷ codes "status" ∷ [];
}
options the_http_request_duration = record {
  kind = histogram;
  name = codes "http_request_duration_seconds";
  help = codes "HTTP request duration in seconds";
  buckets = 10 ∷ 25 ∷ 50 ∷ 100 ∷ 250 ∷ 500 ∷ 750 ∷ 1000 ∷ 2500 ∷ 5000 ∷ 10000 ∷ 25000 ∷ 50000 ∷ [];
  labels = codes "method" ∷ codes "endpoint" ∷ codes "status_code" ∷ [];
}
options the_http_requests_total = record {
  kind = counter;
  name = codes "http_requests_total";
  help = codes "Total number of HTTP requests";
  buckets = [];
  labels = codes "method" ∷ codes "endpoint" ∷ codes "status_code" ∷ [];
}
options the_loadtest_requests_total = record {
  kind = counter;
  name = codes "loadtest_requests_total";
  help = codes "Total requests during load test (tagged for analysis)";
  buckets = [];
  labels = codes "tenant_id" ∷ codes "endpoint" ∷ codes "test_scenario" ∷ [];
}
options the_loadtest_errors_total = record {
  kind = counter;
  name = codes "loadtest_errors_total";
  help = codes "Total errors during load test";
  buckets = [];
  labels = codes "tenant_id" ∷ codes "endpoint" ∷ codes "error_type" ∷ codes "test_scenario" ∷ [];
}
options the_web_socket_e2e_latency = record {
  kind = histogram;
  name = codes "websocket_e2e_latency_seconds";
  help = codes "End-to-end latency from webhook POST to WebSocket delivery";
  buckets = 1000 ∷ 2500 ∷ 5000 ∷ 10000 ∷ 20000 ∷ 50000 ∷ 100000 ∷ 300000 ∷ [];
  labels = codes "tenant_id" ∷ [];
}
options the_web_socket_connection_duration = record {
  kind = histogram;
  name = codes "websocket_connection_duration_seconds";
  help = codes "Duration of WebSocket connections";
  buckets = 10000 ∷ 50000 ∷ 100000 ∷ 300000 ∷ 600000 ∷ 3000000 ∷ 6000000 ∷ 18000000 ∷ 36000000 ∷ [];
  labels = codes "tenant_id" ∷ [];
}
options the_tenant_isolation_latency = record {
  kind = histogram;
  name = codes "tenant_isolation_latency_seconds";
  help = codes "Per-tenant latency for isolation testing";
  buckets = 100 ∷ 250 ∷ 500 ∷ 1000 ∷ 2500 ∷ 5000 ∷ 10000 ∷ 25000 ∷ 50000 ∷ [];
  labels = codes "tenant_id" ∷ codes "tenant_tier" ∷ [];
}
options the_webhook_load_shed_total = record {
  kind = counter;
  name = codes "webhook_load_shed_total";
  help =
      codes
        "Total number of webhook ingestion requests rejected with HTTP 429 due to queue backpressure";
  buckets = [];
  labels = codes "tenant_id" ∷ [];
}
options the_ingest_queue_depth = record {
  kind = gauge;
  name = codes "ingest_queue_depth";
  help =
      codes
        "Last observed consumer-group backlog (lag + pending) for the ingestion stream, polled via XINFO GROUPS by the queue-depth monitor";
  buckets = [];
  labels = codes "stream" ∷ [];
}
options the_ingest_load_shedding_active = record {
  kind = gauge;
  name = codes "ingest_load_shedding_active";
  help =
      codes
        "1 when the ingestion is currently shedding load (consumer-group backlog crossed the high watermark), 0 otherwise";
  buckets = [];
  labels = [];
}
options the_web_socket_subscriber_dropped_total = record {
  kind = counter;
  name = codes "websocket_subscriber_dropped_total";
  help =
      codes
        "Total number of WebSocket subscribers disconnected by the fanout layer (e.g. slow consumer with full buffer)";
  buckets = [];
  labels = codes "tenant_id" ∷ codes "reason" ∷ [];
}
options the_easyhooks_profile_info = record {
  kind = gauge;
  name = codes "easyhooks_profile_info";
  help =
      codes
        "Constant gauge (=1) labelled with the active EASYHOOKS_PROFILE; useful as a Grafana variable";
  buckets = [];
  labels = codes "profile" ∷ [];
}
