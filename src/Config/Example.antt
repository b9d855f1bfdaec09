-- ===== src/Config/Example.antt =====
-- Settings at which theorems are applied.
use easyhooks.Runtime.Errors.{ok}
use easyhooks.Prelude.{pos, codes, true, wrap64, ◌*ℤ◌, bytes_eq, ◌≡◌, refl, ◌*◌}
use easyhooks.Config.{Config, load, loaded, apply_profile_defaults, apply_to, profiles_table}

-- The environment's defaults, with a profile and an explicit pool size.
abbrev pub example_config : Config
example_config = record {
  profile = codes "medium";
  redis_url = codes "redis://localhost:6379/0";
  redis_pool_size = pos 7;
  admin_seed_token = codes "test-admin";
  secret_key_bytes = pos 32;
  app_secret_key = codes "test-key";
  ws_token_ttl = pos 300;
  auth_session_ttl = pos 300;
  event_stream_key = codes "events:in";
  dlq_stream_key = codes "events:failed";
  dlq_stream_max_len = pos 10000;
  consumer_group = codes "webhook-workers";
  stream_block_ms = pos 5000;
  stream_count = pos 32;
  worker_max_retries = pos 3;
  worker_backoff_base_ms = pos 100;
  idempotency_ttl = pos 3600;
  tenant_events_stream_prefix = codes "stream:tenant:";
  stream_max_len = pos 0;
  stream_history_count = pos 50;
  ws_use_fanout = true;
  ws_fanout_buffer_size = pos 0;
  go_mem_limit_bytes = pos 0;
  ingest_max_queue_depth = pos 0;
  ingest_stream_max_len = pos 0;
  queue_depth_poll_ms = pos 1000;
  queue_depth_low_water_pct = pos 80;
  cors_origins = codes "http://localhost:3001";
  otel_endpoint = codes "http://jaeger:4317";
  otel_service_name = codes "easyhooks";
  metrics_enabled = true;
  tracing_enabled = true;
}

-- The example with the profile's defaults filled in.
abbrev pub full_config : Config
full_config = record example_config {
  go_mem_limit_bytes = pos (450 * 1024 * 1024);
  stream_max_len = pos 5000;
  ws_fanout_buffer_size = pos 256;
  ingest_max_queue_depth = pos 25000;
  ingest_stream_max_len = pos 50000;
}

pub loads : load (ok full_config) ≡ loaded full_config
unfolding load apply_profile_defaults apply_to profiles_table wrap64 ◌*ℤ◌ bytes_eq
loads = refl
