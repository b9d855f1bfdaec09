-- ===== src/Config.antt =====
-- go-api/internal/config/config.go: the settings, and the defaults of the profiles. The parsing of
-- the environment (caarlos0/env) is a parameter of `load`. TracingSampleRate, a float, is left out.
pub mod Defaults
pub mod Sizes
pub mod Stable
pub mod Example
mod Tests
use easyhooks.Prelude.{
  ℕ, ◌*◌, ℤ, pos, ◌*ℤ◌, wrap64, is_zero, ltb_ℤ, Bytes, codes, bytes_eq, Bool, true, false, ◌||◌,
  Option, none, some, if◌then◌else◌,
}
use easyhooks.Runtime.Errors.{Error, Result, ok, err}

pub record Config : Type 0 where
  pub profile : Bytes
  pub redis_url : Bytes
  pub redis_pool_size : ℤ
  pub admin_seed_token : Bytes
  pub secret_key_bytes : ℤ
  pub app_secret_key : Bytes
  pub ws_token_ttl : ℤ
  pub auth_session_ttl : ℤ
  pub event_stream_key : Bytes
  pub dlq_stream_key : Bytes
  pub dlq_stream_max_len : ℤ
  pub consumer_group : Bytes
  pub stream_block_ms : ℤ
  pub stream_count : ℤ
  pub worker_max_retries : ℤ
  pub worker_backoff_base_ms : ℤ
  pub idempotency_ttl : ℤ
  pub tenant_events_stream_prefix : Bytes
  pub stream_max_len : ℤ
  pub stream_history_count : ℤ
  pub ws_use_fanout : Bool
  pub ws_fanout_buffer_size : ℤ
  pub go_mem_limit_bytes : ℤ
  pub ingest_max_queue_depth : ℤ
  pub ingest_stream_max_len : ℤ
  pub queue_depth_poll_ms : ℤ
  pub queue_depth_low_water_pct : ℤ
  pub cors_origins : Bytes
  pub otel_endpoint : Bytes
  pub otel_service_name : Bytes
  pub metrics_enabled : Bool
  pub tracing_enabled : Bool

pub record ProfileDefaults : Type 0 where
  pub go_mem_limit_bytes : ℤ
  pub stream_max_len : ℤ
  pub redis_pool_size : ℤ
  pub ws_fanout_buffer_size : ℤ
  pub ingest_max_queue_depth : ℤ

abbrev pub mib : ℕ
mib = 1024 * 1024

abbrev pub small : ProfileDefaults
small = record {
  go_mem_limit_bytes = pos (200 * mib);
  stream_max_len = pos 1000;
  redis_pool_size = pos 50;
  ws_fanout_buffer_size = pos 100;
  ingest_max_queue_depth = pos 5000;
}

abbrev pub medium : ProfileDefaults
medium = record {
  go_mem_limit_bytes = pos (450 * mib);
  stream_max_len = pos 5000;
  redis_pool_size = pos 100;
  ws_fanout_buffer_size = pos 256;
  ingest_max_queue_depth = pos 25000;
}

abbrev pub large : ProfileDefaults
large = record {
  go_mem_limit_bytes = pos (900 * mib);
  stream_max_len = pos 10000;
  redis_pool_size = pos 200;
  ws_fanout_buffer_size = pos 512;
  ingest_max_queue_depth = pos 50000;
}

-- The profiles that the table lists.
unfoldable pub profiles_table : Bytes → Option ProfileDefaults
profiles_table p =
    if bytes_eq p (codes "small")
    then some small
    else if bytes_eq p (codes "medium")
    then some medium
    else if bytes_eq p (codes "large")
    then some large
    else none

-- The errors of `Load`, by what they name.
pub data ConfigError : Type 0 where
  parse_failed : Error → ConfigError
  invalid_profile : Bytes → ConfigError
  invalid_low_water_pct : ℤ → ConfigError

-- `if v == 0 { v = default }`
unfoldable pub default_to : ℤ → ℤ → ℤ
default_to v d = if is_zero v then d else v

-- The assignments for a profile of the table.
unfoldable pub fill : ProfileDefaults → Config → Config
unfolding default_to
fill t cfg =
    let depth = default_to cfg.ingest_max_queue_depth t.ingest_max_queue_depth in
    record cfg {
      go_mem_limit_bytes = default_to cfg.go_mem_limit_bytes t.go_mem_limit_bytes;
      stream_max_len = default_to cfg.stream_max_len t.stream_max_len;
      redis_pool_size = default_to cfg.redis_pool_size t.redis_pool_size;
      ws_fanout_buffer_size = default_to cfg.ws_fanout_buffer_size t.ws_fanout_buffer_size;
      ingest_max_queue_depth = depth;
      ingest_stream_max_len = default_to cfg.ingest_stream_max_len (wrap64 (depth *ℤ pos 2));
    }

-- The assignment for the profile "custom".
unfoldable pub derive : Config → Config
derive cfg =
    if is_zero cfg.ingest_stream_max_len
    then (if ltb_ℤ (pos 0) cfg.ingest_max_queue_depth
        then record cfg { ingest_stream_max_len = wrap64 (cfg.ingest_max_queue_depth *ℤ pos 2) }
        else cfg)
    else cfg

unfoldable pub check_pct : Config → Config × Option ConfigError
check_pct cfg =
    if ltb_ℤ cfg.queue_depth_low_water_pct (pos 0) || ltb_ℤ (pos 100) cfg.queue_depth_low_water_pct
    then (cfg, some (invalid_low_water_pct cfg.queue_depth_low_water_pct))
    else (cfg, none)

unfoldable pub apply_to : Option ProfileDefaults → Config → Config × Option ConfigError
unfolding fill derive check_pct
apply_to (some t) cfg = check_pct (fill t cfg)
apply_to none cfg =
    if bytes_eq cfg.profile (codes "custom")
    then check_pct (derive cfg)
    else (cfg, some (invalid_profile cfg.profile))

unfoldable pub apply_profile_defaults : Config → Config × Option ConfigError
apply_profile_defaults cfg = apply_to (profiles_table cfg.profile) cfg

pub data Loaded : Type 0 where
  loaded : Config → Loaded
  refused : ConfigError → Loaded

unfoldable pub finish_load : Config × Option ConfigError → Loaded
finish_load (cfg, none) = loaded cfg
finish_load (cfg, some e) = refused e

-- `Load`, from the reply of `env.Parse`.
unfoldable pub load : Result Config → Loaded
unfolding finish_load
load (err e) = refused (parse_failed e)
load (ok cfg) = finish_load (apply_profile_defaults cfg)
