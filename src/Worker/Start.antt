-- ===== src/Worker/Start.antt =====
-- go-api/cmd/worker/main.go: the start of the worker, up to its loop.
pub mod Readers
mod Tests
use easyhooks.Metrics.{record_profile_info}
use easyhooks.Prelude.{
  ℤ, pos, leb_ℤ, ltb_ℤ, is_zero, Bytes, codes, Bool, true, false, Option, none, some, List, [], ◌∷◌,
  ◌++◌, if◌then◌else◌,
}
use easyhooks.Runtime.Errors.{Error, Result, ok, err}
use easyhooks.Runtime.Events.{easyhooks_profile_info}
use easyhooks.Runtime.Env.{Env}
use easyhooks.Runtime.Exec.{State, Exec, pure, wrap, attempt, count, ◌>>=◌, ◌>>◌}
use easyhooks.Config.{Config, load}
use easyhooks.Streams.Queue.{Reader, new_reader, ensure_group}
use easyhooks.Redis.{Options, new_client, MemoryInfo, info_memory}
use easyhooks.Tracing.{TracingLib, Shutdown, init_tracing}
use easyhooks.Boot.{
  MemoryNote, failed, unlimited, pressure, fits, used_pct, Limit, honoured, not_set, limited,
  deferred, loaded_or_exit,
}

-- A copy of the settings, with the worker's name for the tracing.
abbrev pub worker_settings : Config → Config
worker_settings cfg = record cfg { otel_service_name = cfg.otel_service_name ++ codes "-worker" }

-- The consumer's name, from the reply of `os.Hostname`.
unfoldable pub consumer_name : Result Bytes → Bytes
consumer_name (err e) = codes "worker"
consumer_name (ok []) = codes "worker"
consumer_name (ok (c ∷ name)) = c ∷ name

unfoldable pub classify_at_start : Result MemoryInfo → MemoryNote
unfolding used_pct
classify_at_start (err e) = failed e
classify_at_start (ok i) =
    let pct = used_pct i in
    if is_zero i.max_memory
    then unlimited i
    else if ltb_ℤ (pos 70) pct
    then pressure pct i
    else fits pct i

unfoldable pub check_memory : {W : Type 0} → Env W → Exec W MemoryNote
unfolding classify_at_start
check_memory env = do r ← attempt (info_memory env); pure (classify_at_start r)

unfoldable pub memory_limit : Bool → Config → Limit
memory_limit has_gomemlimit cfg =
    if has_gomemlimit
    then honoured
    else if leb_ℤ cfg.go_mem_limit_bytes (pos 0)
    then not_set
    else limited cfg.go_mem_limit_bytes

-- What stands when the loop begins.
pub record Ready : Type 0 where
  pub cfg : Config
  pub limit : Limit
  pub shutdown_tracing : Option Shutdown
  pub client : Options
  pub memory : MemoryNote
  pub reader : Reader

module _ {W : Type 0} (env : Env W) (parse_url : Bytes → Result Options) (tracing : TracingLib W)
    (has_gomemlimit : Bool) (hostname : Result Bytes) where
  unfoldable pub start_loaded : Config → Exec W Ready
  unfolding memory_limit consumer_name
  start_loaded cfg = do
    record_profile_info cfg.profile
    tracer ← attempt (init_tracing tracing (worker_settings cfg))
    client ← wrap (codes "Failed to connect to Redis") (new_client env parse_url cfg)
    memory ← check_memory env
    wrap (codes "Failed to ensure consumer group")
        (ensure_group env cfg.event_stream_key cfg.consumer_group)
    pure (record {
      cfg = cfg;
      limit = memory_limit has_gomemlimit cfg;
      shutdown_tracing = deferred tracer;
      client = client;
      memory = memory;
      reader =
          new_reader cfg.event_stream_key cfg.consumer_group (consumer_name hostname)
            cfg.stream_block_ms cfg.stream_count;
    })

  unfoldable pub start_worker : Result Config → Exec W Ready
  start_worker parsed = loaded_or_exit (load parsed) >>= start_loaded
