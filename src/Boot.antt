-- ===== src/Boot.antt =====
-- go-api/cmd/api/main.go: the start of the API server, up to its routes, and what it does about the
-- memory of Redis and its own. The lines that the code logs are results.
pub mod Pressure
pub mod Order
pub mod Closing
pub mod Monitor
mod Tests
use easyhooks.Metrics.{record_profile_info}
use easyhooks.Prelude.{
  ℕ, zero, suc, ◌/◌, ℤ, pos, negsuc, ◌*ℤ◌, wrap64, quot_ℤ, is_zero, leb_ℤ, ltb_ℤ, Bytes, codes,
  Bool, true, false, Option, none, some, List, [], ◌∷◌, if◌then◌else◌,
}
use easyhooks.Runtime.Errors.{Error, message, wrapped, Result, ok, err}
use easyhooks.Runtime.Events.{easyhooks_profile_info}
use easyhooks.Runtime.Env.{Env}
use easyhooks.Runtime.Exec.{State, Exec, pure, fail, lift, wrap, attempt, count, ◌>>=◌, ◌>>◌}
use easyhooks.Config.{Config, ConfigError, Loaded, loaded, refused, load}
use easyhooks.Streams.Queue.{ensure_group, trim_max_len_approx}
use easyhooks.Security.{Crypto}
use easyhooks.Middleware.{seed_super_admin}
use easyhooks.Redis.{Options, new_client, MemoryInfo, info_memory}
use easyhooks.Tracing.{TracingLib, Shutdown, init_tracing}
use easyhooks.Service.Fanout.{Outcome, fine, panicked}

-- Go's `/` on int64, for a divisor other than 0.
abbrev pub negated : ℤ → ℤ
negated (pos zero) = pos 0
negated (pos (suc n)) = negsuc n
negated (negsuc n) = pos (suc n)

unfoldable pub quot64 : ℤ → ℤ → ℤ
unfolding quot_ℤ wrap64
quot64 a (pos d) = quot_ℤ a d
quot64 a (negsuc d) = wrap64 (negated (quot_ℤ a (suc d)))

unfoldable pub used_pct : MemoryInfo → ℤ
unfolding quot64 wrap64
used_pct i = quot64 (wrap64 (i.used_memory *ℤ pos 100)) i.max_memory

-- What is logged of the memory: that INFO failed, that there is no limit, or the share that is
-- used, as a warning or not.
pub data MemoryNote : Type 0 where
  failed : Error → MemoryNote
  unlimited : MemoryInfo → MemoryNote
  pressure fits : ℤ → MemoryInfo → MemoryNote

unfoldable pub classify : ℤ → MemoryInfo → MemoryNote
unfolding used_pct
classify limit i =
    let pct = used_pct i in
    if is_zero i.max_memory
    then unlimited i
    else if ltb_ℤ limit pct
    then pressure pct i
    else fits pct i

abbrev pub note_of : ℤ → Result MemoryInfo → MemoryNote
note_of limit (ok i) = classify limit i
note_of limit (err e) = failed e

-- What is logged of a trim.
pub data TrimNote : Type 0 where
  silent trimmed : TrimNote
  trim_failed : Error → TrimNote

abbrev pub trim_note : Result ℤ → TrimNote
trim_note (ok n) = if ltb_ℤ (pos 0) n then trimmed else silent
trim_note (err e) = trim_failed e

-- The memory limit of the process: the runtime's own, none, or the one that is set.
pub data Limit : Type 0 where
  honoured not_set : Limit
  limited : ℤ → Limit

-- By whether GOMEMLIMIT is in the environment.
unfoldable pub apply_memory_limit : Bool → Config → Limit
apply_memory_limit true cfg = honoured
apply_memory_limit false cfg =
    if leb_ℤ cfg.go_mem_limit_bytes (pos 0) then not_set else limited cfg.go_mem_limit_bytes

module _ {W : Type 0} (env : Env W) where
  unfoldable pub boot_check_redis_memory : Exec W MemoryNote
  unfolding classify
  boot_check_redis_memory = do r ← attempt (info_memory env); pure (note_of (pos 70) r)

  -- One tick of `runMemoryMonitor`.
  unfoldable pub memory_tick : Exec W MemoryNote
  unfolding classify
  memory_tick = do r ← attempt (info_memory env); pure (note_of (pos 80) r)

  unfoldable pub boot_trim_stream : Bytes → ℤ → Exec W TrimNote
  boot_trim_stream stream max_len =
      if leb_ℤ max_len (pos 0)
      then pure silent
      else (attempt (trim_max_len_approx env stream max_len) >>= λ r. pure (trim_note r))

abbrev pub loaded_or_exit : {W : Type 0} → Loaded → Exec W Config
loaded_or_exit (loaded cfg) = pure cfg
loaded_or_exit (refused e) = fail (message (codes "Failed to load config"))

-- The function that main has deferred: nil if the tracing failed.
abbrev pub deferred : Result Shutdown → Option Shutdown
deferred (ok f) = some f
deferred (err e) = none

-- What stands when the server starts to listen.
pub record Server : Type 0 where
  pub cfg : Config
  pub limit : Limit
  pub shutdown_tracing : Option Shutdown
  pub client : Options
  pub memory : MemoryNote
  pub trims : List TrimNote

module _ {W : Type 0} (env : Env W) (crypto : Crypto) (parse_url : Bytes → Result Options)
    (tracing : TracingLib W) (has_gomemlimit : Bool) where
  -- `os.Exit(1)`, behind the line that says why.
  abbrev or_exit : {A : Type 0} → Bytes → Exec W A → Exec W A
  or_exit text m = wrap text m

  -- What must succeed, with the settings loaded.
  unfoldable pub connect : Config → Exec W Options
  connect cfg = do
    client ← or_exit (codes "Failed to connect to Redis") (new_client env parse_url cfg)
    or_exit (codes "Failed to seed admin token") (seed_super_admin env crypto cfg.admin_seed_token)
    or_exit (codes "Failed to ensure consumer group")
        (ensure_group env cfg.event_stream_key cfg.consumer_group)
    pure client

  -- The two parts behind it cannot fail.
  unfoldable pub prepare : Config → Result Shutdown → Options → Exec W Server
  unfolding apply_memory_limit
  prepare cfg tracer client = do
    memory ← boot_check_redis_memory env
    events ← boot_trim_stream env cfg.event_stream_key cfg.ingest_stream_max_len
    dlq ← boot_trim_stream env cfg.dlq_stream_key cfg.dlq_stream_max_len
    pure (record {
      cfg = cfg;
      limit = apply_memory_limit has_gomemlimit cfg;
      shutdown_tracing = deferred tracer;
      client = client;
      memory = memory;
      trims = events ∷ dlq ∷ [];
    })

  unfoldable pub boot_loaded : Config → Exec W Server
  boot_loaded cfg = do
    record_profile_info cfg.profile
    tracer ← attempt (init_tracing tracing cfg)
    client ← connect cfg
    prepare cfg tracer client

  -- `main` up to the server, from the reply of the parsing of the environment.
  unfoldable pub boot : Result Config → Exec W Server
  boot parsed = loaded_or_exit (load parsed) >>= boot_loaded

-- The deferred call at the end of main.
unfoldable pub close_tracing : Option Shutdown → Outcome Shutdown
close_tracing none = panicked
close_tracing (some f) = fine f
