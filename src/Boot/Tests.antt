-- ===== src/Boot/Tests.antt =====
-- The start of a server whose tracing cannot reach its endpoint, and the note on a Redis with 70.5
-- percent in use.
use easyhooks.Metrics.{record_profile_info}
use easyhooks.Streams.Queue.{ensure_group, trim_max_len_approx}
use easyhooks.Middleware.{seed_super_admin, seed_if, store_hash}
use easyhooks.Prelude.{
  pos, Bytes, codes, bytes_eq, none, false, [], ◌∷◌, ◌≡◌, ◌↔◌, refl, arith, ◌*◌, Lacks, wrap64,
  ◌*ℤ◌, ◌+◌, ◌≤◌, ◌<◌, contains,
}
use easyhooks.Runtime.Errors.{Error, message, Result, ok, err, error_text}
use easyhooks.Runtime.Exec.{State, ◌>>=◌}
use easyhooks.Runtime.Fake.{Fake, fake, quiet, start}
use easyhooks.Config.{load, apply_profile_defaults, apply_to, profiles_table}
use easyhooks.Config.Example.{full_config, loads}
use easyhooks.Security.Fake.{toy}
use easyhooks.Service.Fanout.{panicked}
use easyhooks.Redis.{Options, no_info, new_client, info_memory}
use easyhooks.Tracing.{TracingLib, target, init_tracing}
use easyhooks.Tracing.Targets.{https, target-host}
use easyhooks.Boot.{
  fits, pressure, unlimited, silent, limited, classify, Server, connect, boot, close_tracing,
  boot_loaded, prepare, boot_check_redis_memory, boot_trim_stream, apply_memory_limit,
}
use easyhooks.Boot.Order.{Follows, traced, boot-Follows}
use easyhooks.Boot.Closing.{boot-close_tracing}
use easyhooks.Boot.Pressure.{measured, classify-pressure}

host-Lacks : Lacks b'/' (codes "jaeger:4317")
host-Lacks = ground arith

test_target :
    (target (codes "https://jaeger:4317") ≡ codes "jaeger:4317")
    × (target (codes "https://jaeger:4317/") ≡ codes "jaeger:4317")
test_target = target-host https (codes "jaeger:4317") host-Lacks

abbrev unreachable : TracingLib Fake
unreachable = record {
  new_client = λ t w. (err (message (codes "invalid target")), w);
  new_exporter = λ w. (ok tt, w);
  new_resource = λ name w. (ok tt, w);
  set_globals = λ w. (tt, w);
}

abbrev parse_url : Bytes → Result Options
parse_url u = ok (record { url = u; pool_size = pos 10 })

abbrev before : State Fake
before = start quiet

boot-Follows_example :
    Follows fake toy parse_url unreachable false full_config
      (traced fake toy parse_url unreachable false full_config before).0
      (traced fake toy parse_url unreachable false full_config before).1
      (boot fake toy parse_url unreachable false (ok full_config) before)
boot-Follows_example =
    boot-Follows fake toy parse_url unreachable false (ok full_config) full_config before loads

abbrev server : Server
server = record {
  cfg = full_config;
  limit = limited (pos (450 * 1024 * 1024));
  shutdown_tracing = none;
  client = record { url = full_config.redis_url; pool_size = pos 7 };
  memory = unlimited no_info;
  trims = silent ∷ silent ∷ [];
}

boots : (boot fake toy parse_url unreachable false (ok full_config) before).0 ≡ ok server
unfolding boot load apply_profile_defaults apply_to profiles_table wrap64 ◌*ℤ◌ fake ◌>>=◌ bytes_eq
    boot_loaded record_profile_info connect new_client seed_super_admin seed_if init_tracing
    store_hash ensure_group contains error_text prepare boot_check_redis_memory boot_trim_stream
    trim_max_len_approx info_memory apply_memory_limit classify
boots = refl

boot-close_tracing_example :
    (close_tracing none ≡ panicked)
    ↔ ((e : Error) × ((traced fake toy parse_url unreachable false full_config before).0 ≡ err e))
boot-close_tracing_example =
    boot-close_tracing fake toy parse_url unreachable false (ok full_config) full_config before
      server loads boots

-- 70.5 percent.
classify-pressure_example :
    ((70 + 1) * 1000 ≤ 705 * 100
      → classify (pos 70) (measured 705 1000 []) ≡ pressure (pos 70) (measured 705 1000 []))
    × (705 * 100 < (70 + 1) * 1000
        → classify (pos 70) (measured 705 1000 []) ≡ fits (pos 70) (measured 705 1000 []))
classify-pressure_example = classify-pressure 70 705 1000 [] (omega arith) (omega arith)
