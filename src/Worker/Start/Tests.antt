-- ===== src/Worker/Start/Tests.antt =====
-- A worker on a host without a name.
use easyhooks.Prelude.{
  pos, Bytes, codes, false, bytes_eq, wrap64, ◌*ℤ◌, contains, ◌≡◌, refl, [], ◌*◌, some, arith,
}
use easyhooks.Runtime.Errors.{Result, ok, error_text}
use easyhooks.Runtime.Exec.{◌>>=◌}
use easyhooks.Runtime.Fake.{Fake, fake, quiet, start}
use easyhooks.Config.{load, apply_profile_defaults, apply_to, profiles_table}
use easyhooks.Config.Example.{full_config}
use easyhooks.Metrics.{record_profile_info}
use easyhooks.Streams.Queue.{new_reader, ensure_group}
use easyhooks.Redis.{Options, no_info, new_client, info_memory}
use easyhooks.Tracing.{TracingLib, provider, init_tracing}
use easyhooks.Boot.{unlimited, limited}
use easyhooks.Worker.Start.{
  Ready, start_worker, start_loaded, check_memory, classify_at_start, memory_limit,
}
use easyhooks.Worker.Fake.{fake-Lasts}
use easyhooks.Worker.Main.{Ends, worker_main, worker_main-Ends}
use easyhooks.Security.Fake.{plain_uuid}

abbrev parse_url : Bytes → Result Options
parse_url u = ok (record { url = u; pool_size = pos 10 })

abbrev tracing : TracingLib Fake
tracing = record {
  new_client = λ t w. (ok tt, w);
  new_exporter = λ w. (ok tt, w);
  new_resource = λ name w. (ok tt, w);
  set_globals = λ w. (tt, w);
}

abbrev ready : Ready
ready = record {
  cfg = full_config;
  limit = limited (pos (450 * 1024 * 1024));
  shutdown_tracing = some provider;
  client = record { url = full_config.redis_url; pool_size = pos 7 };
  memory = unlimited no_info;
  reader =
      new_reader (codes "events:in") (codes "webhook-workers") (codes "worker") (pos 5000) (pos 32);
}

starts :
    (start_worker fake parse_url tracing false (ok []) (ok full_config) (start quiet)).0 ≡ ok ready
unfolding start_worker start_loaded load apply_profile_defaults apply_to profiles_table wrap64 ◌*ℤ◌
    fake ◌>>=◌ bytes_eq record_profile_info init_tracing new_client check_memory info_memory
    classify_at_start ensure_group contains error_text memory_limit
starts = refl

time_left :
    (start_worker fake parse_url tracing false
      (ok [])
      (ok full_config)
      (start quiet)).1.world.reads_left
    ≡ 100
unfolding start_worker start_loaded load apply_profile_defaults apply_to profiles_table wrap64 ◌*ℤ◌
    fake ◌>>=◌ bytes_eq record_profile_info init_tracing new_client check_memory info_memory
    classify_at_start ensure_group contains error_text memory_limit
time_left = refl

worker_main-Ends_example :
    Ends fake plain_uuid parse_url tracing false
      (ok [])
      (start_worker fake parse_url tracing false (ok []) (ok full_config) (start quiet))
      (worker_main fake plain_uuid parse_url tracing false
        (ok [])
        101
        (ok full_config)
        (start quiet))
worker_main-Ends_example =
    worker_main-Ends fake plain_uuid parse_url tracing false (ok []) fake-Lasts 101 (ok full_config)
      (start quiet) (omega (arith, time_left))
