-- ===== src/Config/Tests.antt =====
-- Runs of the defaults, and their theorems at concrete settings.
use easyhooks.Prelude.{pos, ◌*ℤ◌, wrap64, codes, bytes_eq, none, some, ◌≡◌, ◌*◌, ◌≢◌, refl, arith}
use easyhooks.Config.Example.{example_config}
use easyhooks.Config.{invalid_profile, profiles_table, apply_profile_defaults, apply_to}
use easyhooks.Config.Sizes.{Completes, apply_profile_defaults-Completes, IsSane}

medium_defaults : apply_profile_defaults example_config ≡ (
  record example_config {
    stream_max_len = pos 5000;
    ws_fanout_buffer_size = pos 256;
    go_mem_limit_bytes = pos (450 * 1048576);
    ingest_max_queue_depth = pos 25000;
    ingest_stream_max_len = pos 50000;
  },
  none,
)
unfolding apply_profile_defaults apply_to profiles_table bytes_eq wrap64 ◌*ℤ◌
medium_defaults = refl

unknown_profile :
    (apply_profile_defaults (record example_config { profile = codes "huge" })).1
    ≡ some (invalid_profile (codes "huge"))
unfolding apply_profile_defaults apply_to profiles_table bytes_eq
unknown_profile = refl

apply_profile_defaults-Completes_example :
    Completes example_config (apply_profile_defaults example_config).0
apply_profile_defaults-Completes_example = apply_profile_defaults-Completes example_config

medium_listed : profiles_table (codes "medium") ≢ none
unfolding profiles_table bytes_eq
medium_listed e = cc

example-IsSane : IsSane example_config
example-IsSane = omega arith
