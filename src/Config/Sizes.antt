-- ===== src/Config/Sizes.antt =====
-- What the defaults fill in and what they leave alone.
use easyhooks.Prelude.{
  ◌^◌, ℤ, pos, ◌*ℤ◌, wrap64, is_zero, ltb_ℤ, ◌≤ℤ◌, ◌<ℤ◌, Bytes, true, Option, none, some, ◌≡◌, ◌≢◌,
  negsuc, if_rule, refl, inl, inr, arith, Option-cases,
}
use easyhooks.Config.{
  Config, ProfileDefaults, ConfigError, profiles_table, default_to, fill, derive, check_pct,
  apply_to, apply_profile_defaults,
}

-- `after` differs from `cfg` in the memory settings alone, and there only where `cfg` has 0.
pub record Completes (cfg after : Config) : Type 0 where
  pub go_mem_limit :
      cfg.go_mem_limit_bytes ≢ pos 0 → after.go_mem_limit_bytes ≡ cfg.go_mem_limit_bytes
  pub stream_max : cfg.stream_max_len ≢ pos 0 → after.stream_max_len ≡ cfg.stream_max_len
  pub pool_size : cfg.redis_pool_size ≢ pos 0 → after.redis_pool_size ≡ cfg.redis_pool_size
  pub buffer_size :
      cfg.ws_fanout_buffer_size ≢ pos 0 → after.ws_fanout_buffer_size ≡ cfg.ws_fanout_buffer_size
  pub queue_depth :
      cfg.ingest_max_queue_depth ≢ pos 0 → after.ingest_max_queue_depth ≡ cfg.ingest_max_queue_depth
  pub ingest_max :
      cfg.ingest_stream_max_len ≢ pos 0 → after.ingest_stream_max_len ≡ cfg.ingest_stream_max_len
  pub others :
      record after {
        go_mem_limit_bytes = cfg.go_mem_limit_bytes;
        stream_max_len = cfg.stream_max_len;
        redis_pool_size = cfg.redis_pool_size;
        ws_fanout_buffer_size = cfg.ws_fanout_buffer_size;
        ingest_max_queue_depth = cfg.ingest_max_queue_depth;
        ingest_stream_max_len = cfg.ingest_stream_max_len;
      }
      ≡ cfg

default_to-keeps : (v d : ℤ) → v ≢ pos 0 → default_to v d ≡ v
unfolding default_to
default_to-keeps (pos n) d h = ground arith
default_to-keeps v d h = refl

fill-Completes : (t : ProfileDefaults) (cfg : Config) → Completes cfg (fill t cfg)
unfolding fill
fill-Completes t cfg = record {
  go_mem_limit = default_to-keeps cfg.go_mem_limit_bytes t.go_mem_limit_bytes;
  stream_max = default_to-keeps cfg.stream_max_len t.stream_max_len;
  pool_size = default_to-keeps cfg.redis_pool_size t.redis_pool_size;
  buffer_size = default_to-keeps cfg.ws_fanout_buffer_size t.ws_fanout_buffer_size;
  queue_depth = default_to-keeps cfg.ingest_max_queue_depth t.ingest_max_queue_depth;
  ingest_max = default_to-keeps cfg.ingest_stream_max_len _;
  others = refl;
}

is_zero-eq : (v : ℤ) → is_zero v ≡ true → v ≡ pos 0
is_zero-eq (pos n) h = ground arith
is_zero-eq (negsuc n) h = cc

Completes-refl : (cfg : Config) → Completes cfg cfg
Completes-refl cfg = record {
  go_mem_limit = λ h. refl;
  stream_max = λ h. refl;
  pool_size = λ h. refl;
  buffer_size = λ h. refl;
  queue_depth = λ h. refl;
  ingest_max = λ h. refl;
  others = refl;
}

set-Completes :
    (cfg : Config) (n : ℤ)
    → is_zero cfg.ingest_stream_max_len ≡ true
    → Completes cfg (record cfg { ingest_stream_max_len = n })
set-Completes cfg n z = record {
  go_mem_limit = λ h. refl;
  stream_max = λ h. refl;
  pool_size = λ h. refl;
  buffer_size = λ h. refl;
  queue_depth = λ h. refl;
  ingest_max = λ h. absurd (h (is_zero-eq cfg.ingest_stream_max_len z));
  others = refl;
}

derive-Completes : (cfg : Config) → Completes cfg (derive cfg)
unfolding derive
derive-Completes cfg =
    if_rule (Completes cfg) (is_zero cfg.ingest_stream_max_len)
      (λ z.
        if_rule (Completes cfg) (ltb_ℤ (pos 0) cfg.ingest_max_queue_depth)
          (λ _. set-Completes cfg _ z) (λ _. Completes-refl cfg))
      (λ _. Completes-refl cfg)

pub check_pct-rule : (P : Config → Type 0) (cfg : Config) → P cfg → P (check_pct cfg).0
unfolding check_pct
check_pct-rule P cfg h = if_rule (λ (x : Config × Option ConfigError). P x.0) _ (λ _. h) (λ _. h)

pub apply_to-Completes :
    (t : Option ProfileDefaults) (cfg : Config) → Completes cfg (apply_to t cfg).0
unfolding apply_to
apply_to-Completes (some t) cfg = check_pct-rule (Completes cfg) (fill t cfg) (fill-Completes t cfg)
apply_to-Completes none cfg =
    if_rule (λ (x : Config × Option ConfigError). Completes cfg x.0) _
      (λ _. check_pct-rule (Completes cfg) (derive cfg) (derive-Completes cfg))
      (λ _. Completes-refl cfg)

-- Whatever the profile, a memory setting that is not 0 is kept, and no other setting changes.
pub apply_profile_defaults-Completes : (cfg : Config) → Completes cfg (apply_profile_defaults cfg).0
unfolding apply_profile_defaults
apply_profile_defaults-Completes cfg = apply_to-Completes (profiles_table cfg.profile) cfg

default_to-pos : (v d : ℤ) → pos 0 ≤ℤ v → pos 0 <ℤ d → pos 0 <ℤ default_to v d
unfolding default_to
default_to-pos v d h k = ground arith

-- Every memory setting is above 0.
pub record IsPositive (cfg : Config) : Type 0 where
  pub go_mem_limit : pos 0 <ℤ cfg.go_mem_limit_bytes
  pub stream_max : pos 0 <ℤ cfg.stream_max_len
  pub pool_size : pos 0 <ℤ cfg.redis_pool_size
  pub buffer_size : pos 0 <ℤ cfg.ws_fanout_buffer_size
  pub queue_depth : pos 0 <ℤ cfg.ingest_max_queue_depth
  pub ingest_max : pos 0 <ℤ cfg.ingest_stream_max_len

-- No memory setting is negative, and twice the queue depth fits 63 bits.
pub record IsSane (cfg : Config) : Type 0 where
  pub go_mem_limit : pos 0 ≤ℤ cfg.go_mem_limit_bytes
  pub stream_max : pos 0 ≤ℤ cfg.stream_max_len
  pub pool_size : pos 0 ≤ℤ cfg.redis_pool_size
  pub buffer_size : pos 0 ≤ℤ cfg.ws_fanout_buffer_size
  pub queue_depth : pos 0 ≤ℤ cfg.ingest_max_queue_depth
  pub ingest_max : pos 0 ≤ℤ cfg.ingest_stream_max_len
  pub depth_fits : cfg.ingest_max_queue_depth <ℤ pos (2 ^ 62)

pub record IsTier (t : ProfileDefaults) : Type 0 where
  pub go_mem_limit : pos 0 <ℤ t.go_mem_limit_bytes
  pub stream_max : pos 0 <ℤ t.stream_max_len
  pub pool_size : pos 0 <ℤ t.redis_pool_size
  pub buffer_size : pos 0 <ℤ t.ws_fanout_buffer_size
  pub queue_depth : pos 0 <ℤ t.ingest_max_queue_depth
  pub depth_fits : t.ingest_max_queue_depth <ℤ pos (2 ^ 62)

profiles_table-IsTier : (p : Bytes) {t : ProfileDefaults} → profiles_table p ≡ some t → IsTier t
unfolding profiles_table
profiles_table-IsTier p e = ground arith

doubled_pos : (d : ℤ) → pos 0 <ℤ d → d <ℤ pos (2 ^ 62) → pos 0 <ℤ wrap64 (d *ℤ pos 2)
unfolding wrap64 ◌*ℤ◌
doubled_pos (pos n) h k = ground arith
doubled_pos (negsuc n) h k = absurd (omega arith)

default_to-fits : (v d : ℤ) → v <ℤ pos (2 ^ 62) → d <ℤ pos (2 ^ 62) → default_to v d <ℤ pos (2 ^ 62)
unfolding default_to
default_to-fits v d h k = ground arith

fill-IsPositive :
    (t : ProfileDefaults) (cfg : Config) → IsTier t → IsSane cfg → IsPositive (fill t cfg)
unfolding fill
fill-IsPositive t cfg r s = record {
  go_mem_limit = default_to-pos _ _ s.go_mem_limit r.go_mem_limit;
  stream_max = default_to-pos _ _ s.stream_max r.stream_max;
  pool_size = default_to-pos _ _ s.pool_size r.pool_size;
  buffer_size = default_to-pos _ _ s.buffer_size r.buffer_size;
  queue_depth = default_to-pos _ _ s.queue_depth r.queue_depth;
  ingest_max = default_to-pos _ _ s.ingest_max (
      doubled_pos _ (default_to-pos _ _ s.queue_depth r.queue_depth)
        (default_to-fits _ _ s.depth_fits r.depth_fits));
}

-- With a profile of the table, no negative memory setting and a queue depth below 2^62, every
-- memory setting ends above 0.
pub apply_profile_defaults-IsPositive :
    (cfg : Config)
    → profiles_table cfg.profile ≢ none
    → IsSane cfg
    → IsPositive (apply_profile_defaults cfg).0
unfolding apply_profile_defaults
apply_profile_defaults-IsPositive cfg known sane =
    elim (Option-cases (profiles_table cfg.profile)) [
      | inl e ↦ absurd (known e)
      | inr (t, e) ↦ rw e (positive t e)
    ]
  where
    positive :
        (t : ProfileDefaults)
        → profiles_table cfg.profile ≡ some t
        → IsPositive (apply_to (some t) cfg).0
    positive t e =
        unfold apply_to in
        check_pct-rule IsPositive (fill t cfg)
          (fill-IsPositive t cfg (profiles_table-IsTier cfg.profile e) sane)
