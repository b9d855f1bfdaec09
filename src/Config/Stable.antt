-- ===== src/Config/Stable.antt =====
-- The defaults, applied to settings that have them.
use easyhooks.Prelude.{
  ℤ, pos, negsuc, ◌*ℤ◌, wrap64, codes, bytes_eq, Bool, true, false, Option, none, some, ◌≡◌, refl,
  arith, ap, ◌∙◌, Bool-cases, inl, inr,
}
use easyhooks.Config.Sizes.{check_pct-rule, apply_to-Completes}
use easyhooks.Config.{
  invalid_profile, Config, ProfileDefaults, profiles_table, default_to, fill, derive, check_pct,
  apply_to, apply_profile_defaults,
}

default_to_idem : (v d : ℤ) → default_to (default_to v d) d ≡ default_to v d
unfolding default_to
default_to_idem (pos n) d = ground arith
default_to_idem (negsuc n) d = refl

-- The steps keep the profile, so the second application takes the same case.
fill-fill : (t : ProfileDefaults) (cfg : Config) → fill t (fill t cfg) ≡ fill t cfg
unfolding fill
fill-fill t cfg = cc (
  default_to_idem cfg.go_mem_limit_bytes t.go_mem_limit_bytes,
  default_to_idem cfg.stream_max_len t.stream_max_len,
  default_to_idem cfg.redis_pool_size t.redis_pool_size,
  default_to_idem cfg.ws_fanout_buffer_size t.ws_fanout_buffer_size,
  default_to_idem cfg.ingest_max_queue_depth t.ingest_max_queue_depth,
  default_to_idem cfg.ingest_stream_max_len
      (wrap64 (default_to cfg.ingest_max_queue_depth t.ingest_max_queue_depth *ℤ pos 2)),
)

derive-derive : (cfg : Config) → derive (derive cfg) ≡ derive cfg
unfolding derive
derive-derive cfg = ground arith

check_pct-same : (cfg : Config) → (check_pct cfg).0 ≡ cfg
check_pct-same cfg = check_pct-rule (λ c. c ≡ cfg) cfg refl

check_pct-again :
    (f : Config → Config) (cfg : Config)
    → f (f cfg) ≡ f cfg
    → check_pct (f (check_pct (f cfg)).0) ≡ check_pct (f cfg)
check_pct-again f cfg e = ap (λ c. check_pct (f c)) (check_pct-same (f cfg)) ∙ ap check_pct e

derive-profile : (cfg : Config) → (derive cfg).profile ≡ cfg.profile
unfolding derive
derive-profile cfg = ground arith

abbrev is_custom : Config → Bool
is_custom cfg = bytes_eq cfg.profile (codes "custom")

apply_to-custom : (cfg : Config) → is_custom cfg ≡ true → apply_to none cfg ≡ check_pct (derive cfg)
unfolding apply_to
apply_to-custom cfg e = rw e

apply_to-unknown :
    (cfg : Config)
    → is_custom cfg ≡ false
    → apply_to none cfg ≡ (cfg, some (invalid_profile cfg.profile))
unfolding apply_to
apply_to-unknown cfg e = rw e

checked-custom : (cfg : Config) → is_custom cfg ≡ true → is_custom (check_pct (derive cfg)).0 ≡ true
checked-custom cfg e = rw (check_pct-same (derive cfg), derive-profile cfg) e

apply_to-again :
    (t : Option ProfileDefaults) (cfg : Config) → apply_to t (apply_to t cfg).0 ≡ apply_to t cfg
apply_to-again (some t) cfg = unfold apply_to in check_pct-again (fill t) cfg (fill-fill t cfg)
apply_to-again none cfg = elim (Bool-cases (is_custom cfg)) [
  | inl e ↦
      rw (apply_to-custom cfg e)
        (apply_to-custom _ (checked-custom cfg e) ∙ check_pct-again derive cfg (derive-derive cfg))
  | inr e ↦ rw (apply_to-unknown cfg e) (apply_to-unknown cfg e)
]

apply_to-profile :
    (t : Option ProfileDefaults) (cfg : Config) → (apply_to t cfg).0.profile ≡ cfg.profile
apply_to-profile t cfg = ap (λ (c : Config). c.profile) (apply_to-Completes t cfg).others

-- Settings that the defaults have completed, accepted or not, are what the defaults make of them
-- again, with the same verdict.
pub apply_profile_defaults_idem :
    (cfg : Config)
    → apply_profile_defaults (apply_profile_defaults cfg).0 ≡ apply_profile_defaults cfg
unfolding apply_profile_defaults
apply_profile_defaults_idem cfg =
    let t = profiles_table cfg.profile in
    ap (λ p. apply_to (profiles_table p) (apply_to t cfg).0) (apply_to-profile t cfg)
    ∙ apply_to-again t cfg
