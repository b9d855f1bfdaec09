-- ===== src/Config/Defaults.antt =====
-- Which settings load, and what the defaults leave alone.
use easyhooks.Prelude.{
  ℤ, pos, ◌≤ℤ◌, Bytes, codes, bytes_eq, bytes_eq_iff, true, Option, none, some, ◌≡◌, ◌≢◌, refl, ◌⊎◌,
  ◌↔◌, arith,
}
use easyhooks.Runtime.Errors.{Result, ok, err, ok-injective}
use easyhooks.Config.{
  Config, ProfileDefaults, ConfigError, profiles_table, fill, derive, check_pct, apply_to,
  apply_profile_defaults, loaded, load, finish_load,
}

-- A profile that the program knows.
abbrev pub IsProfile : Bytes → Type 0
IsProfile p =
    (p ≡ codes "small") ⊎ ((p ≡ codes "medium") ⊎ ((p ≡ codes "large") ⊎ (p ≡ codes "custom")))

abbrev pub IsPct : ℤ → Type 0
IsPct p = (pos 0 ≤ℤ p) × (p ≤ℤ pos 100)

check_pct-none : (cfg : Config) → ((check_pct cfg).1 ≡ none) ↔ IsPct cfg.queue_depth_low_water_pct
unfolding check_pct
check_pct-none cfg = ground arith

derive-pct : (cfg : Config) → (derive cfg).queue_depth_low_water_pct ≡ cfg.queue_depth_low_water_pct
unfolding derive
derive-pct cfg = ground arith

apply_to-none :
    (t : Option ProfileDefaults) (cfg : Config)
    → ((apply_to t cfg).1 ≡ none) ↔ (
        ((t ≢ none) ⊎ (bytes_eq cfg.profile (codes "custom") ≡ true))
        × IsPct cfg.queue_depth_low_water_pct)
unfolding apply_to
apply_to-none (some t) cfg = ground (arith, check_pct-none (fill t cfg))
apply_to-none none cfg = ground (arith, check_pct-none (derive cfg), derive-pct cfg)

table-ne-none :
    (p : Bytes)
    → (profiles_table p ≢ none)
      ↔ ((p ≡ codes "small") ⊎ ((p ≡ codes "medium") ⊎ (p ≡ codes "large")))
unfolding profiles_table
table-ne-none p = ground (
  arith,
  bytes_eq_iff p (codes "small"),
  bytes_eq_iff p (codes "medium"),
  bytes_eq_iff p (codes "large"),
)

-- The settings are accepted exactly when the profile is one of the four and the low-water
-- percentage lies in 0..100.
pub apply_profile_defaults-none :
    (cfg : Config)
    → ((apply_profile_defaults cfg).1 ≡ none)
      ↔ (IsProfile cfg.profile × IsPct cfg.queue_depth_low_water_pct)
unfolding apply_profile_defaults
apply_profile_defaults-none cfg = ground (
  arith,
  apply_to-none (profiles_table cfg.profile) cfg,
  table-ne-none cfg.profile,
  bytes_eq_iff cfg.profile (codes "custom"),
)

finish-loaded :
    (x : Config × Option ConfigError) (cfg : Config)
    → (finish_load x ≡ loaded cfg) ↔ ((x.1 ≡ none) × (cfg ≡ x.0))
unfolding finish_load
finish-loaded (c, none) cfg = ground arith
finish-loaded (c, some e) cfg = ground arith

-- The environment parses to settings that are accepted, and `cfg` is their completion.
pub record Accepted (r : Result Config) (cfg : Config) : Type 0 where
  pub parsed : Config
  pub parses : r ≡ ok parsed
  pub known : IsProfile parsed.profile
  pub in_range : IsPct parsed.queue_depth_low_water_pct
  pub completed : cfg ≡ (apply_profile_defaults parsed).0

-- `load` gives settings exactly when the environment parses to accepted ones, and then it gives
-- their completion.
pub load-loaded : (r : Result Config) (cfg : Config) → (load r ≡ loaded cfg) ↔ Accepted r cfg
unfolding load
load-loaded (err e) cfg = (λ h. cc, λ a. cc (a.parses))
load-loaded (ok c) cfg =
    let fin = finish-loaded (apply_profile_defaults c) cfg in
    let acc = apply_profile_defaults-none c in
    (
      λ h. record {
        parsed = c;
        parses = refl;
        known = (acc.0 (fin.0 h).0).0;
        in_range = (acc.0 (fin.0 h).0).1;
        completed = (fin.0 h).1;
      },
      λ a.
          let e = ok-injective a.parses in
          fin.1 (acc.1 (rw e a.known, rw e a.in_range), rw e a.completed),
    )
