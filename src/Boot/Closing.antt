-- ===== src/Boot/Closing.antt =====
-- The deferred end of the tracing.
use easyhooks.Prelude.{Bytes, Bool, Option, ◌≡◌, refl, sym, ap, ◌∙◌, subst, ◌↔◌}
use easyhooks.Runtime.Errors.{Error, Result, ok, err, ok-injective}
use easyhooks.Runtime.Env.{Env}
use easyhooks.Runtime.Exec.{State}
use easyhooks.Config.{Config, loaded, load}
use easyhooks.Security.{Crypto}
use easyhooks.Redis.{Options}
use easyhooks.Service.Fanout.{panicked}
use easyhooks.Tracing.{TracingLib, Shutdown}
use easyhooks.Boot.{deferred, Server, boot, close_tracing}
use easyhooks.Boot.Order.{Follows, no_redis, no_seed, no_group, stands, traced, boot-Follows}

deferred-panics :
    (tracer : Result Shutdown)
    → (close_tracing (deferred tracer) ≡ panicked) ↔ ((e : Error) × (tracer ≡ err e))
unfolding close_tracing
deferred-panics (ok f) = (λ h. cc, λ h. absurd (no_error h.1))
  where
    no_error : {e : Error} → ok f ≡ err e → ⊥
    no_error h = cc
deferred-panics (err e) = (λ h. (e, refl), λ h. refl)

module _ {W : Type 0} (env : Env W) (crypto : Crypto) (parse_url : Bytes → Result Options)
    (tracing : TracingLib W) (has_gomemlimit : Bool) where
  -- A server that stood panics in the deferred call at the end of main exactly if the start of the
  -- tracing had failed, of which the code only warns: the function that it defers is nil then.
  pub boot-close_tracing :
      (parsed : Result Config) (cfg : Config) (s : State W) (server : Server)
      → load parsed ≡ loaded cfg
      → (boot env crypto parse_url tracing has_gomemlimit parsed s).0 ≡ ok server
      → (close_tracing server.shutdown_tracing ≡ panicked)
        ↔ ((e : Error) × ((traced env crypto parse_url tracing has_gomemlimit cfg s).0 ≡ err e))
  boot-close_tracing parsed cfg s server l stood =
      closed (boot env crypto parse_url tracing has_gomemlimit parsed s)
        (boot-Follows env crypto parse_url tracing has_gomemlimit parsed cfg s l) stood
    where
      tracer : Result Shutdown
      tracer = (traced env crypto parse_url tracing has_gomemlimit cfg s).0

      no_server : {e : Error} → err e ≡ ok server → ⊥
      no_server h = cc

      left_early :
          {after : Result Server × State W} {e : Error} {t : State W}
          → after ≡ (err e, t)
          → after.0 ≡ ok server
          → ⊥
      left_early left stood =
          no_server (sym (ap (λ (x : Result Server × State W). x.0) left) ∙ stood)

      closed :
          (after : Result Server × State W)
          → Follows env crypto parse_url tracing has_gomemlimit cfg tracer
              (traced env crypto parse_url tracing has_gomemlimit cfg s).1
              after
          → after.0 ≡ ok server
          → (close_tracing server.shutdown_tracing ≡ panicked) ↔ ((e : Error) × (tracer ≡ err e))
      closed after (no_redis e a left) stood = absurd (left_early left stood)
      closed after (no_seed client e a b left) stood = absurd (left_early left stood)
      closed after (no_group client e a b c left) stood = absurd (left_early left stood)
      closed after (stands client a b c standing) stood =
          subst
            (λ (f : Option Shutdown).
              (close_tracing f ≡ panicked) ↔ ((e : Error) × (tracer ≡ err e)))
            (sym standing.closing
              ∙ ap (λ (v : Server). v.shutdown_tracing)
                  (ok-injective (sym standing.result ∙ stood)))
            (deferred-panics tracer)
