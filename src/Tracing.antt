-- ===== src/Tracing.antt =====
-- go-api/internal/observability/tracing.go: the start of the tracing. The libraries of gRPC and
-- OpenTelemetry are parameters.
pub mod Targets
use easyhooks.Prelude.{
  ℕ, ◌==◌, Bytes, codes, trim_prefix, Bool, true, false, Option, none, some, List, [], ◌∷◌,
  if◌then◌else◌,
}
use easyhooks.Runtime.Errors.{Error, Result, ok, err}
use easyhooks.Runtime.Exec.{State, Exec, pure, wrap, ◌>>=◌, ◌>>◌}
use easyhooks.Security.{asking}
use easyhooks.Config.{Config}

pub record TracingLib (W : Type 0) : Type 0 where
  -- grpc.NewClient, by the target
  pub new_client : Bytes → W → Result Unit × W
  -- otlptracegrpc.New
  pub new_exporter : W → Result Unit × W
  -- resource.New, by the service's name
  pub new_resource : Bytes → W → Result Unit × W
  -- The provider and the propagator become the global ones.
  pub set_globals : W → Unit {0} × W

-- The function that is returned: one that does nothing, or the provider's own.
pub data Shutdown : Type 0 where
  nothing provider : Shutdown

-- strings.TrimSuffix(target, "/")
unfoldable pub trim_slash : Bytes → Bytes
trim_slash [] = []
trim_slash (c ∷ []) = if c == b'/' then [] else c ∷ []
trim_slash (c ∷ d ∷ s) = c ∷ trim_slash (d ∷ s)

unfoldable pub target : Bytes → Bytes
unfolding trim_prefix trim_slash
target endpoint =
    trim_slash (trim_prefix (trim_prefix endpoint (codes "http://")) (codes "https://"))

module _ {W : Type 0} (lib : TracingLib W) where
  abbrev calling : {A : Type 0} → (W → Result A × W) → Exec W A
  calling op s = let (r, w) = op s.world in (r, record s { world = w })

  -- `InitTracing`; with an error, the function is nil.
  unfoldable pub init_tracing : Config → Exec W Shutdown
  unfolding target
  init_tracing cfg =
      if cfg.tracing_enabled
      then (do
        wrap (codes "create gRPC connection") (calling (lib.new_client (target cfg.otel_endpoint)))
        wrap (codes "create OTLP exporter") (calling lib.new_exporter)
        wrap (codes "create resource") (calling (lib.new_resource cfg.otel_service_name))
        asking lib.set_globals
        pure provider)
      else pure nothing
