-- ===== src/Api.antt =====
-- go-api/cmd/api/main.go: the routes, and go-api/internal/handler/health.go. Which route a request
-- takes is chi's answer, and so is what it writes for none; the page of Prometheus and the
-- connection behind /ws/events are arguments. The middleware of chi for panics, addresses and CORS
-- leaves requests and answers as they are.
pub mod Ends
pub mod Guards
mod Tests
use easyhooks.Prelude.{Bytes, codes, Option, none, some, List, [], ◌∷◌}
use easyhooks.Runtime.Errors.{Result}
use easyhooks.Runtime.Env.{Env}
use easyhooks.Runtime.Exec.{State, Exec, pure}
use easyhooks.Config.{Config}
use easyhooks.Security.{Crypto}
use easyhooks.Streams.Monitor.{Monitor}
use easyhooks.Service.Streams.{UuidLib}
use easyhooks.Service.Tenant.{create_tenant_handler}
use easyhooks.Http.{Request, Response, string, json_response}
use easyhooks.Handler.Webhooks.{ingest_webhook}
use easyhooks.Handler.Socket.{issue_token}
use easyhooks.Middleware.{tenant_auth, admin_auth}
use easyhooks.Middleware.Requests.{http_metrics}

-- The routes, in the order in which they are registered.
pub data Endpoint : Type 0 where
  -- GET /health, /metrics
  health_route metrics_route : Endpoint
  -- POST /admin/tenants
  create_tenant_route : Endpoint
  -- POST /v1/webhooks/{tenant_id}, POST /v1/tokens/{tenant_id}
  ingest_webhook_route issue_token_route : Endpoint
  -- GET /ws/events/{tenant_id}
  ws_events_route : Endpoint

unfoldable pub health : {W : Type 0} → Request → Exec W Response
health r = pure (
    json_response 200 (
      (codes "status", string (codes "healthy"))
      ∷ (codes "service", string (codes "easyhooks"))
      ∷ []))

-- What the rest of the server is: the routing, the pages of other handlers, the decoding of a name.
pub record Rest (W : Type 0) : Type 0 where
  pub route : Request → Option Endpoint
  pub not_found : Request → Exec W Response
  pub metrics_page : Request → Exec W Response
  pub ws_events : Request → Exec W Response
  pub parse_name : Result Bytes → Result Bytes

module _ {W : Type 0} (env : Env W) (crypto : Crypto) (uuid : UuidLib) (cfg : Config)
    (shedder : Option Monitor) (rest : Rest W) where
  unfoldable pub endpoint : Endpoint → Request → Exec W Response
  endpoint health_route r = health r
  endpoint metrics_route r = rest.metrics_page r
  endpoint create_tenant_route r =
      admin_auth env crypto (create_tenant_handler env crypto uuid cfg rest.parse_name) r
  endpoint ingest_webhook_route r =
      tenant_auth env crypto uuid cfg
        (λ tenant_id. ingest_webhook env uuid cfg shedder (some tenant_id)) r
  endpoint issue_token_route r =
      tenant_auth env crypto uuid cfg
        (λ tenant_id r'. issue_token env crypto uuid cfg (some tenant_id)) r
  endpoint ws_events_route r = rest.ws_events r

  unfoldable pub dispatch : Option Endpoint → Request → Exec W Response
  dispatch none r = rest.not_found r
  dispatch (some e) r = endpoint e r

  -- The router with its middleware.
  unfoldable pub serve : Request → Exec W Response
  serve r = http_metrics (λ r'. dispatch (rest.route r') r') r
