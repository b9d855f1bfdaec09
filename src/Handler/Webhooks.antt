-- ===== src/Handler/Webhooks.antt =====
-- go-api/internal/handler/webhooks.go: the ingestion of a webhook.
pub mod Accepting
pub mod Delivery
pub mod Arrival
mod Tests
use easyhooks.Prelude.{
  Bytes, codes, is_empty, Bool, true, false, Option, none, some, List, [], ◌∷◌, if◌then◌else◌,
}
use easyhooks.Runtime.Errors.{Error, Result, ok, err}
use easyhooks.Runtime.Events.{webhook_load_shed_total, webhook_requests_total, stream_publish_total}
use easyhooks.Runtime.Env.{Env}
use easyhooks.Runtime.Exec.{State, Exec, pure, attempt, count, ◌>>=◌, ◌>>◌}
use easyhooks.Config.{Config}
use easyhooks.Streams.Monitor.{Monitor, should_shed}
use easyhooks.Streams.Queue.{publish}
use easyhooks.Service.Streams.{UuidLib}
use easyhooks.Http.{Request, Response, Json, string, header, json_response, write_error}
use easyhooks.Http.Spaces.{trim_space}

-- `shedder != nil && shedder.ShouldShed()`
unfoldable pub sheds : Option Monitor → Bool
sheds none = false
sheds (some m) = should_shed m

abbrev pub event_id_of : Request → Bytes
event_id_of r = trim_space (header r (codes "X-Event-Id"))

abbrev pub retry_later : Response
retry_later =
    let answer = write_error 429 (codes "Ingestion queue saturated; retry later") in
    record answer { headers = (codes "Retry-After", codes "5") ∷ answer.headers }

module _ {W : Type 0} (env : Env W) (uuid : UuidLib) (cfg : Config) where
  abbrev counting : Bytes → Bytes → Exec W (Unit {0})
  counting tenant_id status = count (webhook_requests_total (uuid.to_string tenant_id) status)

  unfoldable pub after_publish : Bytes → Result Bytes → Exec W Response
  after_publish tenant_id (err e) = do
    count (stream_publish_total cfg.event_stream_key (codes "error"))
    counting tenant_id (codes "error")
    pure (write_error 500 (codes "Failed to queue webhook event"))
  after_publish tenant_id (ok id) = do
    count (stream_publish_total cfg.event_stream_key (codes "success"))
    counting tenant_id (codes "accepted")
    pure (
        json_response 202 (
          (codes "status", string (codes "accepted"))
          ∷ (codes "tenant_id", string (uuid.to_string tenant_id))
          ∷ []))

  unfoldable pub publish_body : Bytes → Bytes → Result Bytes → Exec W Response
  publish_body tenant_id event_id (err e) =
      pure (write_error 400 (codes "Cannot read request body"))
  publish_body tenant_id event_id (ok body) =
      attempt (
        publish env cfg.event_stream_key (uuid.to_string tenant_id) event_id body
          cfg.ingest_stream_max_len)
      >>= after_publish tenant_id

  unfoldable pub no_event_id : Bytes → Exec W Response
  no_event_id tenant_id = do
    counting tenant_id (codes "error")
    pure (write_error 400 (codes "Missing required header X-Event-Id"))

  unfoldable pub shed : Bytes → Exec W Response
  shed tenant_id = do
    count (webhook_load_shed_total (uuid.to_string tenant_id))
    counting tenant_id (codes "shed")
    pure retry_later

  -- The handler, by the tenant in the request's context.
  unfoldable pub ingest_webhook : Option Monitor → Option Bytes → Request → Exec W Response
  unfolding sheds
  ingest_webhook shedder none r = pure (write_error 401 (codes "Unauthenticated"))
  ingest_webhook shedder (some tenant_id) r =
      if sheds shedder
      then shed tenant_id
      else if is_empty (event_id_of r)
      then no_event_id tenant_id
      else publish_body tenant_id (event_id_of r) r.body
