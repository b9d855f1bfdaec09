-- ===== src/Api/Tests.antt =====
-- A signed webhook at a server with the tenant's key.
use easyhooks.Streams.Queue.{publish, capped}
use easyhooks.Http.Spaces.{trim_space}
use easyhooks.Handler.Webhooks.{ingest_webhook, publish_body, after_publish}
use easyhooks.Security.{verify_hmac_signature, hex}
use easyhooks.Middleware.{
  tenant_auth, tenant_of_path, read_body, credentials, serve_tenant, authenticate_via_hmac,
  check_signature,
}
use easyhooks.Middleware.Requests.{http_metrics, counted_request}
use easyhooks.Prelude.{pos, codes, none, some, [], ◌∷◌, ◌≡◌, refl, arith, lookup, bytes_eq}
use easyhooks.Runtime.Errors.{ok}
use easyhooks.Runtime.Exec.{Exec, pure, ◌>>=◌}
use easyhooks.Runtime.Fake.{Fake, fake, quiet, start}
use easyhooks.Config.Example.{example_config}
use easyhooks.Security.Fake.{toy, plain_uuid}
use easyhooks.Http.{Request, Response, json_response, header}
use easyhooks.Handler.Webhooks.Delivery.{status_of}
use easyhooks.Api.{ingest_webhook_route, Rest, serve, dispatch, endpoint}
use easyhooks.Api.Guards.{Permitted, serve-Permitted, Accepted, serve-Accepted}

abbrev signed : Request
signed = record {
  tenant_id = codes "t";
  headers =
      (codes "X-Webhook-Signature", codes "sha256=6b7b7d") ∷ (codes "X-Event-Id", codes "e1") ∷ [];
  method = codes "POST";
  path = codes "/v1/webhooks/t";
  content_length = pos 2;
  body = ok (codes "{}");
}

abbrev provisioned : Fake
provisioned = record quiet { keys = (codes "tenant_hmac_key:t", codes "k") ∷ [] }

abbrev page : Request → Exec Fake Response
page r = pure (json_response 404 [])

abbrev rest : Rest Fake
rest = record {
  route = λ r. some ingest_webhook_route;
  not_found = page;
  metrics_page = page;
  ws_events = page;
  parse_name = λ body. body;
}

accepted :
    status_of (serve fake toy plain_uuid example_config none rest signed (start provisioned)).0
    ≡ 202
unfolding serve http_metrics ◌>>=◌ dispatch endpoint tenant_auth tenant_of_path read_body
    credentials serve_tenant authenticate_via_hmac check_signature fake verify_hmac_signature
    ingest_webhook trim_space publish_body after_publish publish header lookup bytes_eq hex
    counted_request capped
accepted = refl

serve-Accepted_example :
    Accepted fake toy plain_uuid example_config none rest signed
      (start provisioned)
      (serve fake toy plain_uuid example_config none rest signed (start provisioned))
serve-Accepted_example =
    serve-Accepted fake toy plain_uuid example_config none rest signed (start provisioned) refl
      accepted

serve-Permitted_example :
    Permitted fake toy plain_uuid example_config none rest ingest_webhook_route signed
      (start provisioned)
serve-Permitted_example =
    serve-Permitted fake toy plain_uuid example_config none rest ingest_webhook_route signed
      (start provisioned) refl (rw accepted (omega arith))
