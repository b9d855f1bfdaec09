-- ===== src/Api/Guards.antt =====
-- What a request needs for an answer below 400, and for an accepted webhook.
use easyhooks.Runtime.Events.{commands, xadd}
use easyhooks.Prelude.{
  ℕ, ◌<◌, Bytes, codes, has_prefix, true, Option, some, ◌≡◌, sym, ap, ◌∙◌, subst, arith, ◌∷◌,
}
use easyhooks.Runtime.Errors.{Result, ok, ok-injective}
use easyhooks.Runtime.Env.{Env}
use easyhooks.Runtime.Exec.{State, Exec}
use easyhooks.Runtime.Keys.{stored}
use easyhooks.Config.{Config}
use easyhooks.Security.{Crypto}
use easyhooks.Streams.Monitor.{Monitor}
use easyhooks.Service.Streams.{UuidLib}
use easyhooks.Service.Tenant.{create_tenant_handler}
use easyhooks.Http.{Request, Response, header}
use easyhooks.Handler.Webhooks.{ingest_webhook}
use easyhooks.Handler.Webhooks.Accepting.{append_of}
use easyhooks.Handler.Webhooks.Delivery.{status_of, ingest_webhook-Stored}
use easyhooks.Handler.Socket.{issue_token}
use easyhooks.Middleware.{admin_token_hash_key, bearer_prefix}
use easyhooks.Middleware.Tenants.{
  Credential, Guarded, passed, refused, tenant_auth-Guarded, secret_of,
}
use easyhooks.Middleware.Admin.{Admitted, admin_auth-Admitted}
use easyhooks.Api.Ends.{SameEnd, http_metrics-SameEnd}
use easyhooks.Api.{
  Endpoint, health_route, metrics_route, create_tenant_route, ingest_webhook_route,
  issue_token_route, ws_events_route, Rest, endpoint, dispatch, serve,
}

module _ {W : Type 0} (env : Env W) (crypto : Crypto) (uuid : UuidLib) (cfg : Config)
    (shedder : Option Monitor) (rest : Rest W) where
  abbrev ByTenant : Request → State W → Type 0
  ByTenant r s =
      (tenant_id : Bytes) × (body : Bytes) × (uuid.parse r.tenant_id ≡ ok tenant_id)
      × (r.body ≡ ok body)
      × Credential env crypto uuid cfg (record r { body = ok body }) s tenant_id body

  abbrev ByAdmin : Request → State W → Type 0
  ByAdmin r s =
      (hash : Bytes) × (stored env admin_token_hash_key s.world ≡ ok hash)
      × (has_prefix (header r (codes "Authorization")) bearer_prefix ≡ true)
      × (crypto.bcrypt_compare hash (secret_of r) ≡ true)

  -- What the routes ask for.
  abbrev pub Permitted : Endpoint → Request → State W → Type 0
  Permitted health_route r s = Unit {0}
  Permitted metrics_route r s = Unit {0}
  Permitted create_tenant_route r s = ByAdmin r s
  Permitted ingest_webhook_route r s = ByTenant r s
  Permitted issue_token_route r s = ByTenant r s
  Permitted ws_events_route r s = Unit {0}

  Guarded-ByTenant :
      (next : Bytes → Request → Exec W Response) (r : Request) (s : State W)
      (after : Result Response × State W)
      → Guarded env crypto uuid cfg next r s after
      → status_of after.0 < 400
      → ByTenant r s
  Guarded-ByTenant next r s after (passed tenant_id body t p b c e) below =
      (tenant_id, body, p, b, c)
  Guarded-ByTenant next r s after (refused code detail high e) below =
      absurd (omega (arith, high, below, ap status_of e))

  Admitted-ByAdmin :
      (next : Request → Exec W Response) (r : Request) (s : State W)
      (after : Result Response × State W)
      → Admitted env crypto next r s after
      → status_of after.0 < 400
      → ByAdmin r s
  Admitted-ByAdmin next r s after (Admitted.passed hash t bearer h valid e) below =
      (hash, h, bearer, valid)
  Admitted-ByAdmin next r s after (Admitted.refused code detail high e) below =
      absurd (omega (arith, high, below, ap status_of e))

  endpoint-Permitted :
      (e : Endpoint) (r : Request) (s : State W)
      → status_of (endpoint env crypto uuid cfg shedder rest e r s).0 < 400
      → Permitted e r s
  unfolding endpoint
  endpoint-Permitted health_route r s below = tt
  endpoint-Permitted metrics_route r s below = tt
  endpoint-Permitted create_tenant_route r s below =
      Admitted-ByAdmin _ r s _
        (admin_auth-Admitted env crypto (create_tenant_handler env crypto uuid cfg rest.parse_name)
          r s)
        below
  endpoint-Permitted ingest_webhook_route r s below =
      Guarded-ByTenant _ r s _
        (tenant_auth-Guarded env crypto uuid cfg
          (λ tenant_id. ingest_webhook env uuid cfg shedder (some tenant_id)) r s)
        below
  endpoint-Permitted issue_token_route r s below =
      Guarded-ByTenant _ r s _
        (tenant_auth-Guarded env crypto uuid cfg
          (λ tenant_id r'. issue_token env crypto uuid cfg (some tenant_id)) r s)
        below
  endpoint-Permitted ws_events_route r s below = tt

  routed-SameEnd :
      (e : Endpoint) (r : Request) (s : State W)
      → rest.route r ≡ some e
      → SameEnd
          (serve env crypto uuid cfg shedder rest r s)
          (endpoint env crypto uuid cfg shedder rest e r s)
  unfolding serve dispatch
  routed-SameEnd e r s routed =
      subst
        (λ (o : Option Endpoint).
          SameEnd (serve env crypto uuid cfg shedder rest r s)
            (dispatch env crypto uuid cfg shedder rest o r s))
        routed
        (http_metrics-SameEnd (λ r'. dispatch env crypto uuid cfg shedder rest (rest.route r') r') r
          s)

  -- A request that the server routes and answers with a status below 400 had what its route asks
  -- for when it came: a credential of the tenant of its path, over its body, to ingest a webhook or
  -- to get a token; a bearer token that matches the administrator's hash to create a tenant. The
  -- other routes ask for nothing here.
  pub serve-Permitted :
      (e : Endpoint) (r : Request) (s : State W)
      → rest.route r ≡ some e
      → status_of (serve env crypto uuid cfg shedder rest r s).0 < 400
      → Permitted e r s
  serve-Permitted e r s routed below =
      endpoint-Permitted e r s (subst (λ (n : ℕ). n < 400) (routed-SameEnd e r s routed).0 below)

  -- What stands behind an accepted webhook: the request's credential, and the append of its entry,
  -- which is the last command of the request and which Redis took, going over to its last state.
  pub record Accepted (r : Request) (s : State W) (after : Result Response × State W) : Type 0 where
    pub tenant_id : Bytes
    pub body : Bytes
    pub of_path : uuid.parse r.tenant_id ≡ ok tenant_id
    pub read : r.body ≡ ok body
    pub credential : Credential env crypto uuid cfg (record r { body = ok body }) s tenant_id body
    pub at_append : State W
    pub entry : Bytes
    pub appended :
        env.xadd (append_of uuid cfg tenant_id (record r { body = ok body }) body) at_append.world
        ≡ (ok entry, after.1.world)
    pub sent_last :
        commands after.1.events
        ≡ xadd (append_of uuid cfg tenant_id (record r { body = ok body }) body)
          ∷ commands at_append.events

  Guarded-Accepted :
      (r : Request) (s : State W) (x after : Result Response × State W)
      → Guarded env crypto uuid cfg
          (λ tenant_id. ingest_webhook env uuid cfg shedder (some tenant_id))
          r
          s
          x
      → SameEnd after x
      → status_of after.0 ≡ 202
      → Accepted r s after
  Guarded-Accepted r s x after (refused code detail high e) same h =
      absurd (omega (arith, high, sym same.0 ∙ h, ap status_of e))
  Guarded-Accepted r s x after (passed tenant_id body t p b c e) same h =
      let q =
        ingest_webhook-Stored env uuid cfg shedder tenant_id (record r { body = ok body }) t
          (sym (ap (λ (y : Result Response × State W). status_of y.0) e) ∙ sym same.0 ∙ h) in
      let args = append_of uuid cfg tenant_id (record r { body = ok body }) in
      let one_body = ok-injective q.acceptable.read in
      record {
        tenant_id = tenant_id;
        body = body;
        of_path = p;
        read = b;
        credential = c;
        at_append = t;
        entry = q.acceptable.entry;
        appended =
            ap (λ (z : Bytes). env.xadd (args z) t.world) one_body
            ∙ q.replied
            ∙ ap (λ (v : W). (ok q.acceptable.entry, v))
                (sym (same.1 ∙ ap (λ (y : Result Response × State W). y.1.world) e));
        sent_last =
            same.2
            ∙ ap (λ (y : Result Response × State W). commands y.1.events) e
            ∙ q.sent_last
            ∙ ap (λ (z : Bytes). xadd (args z) ∷ commands t.events) (sym one_body);
      }

  -- A webhook that the server answers with 202 came with a credential of the tenant in its path,
  -- over its body, and its last command to Redis, which Redis took, was the append of an entry with
  -- that tenant, the event's id and that body.
  pub serve-Accepted :
      (r : Request) (s : State W)
      → rest.route r ≡ some ingest_webhook_route
      → status_of (serve env crypto uuid cfg shedder rest r s).0 ≡ 202
      → Accepted r s (serve env crypto uuid cfg shedder rest r s)
  unfolding endpoint
  serve-Accepted r s routed h =
      Guarded-Accepted r s _ _
        (tenant_auth-Guarded env crypto uuid cfg
          (λ tenant_id. ingest_webhook env uuid cfg shedder (some tenant_id)) r s)
        (routed-SameEnd ingest_webhook_route r s routed) h
