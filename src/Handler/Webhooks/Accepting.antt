-- ===== src/Handler/Webhooks/Accepting.antt =====
-- What becomes of a request to ingest a webhook.
use easyhooks.Prelude.{
  ℕ, suc, ◌+◌, Bytes, codes, is_empty, true, false, Bool-cases, Option, some, List, [], ◌∷◌, ◌≡◌,
  refl, inl, inr, arith,
}
use easyhooks.Runtime.Errors.{Error, Result, ok, err, Result-cases}
use easyhooks.Runtime.Events.{
  Event, counted, sent, waited, commands, xadd, XaddArgs, Metric, webhook_requests_total,
}
use easyhooks.Runtime.Env.{Env}
use easyhooks.Runtime.Exec.{State, ◌>>=◌}
use easyhooks.Config.{Config}
use easyhooks.Streams.Monitor.{Monitor}
use easyhooks.Streams.Queue.{publish, capped, event_values}
use easyhooks.Service.Streams.{UuidLib}
use easyhooks.Http.{Request, Response, write_error, json_response, string}
use easyhooks.Handler.Webhooks.{
  sheds, event_id_of, retry_later, after_publish, publish_body, no_event_id, shed, ingest_webhook,
}

-- The number of requests that are counted.
requests_of : Metric → ℕ
requests_of (webhook_requests_total t status) = 1
requests_of m = 0

pub requests : List Event → ℕ
unfolding requests_of
requests [] = 0
requests (counted m ∷ events) = requests_of m + requests events
requests (sent c ∷ events) = requests events
requests (waited n ∷ events) = requests events

-- The append that the request asks for.
abbrev pub append_of : UuidLib → Config → Bytes → Request → Bytes → XaddArgs
append_of uuid cfg tenant_id r body =
    capped cfg.event_stream_key (event_values (uuid.to_string tenant_id) (event_id_of r) body)
      cfg.ingest_stream_max_len

module _ {W : Type 0} (env : Env W) (uuid : UuidLib) (cfg : Config) (shedder : Option Monitor)
    (tenant_id : Bytes) (r : Request) where
  -- The five ends of a request by an authenticated tenant, with their conditions: what is answered,
  -- what is sent to Redis, and whether the request is counted.
  pub data Ingested (s : State W) (after : Result Response × State W) : Type 0 where
    shedding :
        sheds shedder ≡ true
        → after.0 ≡ ok retry_later
        → commands after.1.events ≡ commands s.events
        → requests after.1.events ≡ suc (requests s.events)
        → Ingested s after
    unnamed :
        sheds shedder ≡ false
        → is_empty (event_id_of r) ≡ true
        → after.0 ≡ ok (write_error 400 (codes "Missing required header X-Event-Id"))
        → commands after.1.events ≡ commands s.events
        → requests after.1.events ≡ suc (requests s.events)
        → Ingested s after
    unreadable :
        (e : Error)
        → sheds shedder ≡ false
        → is_empty (event_id_of r) ≡ false
        → r.body ≡ err e
        → after.0 ≡ ok (write_error 400 (codes "Cannot read request body"))
        → after.1 ≡ s
        → Ingested s after
    failed :
        (body : Bytes) (e : Error)
        → sheds shedder ≡ false
        → is_empty (event_id_of r) ≡ false
        → r.body ≡ ok body
        → (env.xadd (append_of uuid cfg tenant_id r body) s.world).0 ≡ err e
        → after.0 ≡ ok (write_error 500 (codes "Failed to queue webhook event"))
        → commands after.1.events ≡ xadd (append_of uuid cfg tenant_id r body) ∷ commands s.events
        → requests after.1.events ≡ suc (requests s.events)
        → Ingested s after
    queued :
        (body id : Bytes)
        → sheds shedder ≡ false
        → is_empty (event_id_of r) ≡ false
        → r.body ≡ ok body
        → (env.xadd (append_of uuid cfg tenant_id r body) s.world).0 ≡ ok id
        → after.0
          ≡ ok (
              json_response 202 (
                (codes "status", string (codes "accepted"))
                ∷ (codes "tenant_id", string (uuid.to_string tenant_id))
                ∷ []))
        → commands after.1.events ≡ xadd (append_of uuid cfg tenant_id r body) ∷ commands s.events
        → requests after.1.events ≡ suc (requests s.events)
        → (env.xadd (append_of uuid cfg tenant_id r body) s.world).1 ≡ after.1.world
        → Ingested s after

  publish_body-Ingested :
      (s : State W) (read : Result Bytes)
      → r.body ≡ read
      → sheds shedder ≡ false
      → is_empty (event_id_of r) ≡ false
      → Ingested s (publish_body env uuid cfg tenant_id (event_id_of r) read s)
  unfolding publish_body after_publish publish ◌>>=◌ commands requests
  publish_body-Ingested s (ok body) f open? named =
      elim (Result-cases (env.xadd (append_of uuid cfg tenant_id r body) s.world).0) [
        | inl (id, x) ↦ rw x (queued body id open? named f x refl refl (omega arith) refl)
        | inr (e, x) ↦ rw x (failed body e open? named f x refl refl (omega arith))
      ]
  publish_body-Ingested s (err e) f open? named = unreadable e open? named f refl refl

  -- A request by an authenticated tenant ends in one of five ways: refused with 429 while the
  -- monitor sheds, refused with 400 without an event id or a readable body, answered with 500 if
  -- the append fails and with 202 if it succeeds. Only the last two send a command, which is that
  -- append, and all but the unreadable request are counted once.
  pub ingest_webhook-Ingested :
      (s : State W) → Ingested s (ingest_webhook env uuid cfg shedder (some tenant_id) r s)
  unfolding ingest_webhook shed no_event_id ◌>>=◌ commands requests
  ingest_webhook-Ingested s = elim (Bool-cases (sheds shedder)) [
    | inl on ↦ rw on (shedding on refl refl (omega arith))
    | inr off ↦ elim (Bool-cases (is_empty (event_id_of r))) [
      | inl unnamed? ↦ rw (off, unnamed?) (unnamed off unnamed? refl refl (omega arith))
      | inr named ↦ rw (off, named) (publish_body-Ingested s r.body refl off named)
    ]
  ]
