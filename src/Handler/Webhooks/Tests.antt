-- ===== src/Handler/Webhooks/Tests.antt =====
-- A webhook at a server without load, with the theorems applied there.
use easyhooks.Service.Envelope.Fields.{Received}
use easyhooks.Service.Streams.{history_events}
use easyhooks.Service.Tail.{tail, start_tail}
use easyhooks.Runtime.Events.{text}
use easyhooks.Service.Processor.{lock_key}
use easyhooks.Handler.Webhooks.Arrival.{
  tenant_append, process, ingest_webhook-process_message, event_of, reply_of,
}
use easyhooks.Prelude.{pos, Bytes, codes, false, Option, some, [], ◌∷◌, ◌≡◌, inl, refl, inr}
use easyhooks.Runtime.Errors.{Result, ok, ok-injective}
use easyhooks.Runtime.Events.{commands, Xmessage, xadd, set_nx}
use easyhooks.Runtime.Exec.{State, ◌>>=◌}
use easyhooks.Runtime.Fake.{Fake, fake, quiet, start, find_key}
use easyhooks.Config.Example.{example_config}
use easyhooks.Streams.Monitor.{Monitor, should_shed}
use easyhooks.Streams.Queue.{publish}
use easyhooks.Security.Fake.{plain_uuid}
use easyhooks.Http.{Request, Response, header}
use easyhooks.Http.Spaces.{trim_space}
use easyhooks.Handler.Webhooks.{event_id_of, ingest_webhook, publish_body, after_publish}
use easyhooks.Handler.Webhooks.Accepting.{append_of, Ingested, ingest_webhook-Ingested}
use easyhooks.Handler.Webhooks.Delivery.{status_of}

abbrev monitor : Option Monitor
monitor = some (record {
  stream = codes "events:in";
  group = codes "webhook-workers";
  high_water = pos 100;
  low_water = pos 80;
  backlog = pos 99;
  shedding = false;
})

-- The id of the event has spaces around it.
abbrev request : Request
request = record {
  tenant_id = codes "t";
  headers = (codes "X-Event-Id", codes " e1 ") ∷ [];
  method = codes "POST";
  path = codes "/v1/webhooks/t";
  content_length = pos 2;
  body = ok (codes "{}");
}

test_event_id : event_id_of request ≡ codes "e1"
unfolding trim_space header
test_event_id = refl

abbrev after_request : Result Response × State Fake
after_request =
    ingest_webhook fake plain_uuid example_config monitor (some (codes "t")) request (start quiet)

test_status : status_of after_request.0 ≡ 202
unfolding ingest_webhook publish_body after_publish publish ◌>>=◌ trim_space header should_shed fake
test_status = refl

test_commands :
    commands after_request.1.events
    ≡ xadd (append_of plain_uuid example_config (codes "t") request (codes "{}")) ∷ []
unfolding ingest_webhook publish_body after_publish publish ◌>>=◌ trim_space header should_shed fake
    commands
test_commands = refl

abbrev msg : Xmessage
msg = record {
  id = codes "1-0";
  values = (append_of plain_uuid example_config (codes "t") request (codes "{}")).values;
}

ingest_webhook-Ingested_example :
    Ingested fake plain_uuid example_config monitor (codes "t") request (start quiet) after_request
ingest_webhook-Ingested_example =
    ingest_webhook-Ingested fake plain_uuid example_config monitor (codes "t") request (start quiet)

-- The worker's Redis after the lock, and after the append.
abbrev locked : Fake
locked =
    (fake.set_nx (lock_key (event_id_of request)) (codes "1") example_config.idempotency_ttl
      quiet).1

abbrev published : Fake
published = (fake.xadd (tenant_append plain_uuid example_config (codes "t") (codes "{}")) locked).1

takes :
    (body : Bytes)
    → request.body ≡ ok body
    → fake.xadd (tenant_append plain_uuid example_config (codes "t") body) locked
      ≡ (ok (codes "1-0"), published)
takes body read = rw (← ok-injective read) (unfold fake find_key in refl)

-- The entry, as a read of the tenant's stream gives it.
abbrev delivered : Xmessage
delivered = record { id = codes "1-0"; values = (codes "payload", text (codes "{}")) ∷ [] }

arrives :
    (body : Bytes)
    → request.body ≡ ok body
    → Received (tenant_append plain_uuid example_config (codes "t") body).values delivered.values
arrives body read = inr (rw (← ok-injective read) refl)

ingest_webhook-process_message_example :
    (body : Bytes) × (request.body ≡ ok body)
    × ((process fake plain_uuid example_config msg (start quiet)).0 ≡ ok tt)
    × (commands (process fake plain_uuid example_config msg (start quiet)).1.events
        ≡ xadd (tenant_append plain_uuid example_config (codes "t") body)
          ∷ set_nx (lock_key (event_id_of request)) (codes "1") example_config.idempotency_ttl
          ∷ [])
    × ((tail (reply_of (codes "s") delivered) (start_tail (codes "$") 1)).sent
        ≡ event_of delivered body ∷ [])
    × (history_events (delivered ∷ []) ≡ event_of delivered body ∷ [])
unfolding commands
ingest_webhook-process_message_example =
    ingest_webhook-process_message fake plain_uuid example_config monitor (codes "t") request
      (start quiet) (start quiet) msg
      (append_of plain_uuid example_config (codes "t") request (codes "{}")) [] 2 (codes "1-0")
      (codes "s") (codes "$") locked published delivered test_status test_commands (inl refl) refl
      refl (unfold fake find_key in refl) takes arrives
