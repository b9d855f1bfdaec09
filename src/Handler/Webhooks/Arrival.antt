-- ===== src/Handler/Webhooks/Arrival.antt =====
-- The way of a webhook through the queue: accepted by the handler, processed by the worker.
use easyhooks.Prelude.{
  ℕ, suc, pos_part, Bytes, codes, lookup, bytes_eq, true, Option, some, List, [], ◌∷◌, ◌≡◌, refl,
  ap, ◌++◌, inl, inr, ◌∙◌,
}
use easyhooks.Runtime.Errors.{Result, ok}
use easyhooks.Runtime.Events.{
  commands, Command, xadd, set_nx, XaddArgs, Xmessage, raw, counted, sent, redis_operations_total,
  webhook_processing_duration,
}
use easyhooks.Runtime.Env.{Env}
use easyhooks.Runtime.Exec.{State, Exec, ◌>>=◌}
use easyhooks.Config.{Config}
use easyhooks.Streams.Monitor.{Monitor}
use easyhooks.Service.Envelope.{WebhookEnvelope, extract_envelope}
use easyhooks.Service.Envelope.Fields.{Received}
use easyhooks.Service.Streams.{
  UuidLib, tenant_stream_key, payload_of, history_events, StreamEvent, publish_tenant_event,
}
use easyhooks.Service.Tail.{tail, start_tail}
use easyhooks.Service.Tail.Order.{arrivals, stream_events, message_events, tail-arrivals}
use easyhooks.Runtime.Events.{Xstream}
use easyhooks.Service.Processor.{
  lock_key, acquire_idempotency_lock, attempts, after_lock, after_handler, process_envelope,
  process_message, redis_streams_handler,
}
use easyhooks.Http.{Request}
use easyhooks.Handler.Webhooks.{event_id_of, ingest_webhook}
use easyhooks.Handler.Webhooks.Delivery.{status_of, ingest_webhook-extract}

-- The entry of a tenant's stream.
abbrev pub tenant_append : UuidLib → Config → Bytes → Bytes → XaddArgs
tenant_append uuid cfg tenant_id body = record {
  stream = cfg.tenant_events_stream_prefix ++ uuid.to_string tenant_id;
  max_len = cfg.stream_max_len;
  approx = true;
  values = (codes "payload", raw body) ∷ [];
}

-- The event that an entry with this body is to the subscribers.
abbrev pub event_of : Xmessage → Bytes → StreamEvent
event_of delivered body = record { id = delivered.id; payload = body }

-- The reply to a read of the tenant's stream that has the one entry.
abbrev pub reply_of : Bytes → Xmessage → List (Result (List Xstream))
reply_of name delivered = ok (record { name = name; messages = delivered ∷ [] } ∷ []) ∷ []

-- A tail sends, and a history has, the payload of the entry, bytes or a string.
sent_on :
    (uuid : UuidLib) (cfg : Config) (tenant_id body name start_id : Bytes) (delivered : Xmessage)
    → Received (tenant_append uuid cfg tenant_id body).values delivered.values
    → ((tail (reply_of name delivered) (start_tail start_id 1)).sent ≡ event_of delivered body ∷ [])
      × (history_events (delivered ∷ []) ≡ event_of delivered body ∷ [])
unfolding payload_of arrivals stream_events message_events history_events lookup bytes_eq
sent_on uuid cfg tenant_id body name start_id delivered (inl e) =
    (tail-arrivals (reply_of name delivered) start_id 1 ∙ rw e refl, rw e refl)
sent_on uuid cfg tenant_id body name start_id delivered (inr e) =
    (tail-arrivals (reply_of name delivered) start_id 1 ∙ rw e refl, rw e refl)

module _ {W : Type 0} (env : Env W) (uuid : UuidLib) (cfg : Config) where
  abbrev pub process : Xmessage → Exec W Unit
  process = process_message env cfg (redis_streams_handler env uuid cfg)

  -- The worker's commands for an entry whose lock is free and whose event the tenant's stream takes
  -- at once.
  process_message-first :
      (msg : Xmessage) (envelope : WebhookEnvelope) (tenant_id id : Bytes) (left : ℕ) (s : State W)
      (locked published : W)
      → extract_envelope msg ≡ ok envelope
      → uuid.parse envelope.tenant_id ≡ ok tenant_id
      → pos_part cfg.worker_max_retries ≡ suc left
      → env.set_nx (lock_key envelope.event_id) (codes "1") cfg.idempotency_ttl s.world
        ≡ (ok true, locked)
      → env.xadd (tenant_append uuid cfg tenant_id envelope.payload) locked ≡ (ok id, published)
      → process msg s ≡ (
        ok tt,
        record {
          world = published;
          events =
              counted (webhook_processing_duration envelope.tenant_id)
              ∷ sent (xadd (tenant_append uuid cfg tenant_id envelope.payload))
              ∷ counted (redis_operations_total (codes "idempotency_check") (codes "success"))
              ∷ sent (set_nx (lock_key envelope.event_id) (codes "1") cfg.idempotency_ttl)
              ∷ s.events;
        },
      )
  unfolding process_message process_envelope acquire_idempotency_lock after_lock attempts
      after_handler redis_streams_handler publish_tenant_event tenant_stream_key ◌>>=◌
  process_message-first msg envelope tenant_id id left s locked published x p n l a =
      rw (x, l, n, p, a) refl

module _ {W : Type 0} (env : Env W) (uuid : UuidLib) (cfg : Config) (shedder : Option Monitor)
    (tenant_id : Bytes) (r : Request) where
  -- A webhook that was answered with 202 reaches its tenant's stream: whenever the worker gets the
  -- entry that was appended for it, with the lock of its event free, at least one attempt allowed
  -- and a Redis that takes the append, the processing succeeds with two commands, the lock and an
  -- append to the stream of the tenant; and the tail and the history of that stream, which get the
  -- appended entry with its payload as bytes or as a string, give the subscribers the body of the
  -- request. The UUID library reads what it writes.
  pub ingest_webhook-process_message :
      (accepted s : State W) (msg : Xmessage) (args : XaddArgs) (rest : List Command) (left : ℕ)
      (id name start_id : Bytes) (locked published : W) (delivered : Xmessage)
      → let answer = ingest_webhook env uuid cfg shedder (some tenant_id) r accepted in
        status_of answer.0 ≡ 202
        → commands answer.1.events ≡ xadd args ∷ rest
        → Received args.values msg.values
        → uuid.parse (uuid.to_string tenant_id) ≡ ok tenant_id
        → pos_part cfg.worker_max_retries ≡ suc left
        → env.set_nx (lock_key (event_id_of r)) (codes "1") cfg.idempotency_ttl s.world
          ≡ (ok true, locked)
        → ((body : Bytes)
            → r.body ≡ ok body
            → env.xadd (tenant_append uuid cfg tenant_id body) locked ≡ (ok id, published))
        → ((body : Bytes)
            → r.body ≡ ok body
            → Received (tenant_append uuid cfg tenant_id body).values delivered.values)
        → (body : Bytes) × (r.body ≡ ok body)
          × ((process env uuid cfg msg s).0 ≡ ok tt)
          × (commands (process env uuid cfg msg s).1.events
              ≡ xadd (tenant_append uuid cfg tenant_id body)
                ∷ set_nx (lock_key (event_id_of r)) (codes "1") cfg.idempotency_ttl
                ∷ commands s.events)
          × ((tail (reply_of name delivered) (start_tail start_id 1)).sent
              ≡ event_of delivered body ∷ [])
          × (history_events (delivered ∷ []) ≡ event_of delivered body ∷ [])
  unfolding commands
  ingest_webhook-process_message accepted s msg args rest left id name start_id locked published
        delivered h appended seen p n l a later =
      let (body, read, envelope) =
        ingest_webhook-extract env uuid cfg shedder tenant_id r accepted msg args rest h appended
          seen in
      let done =
        process_message-first env uuid cfg msg
          (record {
            event_id = event_id_of r;
            tenant_id = uuid.to_string tenant_id;
            payload = body;
          })
          tenant_id id left s locked published envelope p n l (a body read) in
      (
        body,
        read,
        ap (λ (x : Result Unit × State W). x.0) done,
        ap (λ (x : Result Unit × State W). commands x.1.events) done,
        (sent_on uuid cfg tenant_id body name start_id delivered (later body read)).0,
        (sent_on uuid cfg tenant_id body name start_id delivered (later body read)).1,
      )
