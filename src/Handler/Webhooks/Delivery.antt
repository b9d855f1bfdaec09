-- ===== src/Handler/Webhooks/Delivery.antt =====
-- When a webhook is accepted, and what the worker makes of it.
use easyhooks.Prelude.{
  ℕ, Bytes, is_empty, false, Option, none, some, List, ◌∷◌, ◌≡◌, sym, ap, subst, ◌∙◌, ◌↔◌, arith,
}
use easyhooks.Runtime.Errors.{Error, Result, ok, err, ok-injective}
use easyhooks.Runtime.Events.{commands, Command, xadd, XaddArgs, Xmessage, Values}
use easyhooks.Runtime.Env.{Env}
use easyhooks.Runtime.Exec.{State}
use easyhooks.Config.{Config}
use easyhooks.Streams.Monitor.{Monitor}
use easyhooks.Streams.Queue.{event_values}
use easyhooks.Streams.Queue.Bounds.{capped-target}
use easyhooks.Service.Envelope.{extract_envelope}
use easyhooks.Service.Envelope.Fields.{Received, extract-event_values}
use easyhooks.Service.Streams.{UuidLib}
use easyhooks.Http.{Request, Response}
use easyhooks.Handler.Webhooks.{sheds, event_id_of, ingest_webhook}
use easyhooks.Handler.Webhooks.Accepting.{
  append_of, Ingested, shedding, unnamed, unreadable, failed, queued, ingest_webhook-Ingested,
}

abbrev pub status_of : Result Response → ℕ
status_of (ok answer) = answer.status
status_of (err e) = 0

first_args : XaddArgs → List Command → XaddArgs
first_args d (xadd args ∷ cs) = args
first_args d cs = d

first-xadd :
    {a b : XaddArgs} {cs ds : List Command}
    → ◌≡◌ {A = List Command} (xadd a ∷ cs) (xadd b ∷ ds)
    → a ≡ b
unfolding first_args
first-xadd {a} e = ap (first_args a) e

module _ {W : Type 0} (env : Env W) (uuid : UuidLib) (cfg : Config) (shedder : Option Monitor)
    (tenant_id : Bytes) (r : Request) (s : State W) where
  abbrev after : Result Response × State W
  after = ingest_webhook env uuid cfg shedder (some tenant_id) r s

  -- What a webhook needs to be accepted.
  pub record Acceptable : Type 0 where
    pub open? : sheds shedder ≡ false
    pub named : is_empty (event_id_of r) ≡ false
    pub body : Bytes
    pub read : r.body ≡ ok body
    pub entry : Bytes
    pub appended : (env.xadd (append_of uuid cfg tenant_id r body) s.world).0 ≡ ok entry

  -- What an accepted webhook left: one command, which is the append that Redis took last.
  pub record Stored (x : Result Response × State W) : Type 0 where
    pub acceptable : Acceptable
    pub replied :
        env.xadd (append_of uuid cfg tenant_id r acceptable.body) s.world
        ≡ (ok acceptable.entry, x.1.world)
    pub sent_last :
        commands x.1.events
        ≡ xadd (append_of uuid cfg tenant_id r acceptable.body) ∷ commands s.events

  module _ (x : Result Response × State W) where
    -- Any other end than the last contradicts what the webhook needs.
    acceptable-Ingested :
        Ingested env uuid cfg shedder tenant_id r s x → Acceptable → status_of x.0 ≡ 202
    acceptable-Ingested (shedding on e c n) a = absurd (cc (on, a.open?))
    acceptable-Ingested (unnamed off blank e c n) a = absurd (cc (blank, a.named))
    acceptable-Ingested (unreadable y off named f e c) a = absurd (cc (f, a.read))
    acceptable-Ingested (failed body y off named f g e c n) a =
        absurd (refused body y (ok-injective (sym f ∙ a.read)) g a.appended)
      where
        refused :
            (b : Bytes) (y : Error)
            → b ≡ a.body
            → (env.xadd (append_of uuid cfg tenant_id r b) s.world).0 ≡ err y
            → (env.xadd (append_of uuid cfg tenant_id r a.body) s.world).0 ≡ ok a.entry
            → ⊥
        refused b y same g h =
            cc (
              ap (λ (z : Bytes). (env.xadd (append_of uuid cfg tenant_id r z) s.world).0) same,
              g,
              h,
            )
    acceptable-Ingested (queued body id off named f g e c n w) a = ap status_of e

    accepted-Stored : Ingested env uuid cfg shedder tenant_id r s x → status_of x.0 ≡ 202 → Stored x
    accepted-Stored (shedding on e c n) h = absurd (ground (arith, ap status_of e))
    accepted-Stored (unnamed off blank e c n) h = absurd (ground (arith, ap status_of e))
    accepted-Stored (unreadable y off named f e c) h = absurd (ground (arith, ap status_of e))
    accepted-Stored (failed body y off named f g e c n) h = absurd (ground (arith, ap status_of e))
    accepted-Stored (queued body id off named f g e c n w) h = record {
      acceptable = record {
        open? = off;
        named = named;
        body = body;
        read = f;
        entry = id;
        appended = g;
      };
      replied =
          ap (λ (o : Result Bytes). (o, (env.xadd (append_of uuid cfg tenant_id r body) s.world).1))
            g
          ∙ ap (λ (v : W). (ok id, v)) w;
      sent_last = c;
    }

  pub ingest_webhook-Stored : status_of after.0 ≡ 202 → Stored after
  ingest_webhook-Stored =
      accepted-Stored after (ingest_webhook-Ingested env uuid cfg shedder tenant_id r s)

  -- A webhook is answered with 202 exactly if the monitor does not shed, there is an event id, the
  -- body is readable and Redis takes the append.
  pub ingest_webhook-Acceptable : (status_of after.0 ≡ 202) ↔ Acceptable
  ingest_webhook-Acceptable =
      let i = ingest_webhook-Ingested env uuid cfg shedder tenant_id r s in
      (λ h. (accepted-Stored after i h).acceptable, acceptable-Ingested after i)

  -- The entry that an accepted webhook appends, received by the worker with its payload as bytes or
  -- as a string, is extracted as the tenant, the trimmed event id and the body of the request.
  pub ingest_webhook-extract :
      (msg : Xmessage) (args : XaddArgs) (rest : List Command)
      → status_of after.0 ≡ 202
      → commands after.1.events ≡ xadd args ∷ rest
      → Received args.values msg.values
      → (body : Bytes) × (r.body ≡ ok body)
        × (extract_envelope msg
            ≡ ok (record {
              event_id = event_id_of r;
              tenant_id = uuid.to_string tenant_id;
              payload = body;
            }))
  ingest_webhook-extract msg args rest h appended seen =
      let i = ingest_webhook-Ingested env uuid cfg shedder tenant_id r s in
      let stored = accepted-Stored after i h in
      let a = stored.acceptable in
      let same = first-xadd (sym appended ∙ stored.sent_last) in
      let values = event_values (uuid.to_string tenant_id) (event_id_of r) a.body in
      let fields =
        ap (λ (z : XaddArgs). z.values) same
        ∙ (capped-target cfg.event_stream_key values cfg.ingest_stream_max_len).1 in
      (
        a.body,
        a.read,
        extract-event_values msg (uuid.to_string tenant_id) (event_id_of r) a.body none
            (subst (λ (v : Values). Received v msg.values) fields seen),
      )
