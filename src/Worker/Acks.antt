-- ===== src/Worker/Acks.antt =====
-- Which entries the worker acknowledges.
use mathlib.Core.List.{append_assoc, append-nil}
use easyhooks.Prelude.{
  Bytes, List, [], ◌∷◌, ◌++◌, map, ◌≡◌, refl, sym, ap, ◌∙◌, inl, inr, bytes_eq, bytes_eq_refl, ◌&&◌,
  if◌then◌else◌,
}
use easyhooks.Runtime.Errors.{Result-cases}
use easyhooks.Runtime.Events.{
  Event, counted, sent, waited, Command, xack, Xmessage, stream_consume_total,
}
use easyhooks.Runtime.Env.{Env}
use easyhooks.Runtime.Exec.{State, Exec, ◌>>=◌}
use easyhooks.Config.{Config}
use easyhooks.Streams.Queue.{Reader, ack}
use easyhooks.Service.Streams.{UuidLib}
use easyhooks.Service.Processor.{process_message, redis_streams_handler}
use easyhooks.Service.Processor.Steps.{Stable, process_message-Keeps, redis_streams_handler-Keeps}
use easyhooks.Worker.{consume, batch}
use easyhooks.Worker.Rounds.{consume-ok}

-- The ids that a command acknowledges to a group of a stream.
ids_of : Bytes → Bytes → Command → List Bytes
ids_of stream group (xack of_stream of_group ids) =
    if bytes_eq of_stream stream && bytes_eq of_group group then ids else []
ids_of stream group _ = []

-- The ids for which an XACK was sent, to a group of a stream, in the order of the commands.
unfoldable pub acked : Bytes → Bytes → List Event → List Bytes
unfolding ids_of
acked stream group [] = []
acked stream group (sent c ∷ events) = acked stream group events ++ ids_of stream group c
acked stream group (counted m ∷ events) = acked stream group events
acked stream group (waited n ∷ events) = acked stream group events

abbrev AckedAre : {W : Type 0} → Bytes → Bytes → List Bytes → State W → Type 0
AckedAre stream group ids s = acked stream group s.events ≡ ids

AckedAre-Stable :
    {W : Type 0} (env : Env W) (stream group : Bytes) (ids : List Bytes)
    → Stable env (AckedAre stream group ids)
unfolding acked
AckedAre-Stable env stream group ids = record {
  counts = λ m s h. h;
  appends = λ args s h. append-nil _ ∙ h;
  pauses = λ n s h. h;
  locks = λ k v ttl s h. append-nil _ ∙ h;
}

module _ {W : Type 0} (env : Env W) (cfg : Config) (reader : Reader) where
  -- The acknowledgements of the reader's stream and group.
  abbrev acks : List Event → List Bytes
  acks = acked reader.stream reader.group

  own_ack :
      (id : Bytes)
      → ids_of reader.stream reader.group (xack reader.stream reader.group (id ∷ [])) ≡ id ∷ []
  unfolding ids_of
  own_ack id = rw (bytes_eq_refl reader.stream, bytes_eq_refl reader.group) refl

  ack-acked :
      (id : Bytes) (s : State W)
      → acks (ack env reader (id ∷ []) s).1.events ≡ acks s.events ++ id ∷ []
  unfolding ack acked ◌>>=◌
  ack-acked id s = elim (Result-cases (env.xack reader.stream reader.group (id ∷ []) s.world).0) [
    | inl (n, e) ↦ rw e (ap (λ ids. acks s.events ++ ids) (own_ack id))
    | inr (x, e) ↦ rw e (ap (λ ids. acks s.events ++ ids) (own_ack id))
  ]

  module _ (uuid : UuidLib) where
    abbrev process : Xmessage → Exec W Unit
    process = process_message env cfg (redis_streams_handler env uuid cfg)

    process-acked : (m : Xmessage) (s : State W) → acks (process m s).1.events ≡ acks s.events
    process-acked m s =
        let stable = AckedAre-Stable env reader.stream reader.group (acks s.events) in
        (process_message-Keeps stable cfg (redis_streams_handler env uuid cfg) m
            (redis_streams_handler-Keeps stable cfg uuid)).at
          s refl

    consume-acked :
        (m : Xmessage) (s : State W)
        → acks (consume env cfg reader (redis_streams_handler env uuid cfg) m s).1.events
          ≡ acks s.events ++ m.id ∷ []
    unfolding consume acked ◌>>=◌
    consume-acked m s =
        let counted_once = record s {
          events =
              counted (stream_consume_total cfg.event_stream_key cfg.consumer_group) ∷ s.events;
        } in
        ack-acked m.id (process m counted_once).1
        ∙ ap (λ ids. ids ++ m.id ∷ []) (process-acked m counted_once)

    -- With the handler that publishes to the tenants' streams, the worker sends one XACK, of its
    -- stream and group, for every entry of a batch, in order, whatever the processing of the entries
    -- gave, errors included.
    pub batch-acked :
        (ms : List Xmessage) (s : State W)
        → acks (batch env cfg reader (redis_streams_handler env uuid cfg) ms s).1.events
          ≡ acks s.events ++ map (λ m. m.id) ms
    unfolding batch ◌>>=◌
    batch-acked [] s = sym (append-nil _)
    batch-acked (m ∷ ms) s =
        rw (consume-ok env cfg reader (redis_streams_handler env uuid cfg) m s) (
          batch-acked ms (consume env cfg reader (redis_streams_handler env uuid cfg) m s).1
          ∙ ap (λ ids. ids ++ map (λ (n : Xmessage). n.id) ms) (consume-acked m s)
          ∙ append_assoc (acks s.events) (m.id ∷ []) (map (λ (n : Xmessage). n.id) ms))
