-- ===== src/Service/Processor/Steps.antt =====
-- What the processing of an entry keeps: a predicate of the state that counting, appending, pausing
-- and asking for locks leave alone.
use easyhooks.Prelude.{
  ℕ, zero, suc, ℤ, pos, pos_part, ltb_ℤ, Bytes, Bool, true, false, Option, none, some, ◌∷◌,
}
use easyhooks.Runtime.Errors.{Error, Result, ok, err}
use easyhooks.Runtime.Events.{Metric, XaddArgs, Xmessage, counted, sent, waited, xadd, set_nx}
use easyhooks.Runtime.Env.{Env}
use easyhooks.Runtime.Exec.{State, Exec}
use easyhooks.Runtime.Exec.Keeps.{
  Keeps, Keeps-pure, Keeps-fail, Keeps-lift, Keeps-attempt, Keeps-wrap, Keeps-if, Keeps-command,
  Keeps-bind, Keeps-count, Keeps-pause,
}
use easyhooks.Config.{Config}
use easyhooks.Streams.Queue.{publish_dlq}
use easyhooks.Service.Envelope.{WebhookEnvelope}
use easyhooks.Service.Streams.{UuidLib, publish_tenant_event}
use easyhooks.Service.Processor.{
  acquire_idempotency_lock, dispatch_to_dlq, back_off, interrupted, after_handler, attempts,
  after_lock, process_envelope, process_message, redis_streams_handler,
}

pub record Stable {W : Type 0} (env : Env W) (P : State W → Type 0) : Type 0 where
  pub counts : (m : Metric) (s : State W) → P s → P (record s { events = counted m ∷ s.events })
  pub appends :
      (args : XaddArgs) (s : State W)
      → P s
      → P (record { world = (env.xadd args s.world).1; events = sent (xadd args) ∷ s.events })
  pub pauses :
      (n : ℤ) (s : State W)
      → P s
      → P (record { world = (env.wait n s.world).1; events = waited n ∷ s.events })
  pub locks :
      (k v : Bytes) (ttl : ℤ) (s : State W)
      → P s
      → P (record {
        world = (env.set_nx k v ttl s.world).1;
        events = sent (set_nx k v ttl) ∷ s.events;
      })

-- A handler that keeps the predicate, on each envelope.
abbrev pub HandlerKeeps :
    {W : Type 0} → (State W → Type 0) → (WebhookEnvelope → Exec W Unit) → Type 0
HandlerKeeps P handler = (envelope : WebhookEnvelope) → Keeps P (handler envelope)

module _ {W : Type 0} {env : Env W} {P : State W → Type 0} (stable : Stable env P)
    (cfg : Config) where
  dispatch-Keeps :
      (envelope : WebhookEnvelope) (e : Option Error) → Keeps P (dispatch_to_dlq env cfg envelope e)
  unfolding dispatch_to_dlq publish_dlq
  dispatch-Keeps envelope e =
      Keeps-bind (Keeps-wrap _ (Keeps-wrap _ (Keeps-command _ _ (stable.appends _))))
        (λ id. Keeps-count _ (stable.counts _))

  interrupted-Keeps : (o : Option Error) → Keeps P (interrupted o)
  interrupted-Keeps none = Keeps-pure tt
  interrupted-Keeps (some e) = Keeps-fail e

  back_off-Keeps : (n : ℕ) → Keeps P (back_off env cfg n)
  unfolding back_off
  back_off-Keeps n =
      Keeps-if (ltb_ℤ (pos n) cfg.worker_max_retries)
        (λ _. Keeps-bind (Keeps-pause env _ (stable.pauses _)) interrupted-Keeps)
        (λ _. Keeps-pure tt)

  lock-Keeps : (event_id : Bytes) → Keeps P (acquire_idempotency_lock env cfg event_id)
  unfolding acquire_idempotency_lock
  lock-Keeps event_id =
      Keeps-bind (Keeps-wrap _ (Keeps-command _ _ (stable.locks _ _ _)))
        (λ b. Keeps-bind (Keeps-count _ (stable.counts _)) (λ _. Keeps-pure b))

  module _ (handler : WebhookEnvelope → Exec W Unit) (envelope : WebhookEnvelope)
      (handles : Keeps P (handler envelope)) where
    after_handler-Keeps :
        (n : ℕ) {rest : Option Error → Exec W Unit} (r : Result Unit)
        → ((e : Option Error) → Keeps P (rest e))
        → Keeps P (after_handler env cfg envelope n rest r)
    unfolding after_handler
    after_handler-Keeps n (ok u) keeps = Keeps-count _ (stable.counts _)
    after_handler-Keeps n (err e) keeps =
        Keeps-bind (Keeps-count _ (stable.counts _))
          (λ _. Keeps-bind (back_off-Keeps n) (λ _. keeps (some e)))

    attempts-Keeps :
        (left n : ℕ) (last_err : Option Error)
        → Keeps P (attempts env cfg handler envelope left n last_err)
    unfolding attempts
    attempts-Keeps zero n last_err = dispatch-Keeps envelope last_err
    attempts-Keeps (suc left) n last_err =
        Keeps-bind (Keeps-attempt handles)
          (λ r. after_handler-Keeps n r (λ e. attempts-Keeps left (suc n) e))

    pub after_lock-Keeps :
        (acquired : Bool) → Keeps P (after_lock env cfg handler envelope acquired)
    unfolding after_lock
    after_lock-Keeps true = attempts-Keeps (pos_part cfg.worker_max_retries) 1 none
    after_lock-Keeps false = Keeps-count _ (stable.counts _)

  pub process_message-Keeps :
      (handler : WebhookEnvelope → Exec W Unit) (msg : Xmessage)
      → HandlerKeeps P handler
      → Keeps P (process_message env cfg handler msg)
  unfolding process_message process_envelope
  process_message-Keeps handler msg handles = Keeps-bind (Keeps-wrap _ (Keeps-lift _)) (λ envelope.
      Keeps-bind (lock-Keeps envelope.event_id)
        (after_lock-Keeps handler envelope (handles envelope)))

  -- The worker's handler.
  pub redis_streams_handler-Keeps :
      (uuid : UuidLib) → HandlerKeeps P (redis_streams_handler env uuid cfg)
  unfolding redis_streams_handler publish_tenant_event
  redis_streams_handler-Keeps uuid envelope = Keeps-bind (Keeps-wrap _ (Keeps-lift _)) (λ tenant_id.
      Keeps-bind (Keeps-wrap _ (Keeps-command _ _ (stable.appends _))) (λ id. Keeps-pure tt))
