-- ===== src/Service/Processor/Outcome.antt =====
-- How the processing of an entry ends.
use easyhooks.Prelude.{
  ℕ, ◌+◌, pos_part, codes, Bool, true, false, Option, none, List, ◌≡◌, ◌≢◌, refl, ◌⊎◌, inl, inr,
  arith,
}
use easyhooks.Runtime.Errors.{Error, Result, ok, Result-cases}
use easyhooks.Runtime.Events.{Xmessage, Event}
use easyhooks.Runtime.Env.{Env}
use easyhooks.Runtime.Exec.{State, Exec, ◌>>=◌}
use easyhooks.Config.{Config}
use easyhooks.Service.Envelope.{WebhookEnvelope, extract_envelope}
use easyhooks.Service.Streams.{UuidLib, publish_tenant_event}
use easyhooks.Service.Processor.{
  lock_key, acquire_idempotency_lock, after_lock, process_envelope, process_message,
  redis_streams_handler,
}
use easyhooks.Service.Processor.Attempts.{
  tally, Grows, Grows-none, Quiet, Ends, delivered, dead_lettered, failed, attempts-Ends,
}

-- How the processing of an entry ends: in an error before any attempt, as a duplicate, or as the
-- attempts for its envelope end.
pub data Finishes {W : Type 0} (env : Env W) (cfg : Config)
    (handler : WebhookEnvelope → Exec W Unit) (msg : Xmessage) (s : State W)
    (after : Result Unit × State W) : Type 0 where
  rejected :
      after.0 ≢ ok tt → Grows s.events after.1.events 0 0 0 0 → Finishes env cfg handler msg s after
  duplicate :
      after.0 ≡ ok tt → Grows s.events after.1.events 0 0 0 1 → Finishes env cfg handler msg s after
  attempted :
      (envelope : WebhookEnvelope) (locked : State W)
      → extract_envelope msg ≡ ok envelope
      → Grows s.events locked.events 0 0 0 0
      → Ends env cfg envelope handler (pos_part cfg.worker_max_retries) none locked after
      → Finishes env cfg handler msg s after

module _ {W : Type 0} (env : Env W) (cfg : Config) (handler : WebhookEnvelope → Exec W Unit)
    (quiet : Quiet handler) where
  abbrev lock_reply : WebhookEnvelope → State W → Result Bool × W
  lock_reply envelope s =
      env.set_nx (lock_key envelope.event_id) (codes "1") cfg.idempotency_ttl s.world

  after_lock-Finishes :
      (msg : Xmessage) (envelope : WebhookEnvelope) (s locked : State W) (acquired : Bool)
      → extract_envelope msg ≡ ok envelope
      → tally locked.events ≡ tally s.events
      → Finishes env cfg handler msg s (after_lock env cfg handler envelope acquired locked)
  unfolding after_lock
  after_lock-Finishes msg envelope s locked true e g =
      attempted envelope locked e (Grows-none s.events locked.events g) (
        attempts-Ends env cfg envelope handler quiet (pos_part cfg.worker_max_retries) 1 none
          locked)
  after_lock-Finishes msg envelope s locked false e g =
      unfold ◌>>=◌ tally in (duplicate refl (ground (arith, g)))

  process_envelope-Finishes :
      (msg : Xmessage) (envelope : WebhookEnvelope) (s : State W)
      → extract_envelope msg ≡ ok envelope
      → Finishes env cfg handler msg s (process_envelope env cfg handler envelope s)
  unfolding process_envelope acquire_idempotency_lock tally ◌>>=◌
  process_envelope-Finishes msg envelope s x = elim (Result-cases (lock_reply envelope s).0) [
    | inl (b, e) ↦ rw e (after_lock-Finishes msg envelope s _ b x refl)
    | inr (y, e) ↦ rw e (rejected (λ h. cc) (omega arith))
  ]

  -- With a handler that leaves the worker's metrics alone, an entry either is rejected with an
  -- error and no attempt, or is counted as a duplicate, or is attempted at most as often as the
  -- setting says: until the handler succeeds, until all attempts have failed and the event is
  -- appended to the stream of failed events with the error of the last attempt, or until an error cuts that short.
  pub process_message-Finishes :
      (msg : Xmessage) (s : State W)
      → Finishes env cfg handler msg s (process_message env cfg handler msg s)
  unfolding process_message ◌>>=◌
  process_message-Finishes msg s = elim (Result-cases (extract_envelope msg)) [
    | inl (envelope, e) ↦ rw e (process_envelope-Finishes msg envelope s e)
    | inr (x, e) ↦ rw e (rejected (λ h. cc) (omega arith))
  ]

-- The events that the metrics count as finished.
abbrev pub finished : List Event → ℕ
finished events = (tally events).processed + (tally events).dead + (tally events).duplicates

Ends-finished :
    {W : Type 0} {env : Env W} {cfg : Config} {handler : WebhookEnvelope → Exec W Unit}
    {envelope : WebhookEnvelope} {max : ℕ} {last : Option Error} {s : State W}
    {after : Result Unit × State W}
    → Ends env cfg envelope handler max last s after
    → ((after.0 ≡ ok tt) × (finished after.1.events ≡ finished s.events + 1))
      ⊎ ((after.0 ≢ ok tt) × (finished after.1.events ≡ finished s.events))
Ends-finished (delivered k lt done g) = inl (done, omega arith)
Ends-finished (dead_lettered e done g d of_last) = inl (done, omega arith)
Ends-finished (failed k le bad g) = inr (bad, omega arith)

Finishes-finished :
    {W : Type 0} {env : Env W} {cfg : Config} {handler : WebhookEnvelope → Exec W Unit}
    {msg : Xmessage} {s : State W} {after : Result Unit × State W}
    → Finishes env cfg handler msg s after
    → ((after.0 ≡ ok tt) × (finished after.1.events ≡ finished s.events + 1))
      ⊎ ((after.0 ≢ ok tt) × (finished after.1.events ≡ finished s.events))
Finishes-finished (rejected bad g) = inr (bad, omega arith)
Finishes-finished (duplicate done g) = inl (done, omega arith)
Finishes-finished (attempted envelope locked e g ends) = elim (Ends-finished ends) [
  | inl (done, n) ↦ inl (done, omega arith)
  | inr (bad, n) ↦ inr (bad, omega arith)
]

module _ {W : Type 0} (env : Env W) (uuid : UuidLib) (cfg : Config) where
  pub redis_streams_handler-Quiet : Quiet (redis_streams_handler env uuid cfg)
  unfolding redis_streams_handler publish_tenant_event tally ◌>>=◌
  redis_streams_handler-Quiet envelope s = ground arith

  -- The worker counts each entry once if it reports success, as processed, dead or a duplicate, and
  -- not at all if it reports an error.
  pub process_message-finished :
      (msg : Xmessage) (s : State W)
      → let after = process_message env cfg (redis_streams_handler env uuid cfg) msg s in
        ((after.0 ≡ ok tt) × (finished after.1.events ≡ finished s.events + 1))
        ⊎ ((after.0 ≢ ok tt) × (finished after.1.events ≡ finished s.events))
  process_message-finished msg s = Finishes-finished (
      process_message-Finishes env cfg (redis_streams_handler env uuid cfg)
        redis_streams_handler-Quiet msg s)
