-- ===== src/Service/Processor.antt =====
-- go-api/internal/service/processor.go: one entry of the ingestion stream, from the idempotency
-- lock to the tenant's stream or the stream of failed events. Tracing, logs and observed times are
-- left out.
pub mod Steps
pub mod Lock
pub mod Attempts
pub mod Outcome
pub mod Backoff
mod Tests
use easyhooks.Prelude.{
  ℕ, zero, suc, ◌+◌, ◌-◌, ◌^◌, ℤ, pos, ◌*ℤ◌, wrap64, pos_part, ltb_ℤ, Bytes, codes, lookup, Bool,
  true, false, Option, none, some, List, [], ◌∷◌, ◌++◌, if◌then◌else◌,
}
use easyhooks.Runtime.Errors.{Error, message, wrapped, Result, ok, err}
use easyhooks.Runtime.Events.{
  Value, text, raw, other, Values, Xmessage, set_nx, webhook_processing_duration,
  webhook_retries_total, webhook_dlq_total, idempotency_duplicates_total, redis_operations_total,
}
use easyhooks.Runtime.Env.{Env}
use easyhooks.Runtime.Exec.{
  State, Exec, pure, fail, attempt, wrap, lift, command, count, pause, ◌>>=◌, ◌>>◌,
}
use easyhooks.Config.{Config}
use easyhooks.Streams.Queue.{field_tenant_id, field_event_id, field_payload, publish_dlq}
use easyhooks.Service.Envelope.{WebhookEnvelope, extract_envelope}
use easyhooks.Service.Streams.{UuidLib, publish_tenant_event}

abbrev pub lock_key : Bytes → Bytes
lock_key event_id = codes "event_lock:" ++ event_id

-- `time.Duration(ms) * time.Millisecond`, where `ms` is the float base * 2^(attempt - 1): exact for
-- a base below 2^53. The conversion of a float out of the range of int64 is the platform's.
unfoldable pub backoff_duration : (ℤ → ℤ) → Config → ℕ → ℤ
backoff_duration convert cfg attempt =
    wrap64 (convert (cfg.worker_backoff_base_ms *ℤ pos (2 ^ (attempt - 1))) *ℤ pos 1_000_000)

-- The end of the context during a pause ends the processing.
abbrev pub interrupted : {W : Type 0} → Option Error → Exec W Unit
interrupted none = pure tt
interrupted (some e) = fail e

module _ {W : Type 0} (env : Env W) (cfg : Config) where
  unfoldable pub acquire_idempotency_lock : Bytes → Exec W Bool
  acquire_idempotency_lock event_id = do
    acquired ← wrap (codes "SET NX idempotency key") (
        command (set_nx (lock_key event_id) (codes "1") cfg.idempotency_ttl)
          (env.set_nx (lock_key event_id) (codes "1") cfg.idempotency_ttl))
    count (redis_operations_total (codes "idempotency_check") (codes "success"))
    pure acquired

  unfoldable pub dispatch_to_dlq : WebhookEnvelope → Option Error → Exec W Unit
  dispatch_to_dlq envelope orig_err = do
    wrap (codes "publish to DLQ stream") (
        publish_dlq env cfg.dlq_stream_key envelope.tenant_id envelope.event_id envelope.payload
          orig_err cfg.dlq_stream_max_len)
    count (webhook_dlq_total envelope.tenant_id orig_err)

  -- `select` on the end of the context and the backoff, before the next attempt.
  unfoldable pub back_off : ℕ → Exec W Unit
  unfolding backoff_duration
  back_off attempt =
      if ltb_ℤ (pos attempt) cfg.worker_max_retries
      then (pause env (backoff_duration env.float_to_int64 cfg attempt) >>= interrupted)
      else pure tt

  -- What follows a call of the handler; `rest` is the next round of the loop.
  unfoldable pub after_handler :
      WebhookEnvelope → ℕ → (Option Error → Exec W Unit) → Result Unit → Exec W Unit
  after_handler envelope n rest (ok u) = count (webhook_processing_duration envelope.tenant_id)
  after_handler envelope n rest (err e) = do
    count (webhook_retries_total envelope.tenant_id n)
    back_off n
    rest (some e)

  module _ (handler : WebhookEnvelope → Exec W Unit) (envelope : WebhookEnvelope) where
    -- The loop of `ProcessMessage`, by the rounds left, and the dispatch that follows it.
    unfoldable pub attempts : ℕ → ℕ → Option Error → Exec W Unit
    attempts zero n last_err = dispatch_to_dlq envelope last_err
    attempts (suc left) n last_err =
        attempt (handler envelope) >>= after_handler envelope n (attempts left (suc n))

    -- A duplicate is counted, and that is all.
    unfoldable pub after_lock : Bool → Exec W Unit
    after_lock true = attempts (pos_part cfg.worker_max_retries) 1 none
    after_lock false = count (idempotency_duplicates_total envelope.tenant_id)

    unfoldable pub process_envelope : Exec W Unit
    process_envelope = acquire_idempotency_lock envelope.event_id >>= after_lock

  unfoldable pub process_message : (WebhookEnvelope → Exec W Unit) → Xmessage → Exec W Unit
  process_message handler msg =
      wrap (codes "extract envelope") (lift (extract_envelope msg)) >>= process_envelope handler

-- The handler of the worker: the payload goes to the tenant's stream.
module _ {W : Type 0} (env : Env W) (uuid : UuidLib) (cfg : Config) where
  unfoldable pub redis_streams_handler : WebhookEnvelope → Exec W Unit
  unfolding publish_tenant_event
  redis_streams_handler envelope = do
    tenant_id ← wrap (codes "parse tenant_id") (lift (uuid.parse envelope.tenant_id))
    publish_tenant_event env uuid cfg tenant_id envelope.payload
    pure tt
