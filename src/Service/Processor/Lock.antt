-- ===== src/Service/Processor/Lock.antt =====
-- The idempotency lock of an event, before and after its processing.
use easyhooks.Prelude.{ℤ, Bytes, codes, Bool, true, false, ◌∷◌, ◌≡◌, ◌≢◌, refl, inl, inr}
use easyhooks.Runtime.Errors.{Result, ok, Result-cases}
use easyhooks.Runtime.Events.{
  XaddArgs, Xmessage, counted, sent, set_nx, redis_operations_total, idempotency_duplicates_total,
}
use easyhooks.Runtime.Env.{Env}
use easyhooks.Runtime.Exec.{State, Exec, ◌>>=◌}
use easyhooks.Runtime.Exec.Keeps.{Keeps}
use easyhooks.Config.{Config}
use easyhooks.Service.Envelope.{WebhookEnvelope, extract_envelope}
use easyhooks.Service.Processor.Steps.{Stable, HandlerKeeps, after_lock-Keeps}
use easyhooks.Service.Processor.{
  lock_key, acquire_idempotency_lock, after_lock, process_envelope, process_message,
}

-- What the server promises of SET NX while the keys do not expire, for some notion of a key that
-- is held: whatever it answers, the key is held from then on; a key that is held is not set again;
-- and a key stays held through pauses, appends and further attempts to set keys.
pub record Locks {W : Type 0} (env : Env W) (Held : Bytes → W → Type 0) : Type 0 where
  pub answered :
      (k v : Bytes) (ttl : ℤ) (w : W) (b : Bool)
      → (env.set_nx k v ttl w).0 ≡ ok b
      → Held k (env.set_nx k v ttl w).1
  pub refuses : (k v : Bytes) (ttl : ℤ) (w : W) → Held k w → (env.set_nx k v ttl w).0 ≢ ok true
  pub set_keeps : (k j v : Bytes) (ttl : ℤ) (w : W) → Held k w → Held k (env.set_nx j v ttl w).1
  pub xadd_keeps : (k : Bytes) (args : XaddArgs) (w : W) → Held k w → Held k (env.xadd args w).1
  pub wait_keeps : (k : Bytes) (n : ℤ) (w : W) → Held k w → Held k (env.wait n w).1

-- Nothing but the attempt to take the lock happened: no handler, no append, no pause. The entry
-- counts as done if the server answered, and is an error if it did not.
pub data Skipped {W : Type 0} (envelope : WebhookEnvelope) (ttl : ℤ) (s : State W)
    (after : Result Unit × State W) : Type 0 where
  duplicate :
      after.0 ≡ ok tt
      → after.1.events
        ≡ counted (idempotency_duplicates_total envelope.tenant_id)
          ∷ counted (redis_operations_total (codes "idempotency_check") (codes "success"))
          ∷ sent (set_nx (lock_key envelope.event_id) (codes "1") ttl)
          ∷ s.events
      → Skipped envelope ttl s after
  unanswered :
      after.0 ≢ ok tt
      → after.1.events ≡ sent (set_nx (lock_key envelope.event_id) (codes "1") ttl) ∷ s.events
      → Skipped envelope ttl s after

-- A key that is held, as a predicate of the state.
abbrev pub Holds : {W : Type 0} → (Bytes → W → Type 0) → Bytes → State W → Type 0
Holds Held k s = Held k s.world

pub Holds-Stable :
    {W : Type 0} {env : Env W} {Held : Bytes → W → Type 0}
    → Locks env Held
    → (k : Bytes) → Stable env (Holds Held k)
Holds-Stable locks k = record {
  counts = λ m s h. h;
  appends = λ args s. locks.xadd_keeps k args s.world;
  pauses = λ n s. locks.wait_keeps k n s.world;
  locks = λ j v ttl s. locks.set_keeps k j v ttl s.world;
}

module _ {W : Type 0} {env : Env W} {Held : Bytes → W → Type 0} (locks : Locks env Held)
    (cfg : Config) (handler : WebhookEnvelope → Exec W Unit) where
  abbrev locked : WebhookEnvelope → State W → Result Bool × W
  locked envelope s =
      env.set_nx (lock_key envelope.event_id) (codes "1") cfg.idempotency_ttl s.world

  process_envelope-Holds :
      (envelope : WebhookEnvelope) (s : State W) (b : Bool)
      → (locked envelope s).0 ≡ ok b
      → Keeps (Holds Held (lock_key envelope.event_id)) (handler envelope)
      → Held (lock_key envelope.event_id) (process_envelope env cfg handler envelope s).1.world
  unfolding process_envelope acquire_idempotency_lock ◌>>=◌
  process_envelope-Holds envelope s b answered handles = rw answered (
      (after_lock-Keeps (Holds-Stable locks (lock_key envelope.event_id)) cfg handler envelope
          handles b).at
        _
        (locks.answered (lock_key envelope.event_id) (codes "1") cfg.idempotency_ttl s.world b
          answered))

  process_envelope-Skipped :
      (envelope : WebhookEnvelope) (s : State W)
      → Held (lock_key envelope.event_id) s.world
      → Skipped envelope cfg.idempotency_ttl s (process_envelope env cfg handler envelope s)
  unfolding process_envelope acquire_idempotency_lock after_lock ◌>>=◌
  process_envelope-Skipped envelope s held = elim (Result-cases (locked envelope s).0) [
    | inl (true, e) ↦
        absurd (
          locks.refuses (lock_key envelope.event_id) (codes "1") cfg.idempotency_ttl s.world held e)
    | inl (false, e) ↦ rw e (duplicate refl refl)
    | inr (x, e) ↦ rw e (unanswered (λ h. cc) refl)
  ]

  process_message-extracted :
      (msg : Xmessage) {envelope : WebhookEnvelope} (s : State W)
      → extract_envelope msg ≡ ok envelope
      → process_message env cfg handler msg s ≡ process_envelope env cfg handler envelope s
  unfolding process_message ◌>>=◌
  process_message-extracted msg s e = rw e

  -- Two entries with one event id, processed one after the other by a handler that leaves keys
  -- alone, on a server that keeps its promises about SET NX: if it answers the first entry's
  -- request for the lock, then whatever becomes of the first entry, the second is skipped.
  pub process_twice :
      (first second : Xmessage) (a b : WebhookEnvelope) (s : State W) (answer : Bool)
      → extract_envelope first ≡ ok a
      → extract_envelope second ≡ ok b
      → b.event_id ≡ a.event_id
      → HandlerKeeps (Holds Held (lock_key a.event_id)) handler
      → (env.set_nx (lock_key a.event_id) (codes "1") cfg.idempotency_ttl s.world).0 ≡ ok answer
      → Skipped b cfg.idempotency_ttl
          (process_message env cfg handler first s).1
          (process_message env cfg handler second (process_message env cfg handler first s).1)
  process_twice first second a b s answer ea eb same handles answered =
      rw
        (
          process_message-extracted first s ea,
          process_message-extracted second (process_envelope env cfg handler a s).1 eb,
        )
        (process_envelope-Skipped b (process_envelope env cfg handler a s).1
          (rw same (process_envelope-Holds a s answer answered (handles a))))
