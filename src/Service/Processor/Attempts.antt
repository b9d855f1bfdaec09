-- ===== src/Service/Processor/Attempts.antt =====
-- How the attempts for an event end, told by the worker's metrics and by what they append.
use easyhooks.Prelude.{
  ℕ, zero, suc, ◌+◌, ◌≤◌, ◌<◌, ℤ, Bytes, Option, some, List, [], ◌∷◌, ◌++◌, ◌≡◌, ◌≢◌, refl, inl,
  inr, arith,
}
use easyhooks.Runtime.Errors.{Error, Result, ok, err, Result-cases}
use easyhooks.Runtime.Events.{
  Values, Event, Metric, counted, sent, waited, idempotency_duplicates_total,
  webhook_processing_duration, webhook_retries_total, webhook_dlq_total,
}
use easyhooks.Runtime.Env.{Env}
use easyhooks.Runtime.Exec.{State, Exec, ◌>>=◌}
use easyhooks.Config.{Config}
use easyhooks.Streams.Queue.{event_values, error_values, publish_dlq}
use easyhooks.Streams.Queue.Bounds.{Appends, publish_dlq-Appends}
use easyhooks.Service.Envelope.{WebhookEnvelope}
use easyhooks.Service.Processor.{dispatch_to_dlq, back_off, after_handler, attempts}

-- What the worker's metrics have counted.
pub record Tally : Type 0 where
  pub processed : ℕ
  pub retried : ℕ
  pub dead : ℕ
  pub duplicates : ℕ

unfoldable pub tally_metric : Metric → Tally → Tally
tally_metric (webhook_processing_duration t) n = record n { processed = suc n.processed }
tally_metric (webhook_retries_total t k) n = record n { retried = suc n.retried }
tally_metric (webhook_dlq_total t e) n = record n { dead = suc n.dead }
tally_metric (idempotency_duplicates_total t) n = record n { duplicates = suc n.duplicates }
tally_metric _ n = n

unfoldable pub tally : List Event → Tally
unfolding tally_metric
tally [] = record { processed = 0; retried = 0; dead = 0; duplicates = 0 }
tally (counted m ∷ events) = tally_metric m (tally events)
tally (sent c ∷ events) = tally events
tally (waited n ∷ events) = tally events

-- The numbers of failed attempts, successes, dead letters and duplicates that `after` has beyond
-- `before`.
abbrev pub Grows : List Event → List Event → ℕ → ℕ → ℕ → ℕ → Type 0
Grows before after failures successes dead_letters skipped =
    ((tally after).retried ≡ (tally before).retried + failures)
    × ((tally after).processed ≡ (tally before).processed + successes)
    × ((tally after).dead ≡ (tally before).dead + dead_letters)
    × ((tally after).duplicates ≡ (tally before).duplicates + skipped)

-- The event of an envelope is appended to the stream of failed events, with an error, last of all
-- but the metric.
pub record DeadLetter {W : Type 0} (cfg : Config) (envelope : WebhookEnvelope) (e : Option Error)
    (after : State W) : Type 0 where
  pub before : State W
  pub appended : State W
  pub appends :
      Appends before appended cfg.dlq_stream_key
        (event_values envelope.tenant_id envelope.event_id envelope.payload ++ error_values e)
        cfg.dlq_stream_max_len
  pub counts : after.events ≡ counted (webhook_dlq_total envelope.tenant_id e) ∷ appended.events

-- Behind a failed attempt, the `n`th, its failure is counted.
abbrev pub retried_at :
    {W : Type 0} → (WebhookEnvelope → Exec W Unit) → WebhookEnvelope → ℕ → State W → State W
retried_at handler envelope n s = record (handler envelope s).1 {
  events = counted (webhook_retries_total envelope.tenant_id n) ∷ (handler envelope s).1.events;
}

-- The error of the last attempt: what the handler failed with in the attempt right before the state
-- `before`, or what was known at the start where there is no attempt.
pub data LastError {W : Type 0} (env : Env W) (cfg : Config) (envelope : WebhookEnvelope)
    (handler : WebhookEnvelope → Exec W Unit) (max : ℕ) (last : Option Error) (s : State W)
    (e : Option Error) (before : State W) : Type 0 where
  untried : max ≡ 0 → e ≡ last → before ≡ s → LastError env cfg envelope handler max last s e before
  tried :
      (n : ℕ) (at : State W) (x : Error)
      → (handler envelope at).0 ≡ err x
      → e ≡ some x
      → before ≡ (back_off env cfg n (retried_at handler envelope n at)).1
      → LastError env cfg envelope handler max last s e before

-- How `max` attempts end, with the failures that come first:
-- the handler succeeds before they are used up; all fail, and the event is a dead letter with the
-- last error; or an error ends them, of the context or of the append of the dead letter.
pub data Ends {W : Type 0} (env : Env W) (cfg : Config) (envelope : WebhookEnvelope)
    (handler : WebhookEnvelope → Exec W Unit) (max : ℕ) (last : Option Error) (s : State W)
    (after : Result Unit × State W) : Type 0 where
  delivered :
      (k : ℕ)
      → k < max
      → after.0 ≡ ok tt
      → Grows s.events after.1.events k 1 0 0
      → Ends env cfg envelope handler max last s after
  dead_lettered :
      (e : Option Error)
      → after.0 ≡ ok tt
      → Grows s.events after.1.events max 0 1 0
      → (d : DeadLetter cfg envelope e after.1)
      → LastError env cfg envelope handler max last s e d.before
      → Ends env cfg envelope handler max last s after
  failed :
      (k : ℕ)
      → k ≤ max
      → after.0 ≢ ok tt
      → Grows s.events after.1.events k 0 0 0
      → Ends env cfg envelope handler max last s after

-- A handler that leaves these metrics to the processor.
abbrev pub Quiet : {W : Type 0} → (WebhookEnvelope → Exec W Unit) → Type 0
Quiet {W} handler =
    (envelope : WebhookEnvelope) (s : State W)
    → tally (handler envelope s).1.events ≡ tally s.events

Appends-tally :
    {W : Type 0} {s d : State W} {stream : Bytes} {values : Values} {max_len : ℤ}
    → Appends s d stream values max_len
    → tally d.events ≡ tally s.events
unfolding tally
Appends-tally a = rw a.events

abbrev EqualTallies : List Event → List Event → Type 0
EqualTallies before after = tally after ≡ tally before

pub Grows-none :
    (before after : List Event) → tally after ≡ tally before → Grows before after 0 0 0 0
Grows-none before after e = rw e (omega arith)

module _ {W : Type 0} (env : Env W) (cfg : Config) (envelope : WebhookEnvelope) where
  abbrev dead_letter : Option Error → State W → Result Bytes × State W
  dead_letter last =
      publish_dlq env cfg.dlq_stream_key envelope.tenant_id envelope.event_id envelope.payload last
        cfg.dlq_stream_max_len

  dead_letter-tally :
      (last : Option Error) (s : State W) → tally (dead_letter last s).1.events ≡ tally s.events
  dead_letter-tally last s = Appends-tally (
      publish_dlq-Appends env s cfg.dlq_stream_key envelope.tenant_id envelope.event_id
        envelope.payload cfg.dlq_stream_max_len last)

  Grows-dead :
      (last : Option Error) (s : State W)
      → Grows s.events
          (counted (webhook_dlq_total envelope.tenant_id last) ∷ (dead_letter last s).1.events)
          0
          0
          1
          0
  unfolding tally
  Grows-dead last s = ground (arith, dead_letter-tally last s)

  dispatch-Ends :
      (handler : WebhookEnvelope → Exec W Unit) (last : Option Error) (s : State W)
      → Ends env cfg envelope handler 0 last s (dispatch_to_dlq env cfg envelope last s)
  unfolding dispatch_to_dlq ◌>>=◌
  dispatch-Ends handler last s = elim (Result-cases (dead_letter last s).0) [
    | inl (id, e) ↦ rw e (
        dead_lettered last refl (Grows-dead last s)
          (record {
            before = s;
            appended = (dead_letter last s).1;
            appends =
                publish_dlq-Appends env s cfg.dlq_stream_key envelope.tenant_id envelope.event_id
                  envelope.payload cfg.dlq_stream_max_len last;
            counts = refl;
          })
          (untried refl refl refl))
    | inr (x, e) ↦
        rw e (failed 0 (omega arith) (λ h. cc) (Grows-none _ _ (dead_letter-tally last s)))
  ]

  -- A pause counts nothing.
  back_off-tally : (n : ℕ) (s : State W) → tally (back_off env cfg n s).1.events ≡ tally s.events
  unfolding back_off tally ◌>>=◌
  back_off-tally n s = ground arith

  -- One more attempt, which failed with `x`, ahead of the others.
  LastError-suc :
      (handler : WebhookEnvelope → Exec W Unit) (left n : ℕ) (x : Error) (last e : Option Error)
      (s before : State W)
      → (handler envelope s).0 ≡ err x
      → LastError env cfg envelope handler left
          (some x)
          (back_off env cfg n (retried_at handler envelope n s)).1
          e
          before
      → LastError env cfg envelope handler (suc left) last s e before
  LastError-suc handler left n x last e s before f (untried z same b) = tried n s x f same b
  LastError-suc handler left n x last e s before f (tried k at y g same b) = tried k at y g same b

  -- One more failure ahead of what ends the other attempts.
  Ends-suc :
      (handler : WebhookEnvelope → Exec W Unit) (left n : ℕ) (x : Error) (last : Option Error)
      (s : State W) (after : Result Unit × State W)
      → (handler envelope s).0 ≡ err x
      → let m = (back_off env cfg n (retried_at handler envelope n s)).1 in
        Grows s.events m.events 1 0 0 0
        → Ends env cfg envelope handler left (some x) m after
        → Ends env cfg envelope handler (suc left) last s after
  Ends-suc handler left n x last s after f g (delivered k lt done g') =
      delivered (suc k) (omega arith) done (omega arith)
  Ends-suc handler left n x last s after f g (dead_lettered e done g' d of_last) =
      dead_lettered e done (omega arith) d
        (LastError-suc handler left n x last e s d.before f of_last)
  Ends-suc handler left n x last s after f g (failed k le bad g') =
      failed (suc k) (omega arith) bad (omega arith)

  module _ (handler : WebhookEnvelope → Exec W Unit) (quiet : Quiet handler) where
    abbrev handled : State W → Result Unit × State W
    handled = handler envelope

    Grows-success :
        (s : State W)
        → Grows s.events
            (counted (webhook_processing_duration envelope.tenant_id) ∷ (handled s).1.events)
            0
            1
            0
            0
    unfolding tally
    Grows-success s = ground (arith, quiet envelope s)

    Grows-failure :
        (n : ℕ) (s : State W)
        → Grows s.events (back_off env cfg n (retried_at handler envelope n s)).1.events 1 0 0 0
    Grows-failure n s =
        rw (back_off-tally n (retried_at handler envelope n s))
          (unfold tally in ground (arith, quiet envelope s))

    pub attempts-Ends :
        (left n : ℕ) (last : Option Error) (s : State W)
        → Ends env cfg envelope handler left last s
            (attempts env cfg handler envelope left n last s)
    unfolding attempts after_handler ◌>>=◌
    attempts-Ends zero n last s = dispatch-Ends handler last s
    attempts-Ends (suc left) n last s = elim (Result-cases (handled s).0) [
      | inl (u, e) ↦ rw e (delivered 0 (omega arith) refl (Grows-success s))
      | inr (x, e) ↦ elim (Result-cases (back_off env cfg n (retried_at handler envelope n s)).0) [
        | inl (u, f) ↦
            rw (e, f)
              (Ends-suc handler left n x last s _ e (Grows-failure n s) (
                attempts-Ends left (suc n) (some x)
                  (back_off env cfg n (retried_at handler envelope n s)).1))
        | inr (y, f) ↦ rw (e, f) (failed 1 (omega arith) (λ h. cc) (Grows-failure n s))
      ]
    ]
