-- ===== src/Streams/Queue/Bounds.antt =====
-- The sizes that the queue asks Redis for.
use easyhooks.Prelude.{ℤ, pos, ◌<ℤ◌, Bytes, true, false, Option, ◌∷◌, ◌++◌, ◌≡◌, refl, ◌↔◌, arith}
use easyhooks.Runtime.Errors.{Error}
use easyhooks.Runtime.Events.{Values, XaddArgs, xadd, sent}
use easyhooks.Runtime.Env.{Env}
use easyhooks.Runtime.Exec.{State, ◌>>=◌}
use easyhooks.Streams.Queue.{event_values, error_values, capped, new_reader, publish, publish_dlq}

-- Trimming of a stream by XADD: asked for exactly when a cap above 0 is given, and at that cap.
pub record CappedAt (max_len : ℤ) (args : XaddArgs) : Type 0 where
  pub trims : (args.approx ≡ true) ↔ (pos 0 <ℤ max_len)
  pub at_cap : args.approx ≡ true → args.max_len ≡ max_len
  pub unset : args.approx ≡ false → args.max_len ≡ pos 0

pub capped-CappedAt :
    (stream : Bytes) (values : Values) (max_len : ℤ)
    → CappedAt max_len (capped stream values max_len)
unfolding capped
capped-CappedAt stream values max_len = ground arith

pub capped-target :
    (stream : Bytes) (values : Values) (max_len : ℤ)
    → ((capped stream values max_len).stream ≡ stream)
      × ((capped stream values max_len).values ≡ values)
unfolding capped
capped-target stream values max_len = ground arith

-- One XADD, to a stream, of some values, trimmed at a cap, is all that happens to the events.
pub record Appends {W : Type 0} (s s' : State W) (stream : Bytes) (values : Values) (max_len : ℤ)
    : Type 0 where
  pub args : XaddArgs
  pub events : s'.events ≡ sent (xadd args) ∷ s.events
  pub target : args.stream ≡ stream
  pub fields : args.values ≡ values
  pub cap : CappedAt max_len args

module _ {W : Type 0} (env : Env W) (s : State W) (stream tenant_id event_id payload : Bytes)
    (max_len : ℤ) where
  -- Publishing sends one XADD with the tenant, the event's id and the payload; the stream is
  -- trimmed exactly when the cap is above 0.
  pub publish-Appends :
      Appends s
        (publish env stream tenant_id event_id payload max_len s).1
        stream
        (event_values tenant_id event_id payload)
        max_len
  unfolding publish ◌>>=◌
  publish-Appends =
      let values = event_values tenant_id event_id payload in
      let target = capped-target stream values max_len in
      record {
        args = capped stream values max_len;
        events = refl;
        target = target.0;
        fields = target.1;
        cap = capped-CappedAt stream values max_len;
      }

  -- The same of a failed event, which carries the text of the error too, if there is one.
  pub publish_dlq-Appends :
      (orig_err : Option Error)
      → Appends s
          (publish_dlq env stream tenant_id event_id payload orig_err max_len s).1
          stream
          (event_values tenant_id event_id payload ++ error_values orig_err)
          max_len
  unfolding publish_dlq ◌>>=◌
  publish_dlq-Appends orig_err =
      let values = event_values tenant_id event_id payload ++ error_values orig_err in
      let target = capped-target stream values max_len in
      record {
        args = capped stream values max_len;
        events = refl;
        target = target.0;
        fields = target.1;
        cap = capped-CappedAt stream values max_len;
      }

-- A reader never asks for a batch of 0 or fewer entries.
pub new_reader-count :
    (stream group consumer : Bytes) (block count : ℤ)
    → pos 0 <ℤ (new_reader stream group consumer block count).count
unfolding new_reader
new_reader-count stream group consumer block count = ground arith
