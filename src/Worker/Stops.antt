-- ===== src/Worker/Stops.antt =====
-- That the worker stops once its context has ended, and what it does while its reads fail.
use easyhooks.Prelude.{
  codes, ℕ, zero, suc, ◌-◌, ◌≤◌, ◌<◌, ℤ, Bytes, true, false, Option, none, some, List, ◌∷◌, ◌++◌,
  ◌≡◌, refl, sym, ap, ◌∙◌, inl, inr, arith, if_rule, Option-cases,
}
use easyhooks.Runtime.Errors.{Error, is_redis_nil, is_context_done, wrapped, Result, ok, err}
use easyhooks.Runtime.Events.{XaddArgs, XreadGroupArgs, Xmessage, Event, sent, xread_group}
use easyhooks.Runtime.Env.{Env}
use easyhooks.Runtime.Exec.{State, Exec, ◌>>=◌, continue}
use easyhooks.Config.{Config}
use easyhooks.Streams.Queue.{Reader, read, read_args, read_result}
use easyhooks.Service.Envelope.{WebhookEnvelope}
use easyhooks.Service.Streams.{UuidLib}
use easyhooks.Service.Processor.{redis_streams_handler}
use easyhooks.Service.Processor.Steps.{Stable, redis_streams_handler-Keeps}
use easyhooks.Worker.{Loop, running, stopped, handle_read, round, rounds, enter, go_on}
use easyhooks.Worker.Rounds.{handle_read-Keeps, round-ok}

-- How many more reads the context lasts at most: a read blocks, so that time passes.
pub record Lasts {W : Type 0} (env : Env W) (left : W → ℕ) : Type 0 where
  pub ends : (w : W) → left w ≡ 0 → (e : Error) × (env.context_err w ≡ some e)
  pub reads : (args : XreadGroupArgs) (w : W) → left (env.xread_group args w).1 ≤ left w - 1
  pub appends : (args : XaddArgs) (w : W) → left (env.xadd args w).1 ≤ left w
  pub pauses : (n : ℤ) (w : W) → left (env.wait n w).1 ≤ left w
  pub locks : (k v : Bytes) (ttl : ℤ) (w : W) → left (env.set_nx k v ttl w).1 ≤ left w
  pub acks :
      (stream group : Bytes) (ids : List Bytes) (w : W)
      → left (env.xack stream group ids w).1 ≤ left w

module _ {W : Type 0} (env : Env W) {left : W → ℕ} (lasts : Lasts env left) (cfg : Config)
    (reader : Reader) (uuid : UuidLib) where
  abbrev handler : WebhookEnvelope → Exec W Unit
  handler = redis_streams_handler env uuid cfg

  within-Stable : (b : ℕ) → Stable env (λ s. left s.world ≤ b)
  within-Stable b = record {
    counts = λ m s h. h;
    appends = λ args s h. omega (arith, lasts.appends args s.world);
    pauses = λ n s h. omega (arith, lasts.pauses n s.world);
    locks = λ k v ttl s h. omega (arith, lasts.locks k v ttl s.world);
  }

  -- A round uses one read of those that are left.
  round-left : (s : State W) → left (round env cfg reader handler s).1.world ≤ left s.world - 1
  unfolding round read ◌>>=◌
  round-left s =
      let reply = env.xread_group (read_args reader) s.world in
      let stable = within-Stable (left s.world - 1) in
      (handle_read-Keeps env cfg reader handler stable (redis_streams_handler-Keeps stable cfg uuid)
          (λ stream group ids s h. omega (arith, lasts.acks stream group ids s.world))
          (read_result reader.stream reply.0)).at
        (record { world = reply.1; events = sent (xread_group (read_args reader)) ∷ s.events })
        (lasts.reads (read_args reader) s.world)

  -- If the context ends after a bounded number of reads, as `Lasts` says, the worker stops: more
  -- rounds than reads that are left end the loop, whatever the reads and the processing give.
  pub rounds-stopped :
      (n : ℕ) (s : State W) → left s.world < n → (rounds env cfg reader handler n s).0 ≡ ok stopped
  unfolding rounds ◌>>=◌
  rounds-stopped zero s h = absurd (omega arith)
  rounds-stopped (suc n) s h = elim (Option-cases (env.context_err s.world)) [
    | inr (e, ended) ↦
        ap
          (λ (o : Option Error).
            (enter o (round env cfg reader handler >>= go_on (rounds env cfg reader handler n))
              s).0)
          ended
    | inl alive ↦
        ap
          (λ (o : Option Error).
            (enter o (round env cfg reader handler >>= go_on (rounds env cfg reader handler n))
              s).0)
          alive
        ∙ ap (λ (r : Result Loop). (continue r (go_on (rounds env cfg reader handler n)) after).0)
            (round-ok env cfg reader handler s).1
        ∙ go_case (round-ok env cfg reader handler s).0 (rounds-stopped n after (fewer alive))
  ]
    where
      after : State W
      after = (round env cfg reader handler s).1

      more_left : (l : ℕ) → (l ≡ 0 → ⊥) → (0 < l)
      more_left zero h = absurd (h refl)
      more_left (suc l) h = omega arith

      still : env.context_err s.world ≡ none → left s.world ≡ 0 → ⊥
      still alive e = no_end (sym (lasts.ends s.world e).1 ∙ alive)
        where
          no_end : {e : Error} → some e ≡ none → ⊥
          no_end h = cc

      fewer : env.context_err s.world ≡ none → left after.world < n
      fewer alive = omega (arith, round-left s, more_left (left s.world) (still alive))

      go_case :
          (l : Loop)
          → (rounds env cfg reader handler n after).0 ≡ ok stopped
          → (go_on (rounds env cfg reader handler n) l after).0 ≡ ok stopped
      go_case running ih = ih
      go_case stopped ih = refl

module _ {W : Type 0} (env : Env W) (cfg : Config) (reader : Reader)
    (handler : WebhookEnvelope → Exec W Unit) where
  -- So many reads, and nothing else, in front of the events.
  abbrev pub reads_only : ℕ → List Event → List Event
  reads_only zero events = events
  reads_only (suc n) events = reads_only n (sent (xread_group (read_args reader)) ∷ events)

  failed_read :
      (e : Error)
      → is_redis_nil e ≡ false
      → is_context_done e ≡ false
      → read_result reader.stream (err e) ≡ err (wrapped (codes "XREADGROUP " ++ reader.stream) e)
  unfolding read_result
  failed_read e a b = ground arith

  failed_handled :
      (text : Bytes) (e : Error) (s : State W)
      → is_context_done e ≡ false
      → handle_read env cfg reader handler (err (wrapped text e)) s ≡ (ok running, s)
  unfolding handle_read is_context_done ◌>>=◌
  failed_handled text e s b =
      if_rule (λ (m : Exec W Loop). m s ≡ (ok running, s)) (is_context_done e)
        (λ t. absurd (never (sym t ∙ b))) (λ _. refl)
    where
      never : true ≡ false → ⊥
      never h = cc

  abbrev after_read : State W → State W
  after_read s = record {
    world = (env.xread_group (read_args reader) s.world).1;
    events = sent (xread_group (read_args reader)) ∷ s.events;
  }

  failed_round :
      (e : Error) (s : State W)
      → (env.xread_group (read_args reader) s.world).0 ≡ err e
      → is_redis_nil e ≡ false
      → is_context_done e ≡ false
      → round env cfg reader handler s ≡ (ok running, after_read s)
  unfolding round read ◌>>=◌
  failed_round e s h a b =
      ap (λ (r : Result (List Xmessage)). handle_read env cfg reader handler r (after_read s))
        (ap (read_result reader.stream) h ∙ failed_read e a b)
      ∙ failed_handled (codes "XREADGROUP " ++ reader.stream) e (after_read s) b

  -- While the context has not ended and every read fails with an error that is neither a timeout
  -- nor the end of a context, each round is one more read: the worker neither stops nor pauses, and
  -- asks Redis for nothing else.
  pub rounds-failing :
      (n : ℕ) (s : State W)
      → ((w : W) → env.context_err w ≡ none)
      → ((w : W)
          → (e : Error) × ((env.xread_group (read_args reader) w).0 ≡ err e)
            × (is_redis_nil e ≡ false)
            × (is_context_done e ≡ false))
      → ((rounds env cfg reader handler n s).0 ≡ ok running)
        × ((rounds env cfg reader handler n s).1.events ≡ reads_only n s.events)
  unfolding rounds ◌>>=◌
  rounds-failing zero s alive fails = (refl, refl)
  rounds-failing (suc n) s alive fails =
      let (e, h, a, b) = fails s.world in
      let rest = go_on (rounds env cfg reader handler n) in
      let once =
        ap (λ (o : Option Error). enter o (round env cfg reader handler >>= rest) s) (alive s.world)
        ∙ ap (λ (x : Result Loop × State W). continue x.0 rest x.1) (failed_round e s h a b) in
      let (result, events) = rounds-failing n (after_read s) alive fails in
      (
        ap (λ (x : Result Loop × State W). x.0) once ∙ result,
        ap (λ (x : Result Loop × State W). x.1.events) once ∙ events,
      )
