-- ===== src/Worker.antt =====
-- go-api/cmd/worker/main.go: the loop of the worker.
pub mod Start
pub mod Acks
pub mod Rounds
pub mod Ledger
pub mod Stops
pub mod Main
pub mod Fake
mod Tests
use easyhooks.Prelude.{
  ℕ, zero, suc, Bytes, Bool, true, false, Option, none, some, List, [], ◌∷◌, if◌then◌else◌,
}
use easyhooks.Runtime.Errors.{Error, is_context_done, Result, ok, err}
use easyhooks.Runtime.Events.{Xmessage, stream_consume_total}
use easyhooks.Runtime.Env.{Env}
use easyhooks.Runtime.Exec.{State, Exec, pure, attempt, count, ◌>>=◌, ◌>>◌}
use easyhooks.Config.{Config}
use easyhooks.Streams.Queue.{Reader, read, ack}
use easyhooks.Service.Envelope.{WebhookEnvelope}
use easyhooks.Service.Processor.{process_message}

-- How a number of rounds of the loop leaves it.
pub data Loop : Type 0 where
  running stopped : Loop

module _ {W : Type 0} where
  abbrev pub go_on : Exec W Loop → Loop → Exec W Loop
  go_on rest running = rest
  go_on rest stopped = pure stopped

  abbrev pub enter : Option Error → Exec W Loop → Exec W Loop
  enter (some e) rest = pure stopped
  enter none rest = rest

module _ {W : Type 0} (env : Env W) (cfg : Config) (reader : Reader)
    (handler : WebhookEnvelope → Exec W Unit) where
  -- One message: an error of the processing, or of the acknowledgement, is logged and passed over.
  unfoldable pub consume : Xmessage → Exec W Unit
  consume m = do
    count (stream_consume_total cfg.event_stream_key cfg.consumer_group)
    attempt (process_message env cfg handler m)
    attempt (ack env reader (m.id ∷ []))
    pure tt

  unfoldable pub batch : List Xmessage → Exec W Unit
  batch [] = pure tt
  batch (m ∷ ms) = do consume m; batch ms

  -- The body of the loop from the result of the read: an error that ends the context leaves the
  -- loop, any other is logged.
  unfoldable pub handle_read : Result (List Xmessage) → Exec W Loop
  handle_read (ok msgs) = do batch msgs; pure running
  handle_read (err e) = if is_context_done e then pure stopped else pure running

  unfoldable pub round : Exec W Loop
  round = attempt (read env reader) >>= handle_read

  -- The loop, for so many rounds at most; before each, the end of the context is asked for.
  unfoldable pub rounds : ℕ → Exec W Loop
  rounds zero s = pure running s
  rounds (suc n) s = enter (env.context_err s.world) (round >>= go_on (rounds n)) s
