-- ===== src/Worker/Tests.antt =====
-- The loop's theorems at a batch whose first entry cannot be processed, at a stream that delivers
-- it, and at a Redis that answers no read.
use easyhooks.Prelude.{ℕ, pos, codes, none, List, [], ◌∷◌, ◌≡◌, refl}
use easyhooks.Runtime.Events.{Xmessage, sent, xread_group}
use easyhooks.Runtime.Errors.{message, is_redis_nil, is_context_done, ok, err}
use easyhooks.Runtime.Env.{Env}
use easyhooks.Runtime.Exec.{Exec}
use easyhooks.Runtime.Fake.{Fake, fake, quiet, start}
use easyhooks.Config.Example.{example_config}
use easyhooks.Streams.Queue.{Reader, new_reader, event_values, read_args}
use easyhooks.Service.Envelope.{WebhookEnvelope}
use easyhooks.Service.Streams.{UuidLib}
use easyhooks.Service.Processor.{redis_streams_handler}
use easyhooks.Worker.{Loop, running, rounds}
use easyhooks.Worker.Acks.{acked}
use easyhooks.Worker.Ledger.{rounds-Settled}
use easyhooks.Worker.Fake.{fake-Ledger}
use easyhooks.Worker.Stops.{rounds-failing}

abbrev uuids : UuidLib
uuids = record { parse = λ s. ok s; to_string = λ u. u }

abbrev reader : Reader
reader = new_reader (codes "events:in") (codes "webhook-workers") (codes "host") (pos 5000) (pos 32)

abbrev messages : List Xmessage
messages =
    record { id = codes "1-0"; values = [] }
    ∷ record { id = codes "2-0"; values = event_values (codes "t") (codes "e") (codes "{}") }
    ∷ []

-- A stream with the batch, and a context that ends after two reads.
abbrev stocked : Fake
stocked = record quiet {
  inbox = ok (record { name = codes "events:in"; messages = messages } ∷ []);
  reads_left = 2;
}

abbrev worker : ℕ → Exec Fake Loop
worker n = rounds fake example_config reader (redis_streams_handler fake uuids example_config) n

rounds-Settled_example :
    acked (codes "events:in") (codes "webhook-workers") (worker 3 (start stocked)).1.events
    ≡ (worker 3 (start stocked)).1.world.delivered
unfolding acked new_reader
rounds-Settled_example =
    rounds-Settled fake example_config reader uuids (fake-Ledger reader.stream reader.group) 3
      (start stocked) refl

-- A Redis that answers no read.
abbrev down : Env Fake
down = record fake {
  context_err = λ w. none;
  xread_group = λ args w. (err (message (codes "connection refused")), w);
}

abbrev down_handler : WebhookEnvelope → Exec Fake Unit
down_handler = redis_streams_handler down uuids example_config

rounds-failing_example :
    ((rounds down example_config reader down_handler 2 (start quiet)).0 ≡ ok running)
    × ((rounds down example_config reader down_handler 2 (start quiet)).1.events
        ≡ sent (xread_group (read_args reader)) ∷ sent (xread_group (read_args reader)) ∷ [])
unfolding is_redis_nil is_context_done
rounds-failing_example =
    rounds-failing down example_config reader down_handler 2 (start quiet) (λ w. refl)
      (λ w. (message (codes "connection refused"), refl, refl, refl))
