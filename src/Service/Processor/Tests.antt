-- ===== src/Service/Processor/Tests.antt =====
-- Runs of the processor against the Redis in memory, and its theorems there.
use easyhooks.Prelude.{
  ℤ, pos, Bytes, bytes_eq_refl, codes, Bool, true, none, some, ◌≡◌, ◌≢◌, refl, arith, IsInt64,
}
use easyhooks.Runtime.Errors.{message, ok}
use easyhooks.Runtime.Events.{Xmessage, XaddArgs}
use easyhooks.Runtime.Fake.{Fake, fake, find_key, quiet, start}
use easyhooks.Config.Example.{example_config}
use easyhooks.Streams.Queue.{event_values}
use easyhooks.Service.Envelope.{WebhookEnvelope, extract_envelope}
use easyhooks.Service.Streams.{UuidLib}
use easyhooks.Service.Processor.{process_message, redis_streams_handler, lock_key}
use easyhooks.Service.Processor.Lock.{Locks, Skipped, process_twice, Holds-Stable}
use easyhooks.Service.Processor.Steps.{redis_streams_handler-Keeps}
use easyhooks.Service.Processor.Outcome.{
  Finishes, process_message-Finishes, redis_streams_handler-Quiet,
}

abbrev Held : Bytes → Fake → Type 0
Held k w = find_key k w.keys ≢ none

-- The Redis in memory keeps the promises about SET NX.
answered_fake :
    (k v : Bytes) (ttl : ℤ) (w : Fake) (b : Bool)
    → (fake.set_nx k v ttl w).0 ≡ ok b
    → Held k (fake.set_nx k v ttl w).1
unfolding fake
answered_fake k v ttl w b e = ground (arith, bytes_eq_refl k)

refuses_fake : (k v : Bytes) (ttl : ℤ) (w : Fake) → Held k w → (fake.set_nx k v ttl w).0 ≢ ok true
unfolding fake
refuses_fake k v ttl w h = ground arith

set_keeps_fake : (k j v : Bytes) (ttl : ℤ) (w : Fake) → Held k w → Held k (fake.set_nx j v ttl w).1
unfolding fake
set_keeps_fake k j v ttl w h = ground arith

xadd_keeps_fake : (k : Bytes) (args : XaddArgs) (w : Fake) → Held k w → Held k (fake.xadd args w).1
unfolding fake
xadd_keeps_fake k args w h = ground arith

wait_keeps_fake : (k : Bytes) (n : ℤ) (w : Fake) → Held k w → Held k (fake.wait n w).1
unfolding fake
wait_keeps_fake k n w h = h

fake-Locks : Locks fake Held
fake-Locks = record {
  answered = answered_fake;
  refuses = refuses_fake;
  set_keeps = set_keeps_fake;
  xadd_keeps = xadd_keeps_fake;
  wait_keeps = wait_keeps_fake;
}

abbrev uuids : UuidLib
uuids = record { parse = λ s. ok s; to_string = λ u. u }

abbrev message_1 : Xmessage
message_1 = record { id = codes "1-0"; values = event_values (codes "t") (codes "e") (codes "{}") }

abbrev envelope_1 : WebhookEnvelope
envelope_1 = record { event_id = codes "e"; tenant_id = codes "t"; payload = codes "{}" }

extracted_1 : extract_envelope message_1 ≡ ok envelope_1
unfolding extract_envelope
extracted_1 = refl

-- The server takes no write: the dead letter is lost with the event.
abbrev broken : Fake
broken = record quiet { write_error = some (message (codes "OOM")) }

process_twice_example :
    Skipped envelope_1
      (pos 3600)
      (process_message fake example_config
        (redis_streams_handler fake uuids example_config)
        message_1
        (start broken)).1
      (process_message fake example_config
        (redis_streams_handler fake uuids example_config)
        message_1
        (process_message fake example_config
          (redis_streams_handler fake uuids example_config)
          message_1
          (start broken)).1)
unfolding fake
process_twice_example =
    process_twice fake-Locks example_config (redis_streams_handler fake uuids example_config)
      message_1 message_1 envelope_1 envelope_1 (start broken) true extracted_1 extracted_1 refl
      (redis_streams_handler-Keeps (Holds-Stable fake-Locks (lock_key (codes "e"))) example_config
        uuids)
      refl

process_message-Finishes_example :
    Finishes fake example_config
      (redis_streams_handler fake uuids example_config)
      message_1
      (start broken)
      (process_message fake example_config
        (redis_streams_handler fake uuids example_config)
        message_1
        (start broken))
process_message-Finishes_example =
    process_message-Finishes fake example_config (redis_streams_handler fake uuids example_config)
      (redis_streams_handler-Quiet fake uuids example_config) message_1 (start broken)

in_range : (a : ℤ) → IsInt64 a → fake.float_to_int64 a ≡ a
unfolding fake
in_range a h = ground arith
