-- ===== src/Service/Envelope/Tests.antt =====
-- The envelope's theorems at an entry as a publisher writes it and as a reader receives it.
use easyhooks.Prelude.{codes, some, [], ◌∷◌, ◌++◌, ◌≡◌, refl, ◌↔◌}
use easyhooks.Runtime.Errors.{message, ok, err}
use easyhooks.Runtime.Events.{Xmessage, text}
use easyhooks.Streams.Queue.{event_values, error_values}
use easyhooks.Service.Envelope.{WebhookEnvelope, extract_envelope, missing}
use easyhooks.Service.Envelope.Fields.{stringly, Holds, extract-Holds}

abbrev failed_entry : Xmessage
failed_entry = record {
  id = codes "1-0";
  values = stringly (
      event_values (codes "t") (codes "e") (codes "{}")
      ++ error_values (some (message (codes "boom"))));
}

abbrev envelope : WebhookEnvelope
envelope = record { event_id = codes "e"; tenant_id = codes "t"; payload = codes "{}" }

no_tenant :
    extract_envelope
      (record { id = codes "1-0"; values = (codes "payload", text (codes "{}")) ∷ [] })
    ≡ err (missing (codes "tenant_id"))
unfolding extract_envelope
no_tenant = refl

extract-Holds_example :
    (extract_envelope failed_entry ≡ ok envelope) ↔ Holds failed_entry.values envelope
extract-Holds_example = extract-Holds failed_entry envelope
