-- ===== src/Service/Envelope/Fields.antt =====
-- The fields of an entry, as they are published and as they are read.
use easyhooks.Prelude.{
  Bytes, lookup, Option, none, some, [], ◌∷◌, ◌++◌, ◌≡◌, ◌⊎◌, inl, inr, ◌↔◌, arith,
}
use easyhooks.Runtime.Errors.{Error, Result, ok, ◌>>=◌}
use easyhooks.Runtime.Events.{Value, text, raw, other, Values, Xmessage}
use easyhooks.Streams.Queue.{
  event_values, error_values, field_tenant_id, field_event_id, field_payload,
}
use easyhooks.Service.Envelope.{WebhookEnvelope, as_string, as_bytes, extract_envelope}

-- The client may hand a byte slice back as a string.
abbrev pub as_text : Value → Value
as_text (raw b) = text b
as_text v = v

abbrev pub stringly : Values → Values
stringly [] = []
stringly ((k, v) ∷ values) = (k, as_text v) ∷ stringly values

-- The values of an entry, as the client gives them to the reader.
abbrev pub Received : Values → Values → Type 0
Received values seen = (seen ≡ values) ⊎ (seen ≡ stringly values)

-- An entry that `Publish` or `PublishDLQ` wrote, received with its payload as bytes or as a string,
-- is extracted as the envelope that was published; the error of a failed event is passed over.
pub extract-event_values :
    (msg : Xmessage) (tenant_id event_id payload : Bytes) (orig_err : Option Error)
    → Received (event_values tenant_id event_id payload ++ error_values orig_err) msg.values
    → extract_envelope msg
      ≡ ok (record { event_id = event_id; tenant_id = tenant_id; payload = payload })
unfolding extract_envelope
extract-event_values msg tenant_id event_id payload orig_err (inl e) = rw e
extract-event_values msg tenant_id event_id payload orig_err (inr e) = rw e

-- The envelope of an entry: its fields are the entry's, the tenant and the event's id as strings.
pub record Holds (values : Values) (envelope : WebhookEnvelope) : Type 0 where
  pub tenant : lookup values field_tenant_id ≡ some (text envelope.tenant_id)
  pub event : lookup values field_event_id ≡ some (text envelope.event_id)
  pub payload :
      (lookup values field_payload ≡ some (text envelope.payload))
      ⊎ (lookup values field_payload ≡ some (raw envelope.payload))

as_string-ok :
    (key : Bytes) (v : Option Value) (b : Bytes) → (as_string key v ≡ ok b) ↔ (v ≡ some (text b))
as_string-ok key none b = ground arith
as_string-ok key (some (text t)) b = ground arith
as_string-ok key (some (raw t)) b = ground arith
as_string-ok key (some (other t)) b = ground arith

as_bytes-ok :
    (key : Bytes) (v : Option Value) (b : Bytes)
    → (as_bytes key v ≡ ok b) ↔ ((v ≡ some (text b)) ⊎ (v ≡ some (raw b)))
as_bytes-ok key none b = ground arith
as_bytes-ok key (some (text t)) b = ground arith
as_bytes-ok key (some (raw t)) b = ground arith
as_bytes-ok key (some (other t)) b = ground arith

assembled : Option Value → Option Value → Option Value → Result WebhookEnvelope
assembled tenant event payload = do
  tenant_id ← as_string field_tenant_id tenant
  event_id ← as_string field_event_id event
  body ← as_bytes field_payload payload
  ok (record { event_id = event_id; tenant_id = tenant_id; payload = body })

assembled-ok :
    (a b c : Option Value) (envelope : WebhookEnvelope)
    → (assembled a b c ≡ ok envelope) ↔ (
        (a ≡ some (text envelope.tenant_id))
        × (b ≡ some (text envelope.event_id))
        × ((c ≡ some (text envelope.payload)) ⊎ (c ≡ some (raw envelope.payload))))
unfolding assembled
assembled-ok none b c envelope = ground arith
assembled-ok (some (raw x)) b c envelope = ground arith
assembled-ok (some (other x)) b c envelope = ground arith
assembled-ok (some (text x)) none c envelope = ground arith
assembled-ok (some (text x)) (some (raw y)) c envelope = ground arith
assembled-ok (some (text x)) (some (other y)) c envelope = ground arith
assembled-ok (some (text x)) (some (text y)) none envelope = ground arith
assembled-ok (some (text x)) (some (text y)) (some (text z)) envelope = ground arith
assembled-ok (some (text x)) (some (text y)) (some (raw z)) envelope = ground arith
assembled-ok (some (text x)) (some (text y)) (some (other z)) envelope = ground arith

-- Extraction succeeds exactly on the entries that hold the fields of an envelope, the tenant and
-- the event's id as strings and the payload as a string or bytes, and gives that envelope.
pub extract-Holds :
    (msg : Xmessage) (envelope : WebhookEnvelope)
    → (extract_envelope msg ≡ ok envelope) ↔ Holds msg.values envelope
unfolding extract_envelope assembled
extract-Holds msg envelope =
    let both =
      assembled-ok (lookup msg.values field_tenant_id) (lookup msg.values field_event_id)
        (lookup msg.values field_payload) envelope in
    (
      λ e. let h = both.0 e in record { tenant = h.0; event = h.1; payload = h.2 },
      λ h. both.1 (h.tenant, h.event, h.payload),
    )
