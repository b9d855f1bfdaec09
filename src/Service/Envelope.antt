-- ===== src/Service/Envelope.antt =====
-- go-api/internal/service/processor.go, the envelope of an entry of the ingestion stream.
pub mod Fields
mod Tests
use easyhooks.Prelude.{Bytes, codes, lookup, Option, none, some, ◌++◌}
use easyhooks.Runtime.Errors.{Error, message, Result, ok, err, ◌>>=◌}
use easyhooks.Runtime.Events.{Value, text, raw, other, Values, Xmessage}
use easyhooks.Streams.Queue.{field_tenant_id, field_event_id, field_payload}

pub record WebhookEnvelope : Type 0 where
  pub event_id : Bytes
  pub tenant_id : Bytes
  pub payload : Bytes

abbrev pub missing : Bytes → Error
missing key = message (codes "missing " ++ (key ++ codes " field"))

abbrev pub unexpected : Bytes → Bytes → Error
unexpected key type_name = message (key ++ (codes " field has unexpected type " ++ type_name))

-- `stringField`, from the value under the key.
abbrev pub as_string : Bytes → Option Value → Result Bytes
as_string key none = err (missing key)
as_string key (some (text t)) = ok t
as_string key (some (raw b)) = err (unexpected key (codes "[]uint8"))
as_string key (some (other name)) = err (unexpected key name)

-- `payloadBytes`, from the value under the key.
abbrev pub as_bytes : Bytes → Option Value → Result Bytes
as_bytes key none = err (missing key)
as_bytes key (some (text t)) = ok t
as_bytes key (some (raw b)) = ok b
as_bytes key (some (other name)) = err (unexpected key name)

unfoldable pub string_field : Values → Bytes → Result Bytes
unfolding lookup
string_field values key = as_string key (lookup values key)

unfoldable pub payload_bytes : Values → Bytes → Result Bytes
unfolding lookup
payload_bytes values key = as_bytes key (lookup values key)

unfoldable pub extract_envelope : Xmessage → Result WebhookEnvelope
unfolding string_field payload_bytes
extract_envelope msg = do
  tenant_id ← string_field msg.values field_tenant_id
  event_id ← string_field msg.values field_event_id
  payload ← payload_bytes msg.values field_payload
  ok (record { event_id = event_id; tenant_id = tenant_id; payload = payload })
