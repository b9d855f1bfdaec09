-- ===== src/Service/Streams.antt =====
-- go-api/internal/service/streams.go: the stream of each tenant.
use easyhooks.Prelude.{ℤ, Bytes, codes, lookup, true, Option, none, some, List, [], ◌∷◌, ◌++◌}
use easyhooks.Runtime.Errors.{Result}
use easyhooks.Runtime.Events.{Value, text, raw, other, XaddArgs, Xmessage, xadd, xrev_range}
use easyhooks.Runtime.Env.{Env}
use easyhooks.Runtime.Exec.{Exec, pure, wrap, command, ◌>>=◌}
use easyhooks.Config.{Config}

pub record StreamEvent : Type 0 where
  pub id : Bytes
  pub payload : Bytes

-- google/uuid: `Parse` and `String` over the 16 bytes of a UUID.
pub record UuidLib : Type 0 where
  pub parse : Bytes → Result Bytes
  pub to_string : Bytes → Bytes

unfoldable pub tenant_stream_key : UuidLib → Bytes → Bytes → Bytes
tenant_stream_key uuid tenant_id prefix = prefix ++ uuid.to_string tenant_id

-- The payload of an entry, for the history: a string or bytes; any other value, or none, is no
-- payload.
unfoldable pub payload_of : Option Value → Option Bytes
payload_of none = none
payload_of (some (text t)) = some t
payload_of (some (raw b)) = some b
payload_of (some (other name)) = none

abbrev pub add_event : Bytes → Option Bytes → List StreamEvent → List StreamEvent
add_event id none events = events
add_event id (some payload) events = events ++ record { id = id; payload = payload } ∷ []

-- The loop of `ReadTenantHistory`: from the last entry of the reply to the first, appending.
unfoldable pub history_events : List Xmessage → List StreamEvent
unfolding payload_of lookup
history_events [] = []
history_events (m ∷ ms) =
    add_event m.id (payload_of (lookup m.values (codes "payload"))) (history_events ms)

module _ {W : Type 0} (env : Env W) (uuid : UuidLib) (cfg : Config) (tenant_id : Bytes) where
  -- The stream is trimmed at the setting, whatever that is.
  unfoldable pub publish_tenant_event : Bytes → Exec W Bytes
  unfolding tenant_stream_key
  publish_tenant_event payload =
      let key = tenant_stream_key uuid tenant_id cfg.tenant_events_stream_prefix in
      let args : XaddArgs = record {
        stream = key;
        max_len = cfg.stream_max_len;
        approx = true;
        values = (codes "payload", raw payload) ∷ [];
      } in
      wrap (codes "XADD to stream " ++ key) (command (xadd args) (env.xadd args))

  unfoldable pub read_tenant_history : ℤ → Exec W (List StreamEvent)
  unfolding tenant_stream_key history_events
  read_tenant_history count = do
    let key = tenant_stream_key uuid tenant_id cfg.tenant_events_stream_prefix
    results ← wrap (codes "XREVRANGE on " ++ key) (
        command (xrev_range key (codes "+") (codes "-") count)
          (env.xrev_range key (codes "+") (codes "-") count))
    pure (history_events results)
