-- ===== src/Streams/Queue.antt =====
-- go-api/internal/streams/queue.go: the ingestion stream and its consumer group, and the stream of
-- failed events.
pub mod Replies
pub mod Bounds
mod Tests
use easyhooks.Prelude.{
  ℕ, ℤ, pos, leb_ℤ, ltb_ℤ, Bytes, codes, contains, Bool, true, false, Option, none, some, List, [],
  ◌∷◌, ◌++◌, if◌then◌else◌,
}
use easyhooks.Runtime.Errors.{
  Error, error_text, is_redis_nil, is_context_done, wrapped, Result, ok, err,
}
use easyhooks.Runtime.Events.{
  Value, text, raw, Values, XaddArgs, XreadGroupArgs, Xmessage, Xstream, xadd, group_create,
  xtrim_max_len_approx, xread_group, xack,
}
use easyhooks.Runtime.Env.{Env}
use easyhooks.Runtime.Exec.{State, Exec, pure, fail, attempt, wrap, lift, command, ◌>>=◌, ◌>>◌}

abbrev pub field_tenant_id : Bytes
field_tenant_id = codes "tenant_id"

abbrev pub field_event_id : Bytes
field_event_id = codes "event_id"

abbrev pub field_payload : Bytes
field_payload = codes "payload"

abbrev pub field_original_error : Bytes
field_original_error = codes "x_original_error"

-- The three fields of every entry.
abbrev pub event_values : Bytes → Bytes → Bytes → Values
event_values tenant_id event_id payload =
    (field_tenant_id, text tenant_id)
    ∷ (field_event_id, text event_id)
    ∷ (field_payload, raw payload)
    ∷ []

-- `if origErr != nil { values[FieldOriginalError] = origErr.Error() }`
abbrev pub error_values : Option Error → Values
error_values none = []
error_values (some e) = (field_original_error, text (error_text e)) ∷ []

-- `if maxLenApprox > 0 { args.MaxLen = maxLenApprox; args.Approx = true }`
unfoldable pub capped : Bytes → Values → ℤ → XaddArgs
capped stream values max_len =
    if ltb_ℤ (pos 0) max_len
    then record { stream = stream; max_len = max_len; approx = true; values = values }
    else record { stream = stream; max_len = pos 0; approx = false; values = values }

-- The error text of a group that exists already tells it apart.
unfoldable pub group_result : Bytes → Bytes → Result Unit → Result Unit
group_result stream group (ok u) = ok u
group_result stream group (err e) =
    if contains (error_text e) (codes "BUSYGROUP")
    then ok tt
    else err (wrapped (codes "create consumer group " ++ (group ++ (codes " on " ++ stream))) e)

pub record Reader : Type 0 where
  pub stream : Bytes
  pub group : Bytes
  pub consumer : Bytes
  pub block : ℤ
  pub count : ℤ

unfoldable pub new_reader : Bytes → Bytes → Bytes → ℤ → ℤ → Reader
new_reader stream group consumer block_ms count = record {
  stream = stream;
  group = group;
  consumer = consumer;
  block = block_ms;
  count = if leb_ℤ count (pos 0) then pos 32 else count;
}

abbrev pub first_messages : List Xstream → List Xmessage
first_messages [] = []
first_messages (x ∷ xs) = x.messages

-- The result of `Read`, from the reply to XREADGROUP.
unfoldable pub read_result : Bytes → Result (List Xstream) → Result (List Xmessage)
unfolding is_redis_nil is_context_done
read_result stream (ok streams) = ok (first_messages streams)
read_result stream (err e) =
    if is_redis_nil e
    then ok []
    else if is_context_done e
    then err e
    else err (wrapped (codes "XREADGROUP " ++ stream) e)

abbrev pub read_args : Reader → XreadGroupArgs
read_args r = record {
  group = r.group;
  consumer = r.consumer;
  stream = r.stream;
  start = codes ">";
  count = r.count;
  block_ms = r.block;
}

module _ {W : Type 0} (env : Env W) where
  unfoldable pub ensure_group : Bytes → Bytes → Exec W Unit
  unfolding group_result
  ensure_group stream group = do
    r ← attempt (
        command (group_create stream group (codes "$")) (env.group_create stream group (codes "$")))
    lift (group_result stream group r)

  unfoldable pub publish : Bytes → Bytes → Bytes → Bytes → ℤ → Exec W Bytes
  unfolding capped
  publish stream tenant_id event_id payload max_len =
      let args = capped stream (event_values tenant_id event_id payload) max_len in
      wrap (codes "XADD " ++ stream) (command (xadd args) (env.xadd args))

  unfoldable pub publish_dlq : Bytes → Bytes → Bytes → Bytes → Option Error → ℤ → Exec W Bytes
  unfolding capped
  publish_dlq stream tenant_id event_id payload orig_err max_len =
      let values = event_values tenant_id event_id payload ++ error_values orig_err in
      let args = capped stream values max_len in
      wrap (codes "XADD DLQ " ++ stream) (command (xadd args) (env.xadd args))

  -- The number in the error's text, in decimal, is left out.
  unfoldable pub trim_max_len_approx : Bytes → ℤ → Exec W ℤ
  trim_max_len_approx stream max_len =
      if leb_ℤ max_len (pos 0)
      then pure (pos 0)
      else wrap (codes "XTRIM " ++ stream)
          (command (xtrim_max_len_approx stream max_len) (env.xtrim_max_len_approx stream max_len))

  unfoldable pub read : Reader → Exec W (List Xmessage)
  unfolding read_result
  read r = do
    reply ← attempt (command (xread_group (read_args r)) (env.xread_group (read_args r)))
    lift (read_result r.stream reply)

  unfoldable pub ack : Reader → List Bytes → Exec W Unit
  ack r [] = pure tt
  ack r (id ∷ ids) =
      wrap (codes "XACK " ++ (r.stream ++ (codes "/" ++ r.group)))
        (command (xack r.stream r.group (id ∷ ids)) (env.xack r.stream r.group (id ∷ ids)))
      >>= λ n. pure tt
