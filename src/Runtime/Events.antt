-- ===== src/Runtime/Events.antt =====
-- The effects that the code has, in the order in which it has them: the metrics of
-- internal/observability/metrics.go, the commands sent to Redis, and the pauses.
use easyhooks.Prelude.{ℕ, ℤ, Bytes, Bool, Option, List, [], ◌∷◌}
use easyhooks.Runtime.Errors.{Error}

-- One update of a collector, with its label values. Histograms and gauges of durations are named
-- without the observed time.
pub data Metric : Type 0 where
  -- WebhookRequestsTotal{tenant_id, status}
  webhook_requests_total : Bytes → Bytes → Metric
  -- WebhookProcessingDuration{tenant_id}
  webhook_processing_duration : Bytes → Metric
  -- WebhookRetriesTotal{tenant_id, attempt}
  webhook_retries_total : Bytes → ℕ → Metric
  -- WebhookDLQTotal{tenant_id, error_type}: the error whose type is the label
  webhook_dlq_total : Bytes → Option Error → Metric
  -- IdempotencyDuplicatesTotal{tenant_id}
  idempotency_duplicates_total : Bytes → Metric
  -- RedisOperationsTotal{operation, status}
  redis_operations_total : Bytes → Bytes → Metric
  -- StreamConsumeTotal{stream, consumer_group}
  stream_consume_total : Bytes → Bytes → Metric
  -- StreamPublishTotal{stream, status}
  stream_publish_total : Bytes → Bytes → Metric
  -- WebhookLoadShedTotal{tenant_id}
  webhook_load_shed_total : Bytes → Metric
  -- IngestQueueDepth{stream}, set to a value
  ingest_queue_depth : Bytes → ℤ → Metric
  -- IngestLoadSheddingActive, set to 1 or 0
  ingest_load_shedding_active : Bool → Metric
  -- HTTPRequestsTotal{method, endpoint, status_code}
  http_requests_total : Bytes → Bytes → ℕ → Metric
  -- HTTPRequestDuration{method, endpoint, status_code}
  http_request_duration : Bytes → Bytes → ℕ → Metric
  -- easyhooks_profile_info{profile}, set to 1
  easyhooks_profile_info : Bytes → Metric
  -- WebSocketConnectionsActive{tenant_id}, by what is added
  web_socket_connections_active : Bytes → ℤ → Metric
  -- WebSocketMessagesSentTotal{tenant_id}
  web_socket_messages_sent_total : Bytes → Metric
  -- WebSocketSubscriberDroppedTotal{tenant_id, reason}
  web_socket_subscriber_dropped_total : Bytes → Bytes → Metric

-- A value of a `map[string]interface{}`: a string, a `[]byte`, or a value of another type, whose
-- name is given.
pub data Value : Type 0 where
  text : Bytes → Value
  raw : Bytes → Value
  other : Bytes → Value

abbrev pub Values : Type 0
Values = List (Bytes × Value)

-- goredis.XAddArgs
pub record XaddArgs : Type 0 where
  pub stream : Bytes
  pub max_len : ℤ
  pub approx : Bool
  pub values : Values

-- goredis.XReadGroupArgs, for one stream
pub record XreadGroupArgs : Type 0 where
  pub group : Bytes
  pub consumer : Bytes
  pub stream : Bytes
  pub start : Bytes
  pub count : ℤ
  pub block_ms : ℤ

-- goredis.XMessage
pub record Xmessage : Type 0 where
  pub id : Bytes
  pub values : Values

-- goredis.XStream: the stream's name and its messages
pub record Xstream : Type 0 where
  pub name : Bytes
  pub messages : List Xmessage

-- goredis.XInfoGroup, the fields that the code reads
pub record GroupInfo : Type 0 where
  pub name : Bytes
  pub pending : ℤ
  pub lag : ℤ

-- A command sent to Redis. Times to live are in seconds, 0 for none.
pub data Command : Type 0 where
  set_nx set : Bytes → Bytes → ℤ → Command
  get del exists : Bytes → Command
  xadd : XaddArgs → Command
  group_create : Bytes → Bytes → Bytes → Command
  xtrim_max_len_approx : Bytes → ℤ → Command
  xread_group : XreadGroupArgs → Command
  xack : Bytes → Bytes → List Bytes → Command
  xinfo_groups : Bytes → Command
  xrev_range : Bytes → Bytes → Bytes → ℤ → Command
  ping : Command
  info : Bytes → Command

pub data Event : Type 0 where
  counted : Metric → Event
  sent : Command → Event
  -- a pause of so many nanoseconds, cut short if the context ends
  waited : ℤ → Event

-- The commands to Redis among the events, the newest first.
unfoldable pub commands : List Event → List Command
commands [] = []
commands (sent c ∷ events) = c ∷ commands events
commands (counted m ∷ events) = commands events
commands (waited n ∷ events) = commands events
