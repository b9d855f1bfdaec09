-- ===== src/Service/Tail.antt =====
-- go-api/internal/service/streams.go, `StreamTenantEvents`: the loop that follows a tenant's stream
-- and sends its events to a channel. What it meets is the sequence of the replies to its reads, and
-- the number of sends that are taken before the end of its context.
pub mod Order
pub mod History
pub mod Resume
mod Tests
use easyhooks.Prelude.{
  ℕ, zero, suc, Bytes, codes, lookup, Bool, true, false, Option, none, some, List, [], ◌∷◌, ◌++◌,
  if◌then◌else◌,
}
use easyhooks.Runtime.Errors.{Error, canceled, deadline_exceeded, Result, ok, err}
use easyhooks.Runtime.Events.{Value, text, raw, other, Xmessage, Xstream}
use easyhooks.Service.Streams.{StreamEvent}

-- `current_id` is where the next read starts, `sent` the events in the channel's order, `left` the
-- number of sends still to be taken.
pub record Tail : Type 0 where
  pub current_id : Bytes
  pub sent : List StreamEvent
  pub left : ℕ
  pub running : Bool

abbrev pub start_tail : Bytes → ℕ → Tail
start_tail start_id left = record { current_id = start_id; sent = []; left = left; running = true }

-- `select { case ch <- event: case <-ctx.Done(): return }`
abbrev pub send : StreamEvent → ℕ → Tail → Tail
send e zero t = record t { current_id = e.id; running = false }
send e (suc n) t = record t { current_id = e.id; sent = t.sent ++ e ∷ []; left = n }

-- An entry without a payload is passed over, and `current_id` stays.
abbrev pub tail_payload : Bytes → Option Bytes → Tail → Tail
tail_payload id none t = t
tail_payload id (some payload) t = send (record { id = id; payload = payload }) t.left t

-- The payload of an entry, by a switch of its own beside the one of the history.
unfoldable pub tail_payload_of : Option Value → Option Bytes
tail_payload_of none = none
tail_payload_of (some (text t)) = some t
tail_payload_of (some (raw b)) = some b
tail_payload_of (some (other name)) = none

pub tail_message : Xmessage → Tail → Tail
unfolding tail_payload_of lookup
tail_message m t =
    if t.running
    then tail_payload m.id (tail_payload_of (lookup m.values (codes "payload"))) t
    else t

pub tail_messages : List Xmessage → Tail → Tail
tail_messages [] t = t
tail_messages (m ∷ ms) t = tail_messages ms (tail_message m t)

pub tail_streams : List Xstream → Tail → Tail
tail_streams [] t = t
tail_streams (x ∷ xs) t = tail_streams xs (tail_messages x.messages t)

-- err == context.Canceled || err == context.DeadlineExceeded
abbrev pub eq_context_done : Error → Bool
eq_context_done canceled = true
eq_context_done deadline_exceeded = true
eq_context_done _ = false

-- Any other error, a timeout among them, is a reason to read again.
pub tail_reply : Result (List Xstream) → Tail → Tail
tail_reply (ok streams) t = tail_streams streams t
tail_reply (err e) t = if eq_context_done e then record t { running = false } else t

-- The loop, which stops with its context.
pub tail : List (Result (List Xstream)) → Tail → Tail
tail [] t = t
tail (reply ∷ replies) t =
    let rest = tail replies (tail_reply reply t) in if t.running then rest else t
