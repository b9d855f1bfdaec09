-- ===== src/Service/Tail/History.antt =====
-- The history of a tenant beside the events that a tail sends.
use mathlib.Core.List.{append-nil}
use easyhooks.Prelude.{
  Bytes, codes, lookup, Option, none, some, List, [], ◌∷◌, ◌++◌, ◌≡◌, refl, sym, ap, ◌∙◌, ℕ, zero,
  suc, ◌≤◌, length, take, arith,
}
use easyhooks.Runtime.Errors.{ok}
use easyhooks.Runtime.Events.{Xmessage}
use easyhooks.Service.Tail.{tail, start_tail}
use easyhooks.Service.Streams.{StreamEvent, payload_of, history_events, add_event}
use easyhooks.Service.Tail.Order.{
  event_before, message_events, stream_events, arrivals, tail-arrivals,
}

-- The entries, oldest first.
unfoldable pub oldest_first : List Xmessage → List Xmessage
oldest_first [] = []
oldest_first (m ∷ ms) = oldest_first ms ++ m ∷ []

event_before-append :
    (id : Bytes) (p : Option Bytes) (events rest : List StreamEvent)
    → event_before id p (events ++ rest) ≡ event_before id p events ++ rest
event_before-append id none events rest = refl
event_before-append id (some payload) events rest = refl

message_events-append :
    (ms ns : List Xmessage)
    → message_events (ms ++ ns) [] ≡ message_events ms [] ++ message_events ns []
unfolding message_events
message_events-append [] ns = refl
message_events-append (m ∷ ms) ns =
    ap (event_before m.id (payload_of (lookup m.values (codes "payload"))))
      (message_events-append ms ns)
    ∙ event_before-append m.id (payload_of (lookup m.values (codes "payload")))
        (message_events ms []) (message_events ns [])

add_event-append :
    (id : Bytes) (p : Option Bytes) (events : List StreamEvent)
    → add_event id p events ≡ events ++ event_before id p []
add_event-append id none events = sym (append-nil events)
add_event-append id (some payload) events = refl

history_events-events :
    (ms : List Xmessage) → history_events ms ≡ message_events (oldest_first ms) []
unfolding history_events message_events oldest_first
history_events-events [] = refl
history_events-events (m ∷ ms) =
    let p = payload_of (lookup m.values (codes "payload")) in
    add_event-append m.id p (history_events ms)
    ∙ ap (λ (events : List StreamEvent). events ++ event_before m.id p [])
        (history_events-events ms)
    ∙ sym (message_events-append (oldest_first ms) (m ∷ []))

-- No entry has more than one event.
events-bound : (ms : List Xmessage) → length (message_events ms []) ≤ length ms
unfolding message_events
events-bound [] = omega arith
events-bound (m ∷ ms) =
    before_bound (payload_of (lookup m.values (codes "payload"))) (events-bound ms)
  where
    before_bound :
        (p : Option Bytes)
        → length (message_events ms []) ≤ length ms
        → length (event_before m.id p (message_events ms [])) ≤ length (m ∷ ms)
    before_bound none h = omega (arith, h)
    before_bound (some payload) h = omega (arith, h)

take_all : (n : ℕ) (events : List StreamEvent) → length events ≤ n → take n events ≡ events
take_all n [] h = take-nil n
  where
    take-nil : (n : ℕ) → take {A = StreamEvent} n [] ≡ []
    take-nil zero = refl
    take-nil (suc n) = refl
take_all zero (e ∷ events) h = absurd (omega (arith, h))
take_all (suc n) (e ∷ events) h =
    ap (λ (es : List StreamEvent). e ∷ es) (take_all n events (omega arith))

-- The history of a tenant, which Redis gives newest first, is what a tail sends that gets the same
-- entries oldest first in one reply, wherever it started, if as many sends as there are entries are
-- taken: both pass the same entries over and read the same payloads from the others.
pub history_events-tail :
    (ms : List Xmessage) (name start_id : Bytes) (left : ℕ)
    → length (oldest_first ms) ≤ left
    → history_events ms
      ≡ (tail
          (ok (record { name = name; messages = oldest_first ms } ∷ []) ∷ [])
          (start_tail start_id left)).sent
unfolding arrivals stream_events
history_events-tail ms name start_id left h =
    history_events-events ms
    ∙ sym (take_all left _ (omega (arith, events-bound (oldest_first ms), h)))
    ∙ sym (
        tail-arrivals (ok (record { name = name; messages = oldest_first ms } ∷ []) ∷ []) start_id
          left)
