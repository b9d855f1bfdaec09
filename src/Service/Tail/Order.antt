-- ===== src/Service/Tail/Order.antt =====
-- What the channel of a tenant's stream carries.
use mathlib.Core.List.{append_assoc, append-nil}
use easyhooks.Prelude.{
  ℕ, zero, suc, Bytes, codes, lookup, Bool, true, false, Bool-cases, Option, none, some, List, [],
  ◌∷◌, ◌++◌, take, All, if_rule, ◌≡◌, refl, sym, ap, ◌∙◌, inl, inr, if◌then◌else◌,
}
use easyhooks.Runtime.Errors.{Result, ok, err}
use easyhooks.Runtime.Events.{Value, text, raw, other, Xmessage, Xstream}
use easyhooks.Service.Streams.{StreamEvent, payload_of}
use easyhooks.Service.Tail.{
  Tail, start_tail, send, tail_payload_of, tail_payload, tail_message, tail_messages, tail_streams,
  tail_reply, tail, eq_context_done,
}

-- The event of an entry, in front of others.
abbrev pub event_before : Bytes → Option Bytes → List StreamEvent → List StreamEvent
event_before id none events = events
event_before id (some payload) events = record { id = id; payload = payload } ∷ events

-- The events of the entries with a payload, in their order.
unfoldable pub message_events : List Xmessage → List StreamEvent → List StreamEvent
message_events [] rest = rest
message_events (m ∷ ms) rest =
    event_before m.id (payload_of (lookup m.values (codes "payload"))) (message_events ms rest)

unfoldable pub stream_events : List Xstream → List StreamEvent → List StreamEvent
stream_events [] rest = rest
stream_events (x ∷ xs) rest = message_events x.messages (stream_events xs rest)

-- The events of the replies up to the first that ends the context.
unfoldable pub arrivals : List (Result (List Xstream)) → List StreamEvent
arrivals [] = []
arrivals (ok streams ∷ replies) = stream_events streams (arrivals replies)
arrivals (err e ∷ replies) = let rest = arrivals replies in if eq_context_done e then [] else rest

-- What a tail that meets some more events will have sent.
abbrev pub sends : Tail → List StreamEvent → List StreamEvent
sends t events = if t.running then t.sent ++ take t.left events else t.sent

sends-nil : (t : Tail) → sends t [] ≡ t.sent
sends-nil t = elim (Bool-cases t.running) [
  | inl on ↦ rw (on, take-nil t.left) (append-nil t.sent)
  | inr off ↦ rw off refl
]
  where
    take-nil : (n : ℕ) → take {A = StreamEvent} n [] ≡ []
    take-nil zero = refl
    take-nil (suc n) = refl

-- A tail that has stopped sends no more.
stopped-sends : (t : Tail) (events : List StreamEvent) → t.running ≡ false → sends t events ≡ t.sent
stopped-sends t events off = rw off refl

running-sends :
    (t : Tail) (events : List StreamEvent)
    → t.running ≡ true
    → sends t events ≡ t.sent ++ take t.left events
running-sends t events on = rw on refl

send-sends :
    (e : StreamEvent) (n : ℕ) (t : Tail) (rest : List StreamEvent)
    → t.running ≡ true
    → sends (send e n t) rest ≡ t.sent ++ take n (e ∷ rest)
send-sends e zero t rest on = sym (append-nil t.sent)
send-sends e (suc n) t rest on = rw on (append_assoc t.sent (e ∷ []) (take n rest))

payload-sends :
    (id : Bytes) (p : Option Bytes) (t : Tail) (rest : List StreamEvent)
    → t.running ≡ true
    → sends (tail_payload id p t) rest ≡ sends t (event_before id p rest)
payload-sends id none t rest on = refl
payload-sends id (some payload) t rest on =
    let e : StreamEvent = record { id = id; payload = payload } in
    send-sends e t.left t rest on ∙ sym (running-sends t (e ∷ rest) on)

-- Both switches take the same values.
pub tail_payload_of-payload_of : (v : Option Value) → tail_payload_of v ≡ payload_of v
unfolding tail_payload_of payload_of
tail_payload_of-payload_of none = refl
tail_payload_of-payload_of (some (text t)) = refl
tail_payload_of-payload_of (some (raw b)) = refl
tail_payload_of-payload_of (some (other name)) = refl

message-sends :
    (m : Xmessage) (t : Tail) (rest : List StreamEvent)
    → sends (tail_message m t) rest
      ≡ sends t (event_before m.id (payload_of (lookup m.values (codes "payload"))) rest)
unfolding tail_message
message-sends m t rest = elim (Bool-cases t.running) [
  | inl on ↦
      ap
        (λ (b : Bool).
          sends
            (if b
              then tail_payload m.id (tail_payload_of (lookup m.values (codes "payload"))) t
              else t)
            rest)
        on
      ∙ ap (λ (p : Option Bytes). sends (tail_payload m.id p t) rest)
          (tail_payload_of-payload_of (lookup m.values (codes "payload")))
      ∙ payload-sends m.id (payload_of (lookup m.values (codes "payload"))) t rest on
  | inr off ↦
      ap
        (λ (b : Bool).
          sends
            (if b
              then tail_payload m.id (tail_payload_of (lookup m.values (codes "payload"))) t
              else t)
            rest)
        off
      ∙ stopped-sends t rest off
      ∙ sym (
          stopped-sends t (event_before m.id (payload_of (lookup m.values (codes "payload"))) rest)
            off)
]

messages-sends :
    (ms : List Xmessage) (t : Tail) (rest : List StreamEvent)
    → sends (tail_messages ms t) rest ≡ sends t (message_events ms rest)
unfolding tail_messages message_events
messages-sends [] t rest = refl
messages-sends (m ∷ ms) t rest =
    messages-sends ms (tail_message m t) rest ∙ message-sends m t (message_events ms rest)

streams-sends :
    (xs : List Xstream) (t : Tail) (rest : List StreamEvent)
    → sends (tail_streams xs t) rest ≡ sends t (stream_events xs rest)
unfolding tail_streams stream_events
streams-sends [] t rest = refl
streams-sends (x ∷ xs) t rest =
    streams-sends xs (tail_messages x.messages t) rest
    ∙ messages-sends x.messages t (stream_events xs rest)

reply-sends :
    (reply : Result (List Xstream)) (replies : List (Result (List Xstream))) (t : Tail)
    → sends (tail_reply reply t) (arrivals replies) ≡ sends t (arrivals (reply ∷ replies))
unfolding tail_reply arrivals
reply-sends (ok streams) replies t = streams-sends streams t (arrivals replies)
reply-sends (err e) replies t = elim (Bool-cases (eq_context_done e)) [
  | inl done ↦ rw done (sym (sends-nil t))
  | inr going ↦ rw going refl
]

tail-sends :
    (replies : List (Result (List Xstream))) (t : Tail)
    → (tail replies t).sent ≡ sends t (arrivals replies)
unfolding tail
tail-sends [] t = unfold arrivals in sym (sends-nil t)
tail-sends (reply ∷ replies) t = elim (Bool-cases t.running) [
  | inl on ↦
      ap (λ (b : Bool). (if b then tail replies (tail_reply reply t) else t).sent) on
      ∙ tail-sends replies (tail_reply reply t)
      ∙ reply-sends reply replies t
  | inr off ↦
      ap (λ (b : Bool). (if b then tail replies (tail_reply reply t) else t).sent) off
      ∙ sym (stopped-sends t (arrivals (reply ∷ replies)) off)
]

-- The channel carries the events of all entries with a payload, of all replies up to the first that
-- ends the context, each once and in their order, as many as are taken before the context ends.
pub tail-arrivals :
    (replies : List (Result (List Xstream))) (start_id : Bytes) (left : ℕ)
    → (tail replies (start_tail start_id left)).sent ≡ take left (arrivals replies)
tail-arrivals replies start_id left = tail-sends replies (start_tail start_id left)

message_stays :
    (m : Xmessage) (t : Tail)
    → payload_of (lookup m.values (codes "payload")) ≡ none
    → tail_message m t ≡ t
unfolding tail_message
message_stays m t e =
    ap (λ (p : Option Bytes). if t.running then tail_payload m.id p t else t)
      (tail_payload_of-payload_of (lookup m.values (codes "payload")) ∙ e)
    ∙ if_rule (λ (x : Tail). x ≡ t) t.running (λ _. refl) (λ _. refl)

-- Entries without a payload leave the tail where it was, so that its next read asks for them again.
pub malformed-stay :
    (ms : List Xmessage) (t : Tail)
    → All (λ m. payload_of (lookup m.values (codes "payload")) ≡ none) ms
    → tail_messages ms t ≡ t
unfolding tail_messages tail_message
malformed-stay [] t a = refl
malformed-stay (m ∷ ms) t a =
    ap (tail_messages ms) (message_stays m t a.0) ∙ malformed-stay ms t a.1
