-- ===== src/Service/Tail/Resume.antt =====
-- go-api/internal/service/streams.go: from which entry a tail reads on.
use easyhooks.Prelude.{
  ℕ, zero, suc, Bytes, codes, lookup, Bool, true, false, Bool-cases, Option, none, some, List, [],
  ◌∷◌, take, ◌≡◌, refl, sym, ap, ◌∙◌, inl, inr, if◌then◌else◌,
}
use easyhooks.Runtime.Errors.{Result, ok, err}
use easyhooks.Runtime.Events.{Xmessage, Xstream}
use easyhooks.Service.Streams.{StreamEvent, payload_of}
use easyhooks.Service.Tail.{
  Tail, start_tail, send, tail_payload, tail_payload_of, tail_message, tail_messages, tail_streams,
  tail_reply, tail, eq_context_done,
}
use easyhooks.Service.Tail.Order.{
  event_before, message_events, stream_events, arrivals, tail_payload_of-payload_of,
}

-- The id of the last of some events, or where there is none another.
abbrev pub last_id : Bytes → List StreamEvent → Bytes
last_id id [] = id
last_id id (e ∷ events) = last_id e.id events

-- Where a tail that meets some more events will read on: it also notes the event that it could not
-- send any more.
abbrev resumes : Tail → List StreamEvent → Bytes
resumes t events =
    if t.running then last_id t.current_id (take (suc t.left) events) else t.current_id

stopped-resumes :
    (t : Tail) (events : List StreamEvent) → t.running ≡ false → resumes t events ≡ t.current_id
stopped-resumes t events off = rw off refl

running-resumes :
    (t : Tail) (events : List StreamEvent)
    → t.running ≡ true
    → resumes t events ≡ last_id t.current_id (take (suc t.left) events)
running-resumes t events on = rw on refl

resumes-nil : (t : Tail) → resumes t [] ≡ t.current_id
resumes-nil t = elim (Bool-cases t.running) [ inl on ↦ rw on refl | inr off ↦ rw off refl ]

send-resumes :
    (e : StreamEvent) (n : ℕ) (t : Tail) (rest : List StreamEvent)
    → t.running ≡ true
    → resumes (send e n t) rest ≡ last_id e.id (take n rest)
send-resumes e zero t rest on = refl
send-resumes e (suc n) t rest on = rw on refl

payload-resumes :
    (id : Bytes) (p : Option Bytes) (t : Tail) (rest : List StreamEvent)
    → t.running ≡ true
    → resumes (tail_payload id p t) rest ≡ resumes t (event_before id p rest)
payload-resumes id none t rest on = refl
payload-resumes id (some payload) t rest on =
    let e : StreamEvent = record { id = id; payload = payload } in
    send-resumes e t.left t rest on ∙ sym (running-resumes t (e ∷ rest) on)

message-resumes :
    (m : Xmessage) (t : Tail) (rest : List StreamEvent)
    → resumes (tail_message m t) rest
      ≡ resumes t (event_before m.id (payload_of (lookup m.values (codes "payload"))) rest)
unfolding tail_message
message-resumes m t rest = elim (Bool-cases t.running) [
  | inl on ↦
      ap
        (λ (b : Bool).
          resumes
            (if b
              then tail_payload m.id (tail_payload_of (lookup m.values (codes "payload"))) t
              else t)
            rest)
        on
      ∙ ap (λ (p : Option Bytes). resumes (tail_payload m.id p t) rest)
          (tail_payload_of-payload_of (lookup m.values (codes "payload")))
      ∙ payload-resumes m.id (payload_of (lookup m.values (codes "payload"))) t rest on
  | inr off ↦
      ap
        (λ (b : Bool).
          resumes
            (if b
              then tail_payload m.id (tail_payload_of (lookup m.values (codes "payload"))) t
              else t)
            rest)
        off
      ∙ stopped-resumes t rest off
      ∙ sym (
          stopped-resumes t
            (event_before m.id (payload_of (lookup m.values (codes "payload"))) rest) off)
]

messages-resumes :
    (ms : List Xmessage) (t : Tail) (rest : List StreamEvent)
    → resumes (tail_messages ms t) rest ≡ resumes t (message_events ms rest)
unfolding tail_messages message_events
messages-resumes [] t rest = refl
messages-resumes (m ∷ ms) t rest =
    messages-resumes ms (tail_message m t) rest ∙ message-resumes m t (message_events ms rest)

streams-resumes :
    (xs : List Xstream) (t : Tail) (rest : List StreamEvent)
    → resumes (tail_streams xs t) rest ≡ resumes t (stream_events xs rest)
unfolding tail_streams stream_events
streams-resumes [] t rest = refl
streams-resumes (x ∷ xs) t rest =
    streams-resumes xs (tail_messages x.messages t) rest
    ∙ messages-resumes x.messages t (stream_events xs rest)

reply-resumes :
    (reply : Result (List Xstream)) (replies : List (Result (List Xstream))) (t : Tail)
    → resumes (tail_reply reply t) (arrivals replies) ≡ resumes t (arrivals (reply ∷ replies))
unfolding tail_reply arrivals
reply-resumes (ok streams) replies t = streams-resumes streams t (arrivals replies)
reply-resumes (err e) replies t = elim (Bool-cases (eq_context_done e)) [
  | inl done ↦ rw done (sym (resumes-nil t))
  | inr going ↦ rw going refl
]

tail-resumes :
    (replies : List (Result (List Xstream))) (t : Tail)
    → (tail replies t).current_id ≡ resumes t (arrivals replies)
unfolding tail
tail-resumes [] t = unfold arrivals in sym (resumes-nil t)
tail-resumes (reply ∷ replies) t = elim (Bool-cases t.running) [
  | inl on ↦
      ap (λ (b : Bool). (if b then tail replies (tail_reply reply t) else t).current_id) on
      ∙ tail-resumes replies (tail_reply reply t)
      ∙ reply-resumes reply replies t
  | inr off ↦
      ap (λ (b : Bool). (if b then tail replies (tail_reply reply t) else t).current_id) off
      ∙ sym (stopped-resumes t (arrivals (reply ∷ replies)) off)
]

-- A tail reads on behind the last event that it took up: after any replies, the id that its next
-- read starts from is that of the last event of the replies up to the first that ends the context,
-- counting the events that were sent and the one whose send the end of the context cut short, or
-- the id that it began with where there is none. Entries without a payload do not move it.
pub tail-last_id :
    (replies : List (Result (List Xstream))) (start_id : Bytes) (left : ℕ)
    → (tail replies (start_tail start_id left)).current_id
      ≡ last_id start_id (take (suc left) (arrivals replies))
tail-last_id replies start_id left = tail-resumes replies (start_tail start_id left)
