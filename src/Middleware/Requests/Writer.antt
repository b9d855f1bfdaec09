-- ===== src/Middleware/Requests/Writer.antt =====
-- go-api/internal/middleware/metrics.go: the writer that keeps the status for the metrics, over the
-- writer of net/http. That one sends the first final status that it is given, 200 before a body
-- without one, and nothing once its connection was taken over; an informational status, a 1xx other
-- than 101, it sends at once, and waits for the final one.
use easyhooks.Prelude.{
  ℕ, Bytes, Bool, true, false, Option, none, some, List, [], ◌∷◌, ◌≡◌, refl, sym, ◌∙◌,
  if◌then◌else◌, if_rule, leb, not, ◌&&◌, ◌||◌, ◌==◌,
}

-- What a handler calls.
pub data Call : Type 0 where
  write_header : ℕ → Call
  write : Bytes → Call
  flush hijack : Call

-- The writer of net/http: the status that was sent, whether the connection was taken over, and
-- which of its optional interfaces it has.
pub record Underlying : Type 0 where
  pub sent : Option ℕ
  pub hijacked : Bool
  pub flusher : Bool
  pub hijacker : Bool

-- `responseWriter`
pub record ResponseWriter : Type 0 where
  pub underlying : Underlying
  pub status : ℕ

abbrev pub new_response_writer : Underlying → ResponseWriter
new_response_writer u = record { underlying = u; status = 200 }

abbrev pub first_status : Option ℕ → ℕ → Option ℕ
first_status none code = some code
first_status (some sent) code = some sent

abbrev pub is_informational : ℕ → Bool
is_informational code = leb 100 code && leb code 199 && not (code == 101)

abbrev pub send_status : ℕ → Underlying → Underlying
send_status code u =
    if u.hijacked || is_informational code then u else record u { sent = first_status u.sent code }

unfoldable pub call : Call → ResponseWriter → ResponseWriter
call (write_header code) rw = record { underlying = send_status code rw.underlying; status = code }
call (write body) rw = record rw { underlying = send_status 200 rw.underlying }
call flush rw =
    if rw.underlying.flusher then record rw { underlying = send_status 200 rw.underlying } else rw
call hijack rw =
    if rw.underlying.hijacker
    then record rw { underlying = record (rw.underlying) { hijacked = true } }
    else rw

unfoldable pub run : List Call → ResponseWriter → ResponseWriter
unfolding call
run [] rw = rw
run (c ∷ calls) rw = run calls (call c rw)

-- The status that the client gets, once the handler has returned.
abbrev pub or_200 : Option ℕ → ℕ
or_200 none = 200
or_200 (some code) = code

-- Only final statuses are given, and none after one was sent or the connection was taken over.
abbrev pub InOrder : List Call → ResponseWriter → Type 0
InOrder [] rw = Unit
InOrder (write_header code ∷ calls) rw =
    ((rw.underlying.sent ≡ none)
      × (rw.underlying.hijacked ≡ false)
      × (is_informational code ≡ false))
    × InOrder calls (call (write_header code) rw)
InOrder (write body ∷ calls) rw = InOrder calls (call (write body) rw)
InOrder (flush ∷ calls) rw = InOrder calls (call flush rw)
InOrder (hijack ∷ calls) rw = InOrder calls (call hijack rw)

abbrev Captured : ResponseWriter → Type 0
Captured rw = or_200 rw.underlying.sent ≡ rw.status

or_200-first : (sent : Option ℕ) → or_200 (first_status sent 200) ≡ or_200 sent
or_200-first none = refl
or_200-first (some code) = refl

-- A 200 that is sent does not change what the client gets.
send_status-200 : (u : Underlying) → or_200 (send_status 200 u).sent ≡ or_200 u.sent
send_status-200 u =
    if_rule (λ (v : Underlying). or_200 v.sent ≡ or_200 u.sent) (u.hijacked || is_informational 200)
      (λ _. refl) (λ _. or_200-first u.sent)

sent-fresh :
    (u : Underlying) (code : ℕ)
    → u.sent ≡ none
    → u.hijacked ≡ false
    → is_informational code ≡ false
    → or_200 (send_status code u).sent ≡ code
sent-fresh u code e h final = rw (h, final, e) refl

flush-Captured : (rw : ResponseWriter) → Captured rw → Captured (call flush rw)
unfolding call
flush-Captured rw h =
    if_rule Captured rw.underlying.flusher (λ _. send_status-200 rw.underlying ∙ h) (λ _. h)

hijack-Captured : (rw : ResponseWriter) → Captured rw → Captured (call hijack rw)
unfolding call
hijack-Captured rw h = if_rule Captured rw.underlying.hijacker (λ _. h) (λ _. h)

run-Captured :
    (calls : List Call) (rw : ResponseWriter)
    → InOrder calls rw
    → Captured rw
    → Captured (run calls rw)
unfolding run
run-Captured [] rw o h = h
run-Captured (write_header code ∷ calls) rw o h =
    run-Captured calls (call (write_header code) rw) o.1
      (unfold call in sent-fresh rw.underlying code o.0.0 o.0.1 o.0.2)
run-Captured (write body ∷ calls) rw o h =
    run-Captured calls (call (write body) rw) o (unfold call in send_status-200 rw.underlying ∙ h)
run-Captured (flush ∷ calls) rw o h = run-Captured calls (call flush rw) o (flush-Captured rw h)
run-Captured (hijack ∷ calls) rw o h = run-Captured calls (call hijack rw) o (hijack-Captured rw h)

-- The status that is kept for the metrics is the one that was sent, or 200 where none was, whatever
-- a handler writes, flushes and takes over, and whichever interfaces the writer below has, as long
-- as it gives only final statuses, no informational ones, and none after one was sent or the
-- connection was taken over.
pub run-status :
    (calls : List Call) (flusher hijacker : Bool)
    → let rw =
        new_response_writer
          (record { sent = none; hijacked = false; flusher = flusher; hijacker = hijacker }) in
      InOrder calls rw → (run calls rw).status ≡ or_200 (run calls rw).underlying.sent
run-status calls flusher hijacker o = sym (run-Captured calls _ o refl)
