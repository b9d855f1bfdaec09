-- ===== src/Handler/Socket/Goroutines/Leaving.antt =====
-- How the goroutines of a connection end.
use easyhooks.Prelude.{
  ℕ, ◌+◌, ◌≤◌, ◌<◌, Bool, true, false, Option, none, some, List, [], ◌∷◌, length, ◌≡◌, refl, sym,
  ◌⊎◌, inl, inr, arith, subst,
}
use easyhooks.Handler.Socket.Goroutines.{
  Handler, reading, leaving, closed, returned, Heartbeat, idle, pinging, stopped, Forwarder,
  selecting, sending, unsubscribing, closing, ended, is_closed, is_cancelled, is_done, HandlerMove,
  return_handler, HeartbeatMove, pinged, see_done, ForwarderMove, sent, see_cancelled, unsubscribe,
  close_done, handler_next, heartbeat_next, forwarder_next, Connection, Move, handles, beats,
  forwards, step, run_all, run_on, with_handler, with_heartbeat, with_forwarder, is_arrival,
}

-- The steps that a goroutine can still make once the connection is closed.
abbrev handler_left : Handler → ℕ
handler_left returned = 0
handler_left _ = 1

abbrev heartbeat_left : Heartbeat → ℕ
heartbeat_left stopped = 0
heartbeat_left (pinging true) = 1
heartbeat_left idle = 2
heartbeat_left (pinging false) = 3

abbrev forwarder_left : Forwarder → ℕ
forwarder_left ended = 0
forwarder_left closing = 1
forwarder_left unsubscribing = 2
forwarder_left (sending true) = 3
forwarder_left selecting = 4
forwarder_left (sending false) = 5

abbrev steps_left : Connection → ℕ
steps_left c = handler_left c.handler + heartbeat_left c.heartbeat + forwarder_left c.forwarder

-- A next phase, if there is one, has fewer steps left.
abbrev Lower : {A : Type 0} → (A → ℕ) → ℕ → Option A → Type 0
Lower left n none = Unit
Lower left n (some a) = left a < n

handler-Lower :
    (m : HandlerMove) (h : Handler)
    → is_closed h ≡ true
    → Lower handler_left (handler_left h) (handler_next m h)
unfolding handler_next
handler-Lower m h o = ground arith

handler-closed :
    (m : HandlerMove) (h k : Handler)
    → is_closed h ≡ true
    → handler_next m h ≡ some k
    → is_closed k ≡ true
unfolding handler_next
handler-closed m h k o e = ground arith

heartbeat-Lower :
    (done : Bool) (m : HeartbeatMove) (h : Heartbeat)
    → Lower heartbeat_left (heartbeat_left h) (heartbeat_next true done m h)
unfolding heartbeat_next
heartbeat-Lower done m h = ground arith

forwarder-Lower :
    (cancelled : Bool) (m : ForwarderMove) (f : Forwarder)
    → Lower forwarder_left (forwarder_left f) (forwarder_next true cancelled m f)
unfolding forwarder_next
forwarder-Lower cancelled m f = ground arith

-- What a step of a closed connection leads to.
abbrev Closer : Connection → Connection → Type 0
Closer c d = (steps_left d < steps_left c) × (is_closed d.handler ≡ true)

some_is : {A : Type 0} {a b : A} → some a ≡ some b → a ≡ b
some_is e = cc

step-Closer :
    (m : Move) (c d : Connection) → is_closed c.handler ≡ true → step m c ≡ some d → Closer c d
unfolding step
step-Closer (handles m) c d o =
    by_handler (handler_next m c.handler) (handler-Lower m c.handler o)
      (λ k e. handler-closed m c.handler k o e)
  where
    by_handler :
        (r : Option Handler)
        → Lower handler_left (handler_left c.handler) r
        → ((k : Handler) → r ≡ some k → is_closed k ≡ true)
        → with_handler c r ≡ some d
        → Closer c d
    by_handler none l k e = absurd cc
    by_handler (some h) l k e = subst (Closer c) (some_is e) (omega (arith, l), k h refl)
step-Closer (beats m) c d o =
    by_heartbeat (heartbeat_next (is_closed c.handler) (is_done c.forwarder) m c.heartbeat) (
      subst
        (λ (over : Bool).
          Lower heartbeat_left (heartbeat_left c.heartbeat)
            (heartbeat_next over (is_done c.forwarder) m c.heartbeat))
        (sym o) (heartbeat-Lower (is_done c.forwarder) m c.heartbeat))
  where
    by_heartbeat :
        (r : Option Heartbeat)
        → Lower heartbeat_left (heartbeat_left c.heartbeat) r
        → with_heartbeat c r ≡ some d
        → Closer c d
    by_heartbeat none l e = absurd cc
    by_heartbeat (some h) l e = subst (Closer c) (some_is e) (omega (arith, l), o)
step-Closer (forwards m) c d o =
    by_forwarder (forwarder_next (is_closed c.handler) (is_cancelled c.handler) m c.forwarder) (
      subst
        (λ (over : Bool).
          Lower forwarder_left (forwarder_left c.forwarder)
            (forwarder_next over (is_cancelled c.handler) m c.forwarder))
        (sym o) (forwarder-Lower (is_cancelled c.handler) m c.forwarder))
  where
    by_forwarder :
        (r : Option Forwarder)
        → Lower forwarder_left (forwarder_left c.forwarder) r
        → with_forwarder c r ≡ some d
        → Closer c d
    by_forwarder none l e = absurd cc
    by_forwarder (some f) l e = subst (Closer c) (some_is e) (omega (arith, l), o)

run_all-Closer :
    (ms : List Move) (c d : Connection)
    → is_closed c.handler ≡ true
    → run_all ms c ≡ some d
    → (length ms + steps_left d ≤ steps_left c) × (is_closed d.handler ≡ true)
unfolding run_all
run_all-Closer [] c d o e =
    subst
      (λ (x : Connection).
        (length {A = Move} [] + steps_left x ≤ steps_left c) × (is_closed x.handler ≡ true))
      (some_is e) (omega arith, o)
run_all-Closer (m ∷ ms) c d o e =
    by_step (λ b. run_all-Closer ms b d) (step m c) (λ b h. step-Closer m c b o h) e
  where
    by_step :
        ((b : Connection)
          → is_closed b.handler ≡ true
          → run_all ms b ≡ some d
          → (length ms + steps_left d ≤ steps_left b) × (is_closed d.handler ≡ true))
        → (r : Option Connection) → ((b : Connection) → r ≡ some b → Closer c b)
        → run_on (run_all ms) r ≡ some d
        → (length (m ∷ ms) + steps_left d ≤ steps_left c) × (is_closed d.handler ≡ true)
    by_step again none k e = absurd cc
    by_step again (some b) k e =
        let closer = k b refl in
        let rest = again b closer.1 e in (omega (arith, closer.0, rest.0), rest.1)

-- All three goroutines are over.
abbrev pub AllOver : Connection → Type 0
AllOver c = (c.handler ≡ returned) × (c.heartbeat ≡ stopped) × (c.forwarder ≡ ended)

-- A step that waits for nothing from outside.
abbrev pub Goes : Connection → Type 0
Goes c = (m : Move) × (is_arrival m ≡ false) × ((d : Connection) × (step m c ≡ some d))

phases-Goes :
    (h : Handler) (b : Heartbeat) (f : Forwarder)
    → is_closed h ≡ true
    → let c : Connection = record { handler = h; heartbeat = b; forwarder = f } in
      AllOver c ⊎ Goes c
unfolding step handler_next heartbeat_next forwarder_next
phases-Goes reading b f o = absurd cc
phases-Goes leaving b f o = absurd cc
phases-Goes closed b f o = inr (handles return_handler, refl, (_, refl))
phases-Goes returned b selecting o = inr (forwards see_cancelled, refl, (_, refl))
phases-Goes returned b (sending over) o = inr (forwards (sent false), refl, (_, refl))
phases-Goes returned b unsubscribing o = inr (forwards unsubscribe, refl, (_, refl))
phases-Goes returned b closing o = inr (forwards close_done, refl, (_, refl))
phases-Goes returned idle ended o = inr (beats see_done, refl, (_, refl))
phases-Goes returned (pinging over) ended o = inr (beats (pinged false), refl, (_, refl))
phases-Goes returned stopped ended o = inl (refl, refl, refl)

handler_left-bound : (h : Handler) → handler_left h ≤ 1
handler_left-bound h = ground arith

heartbeat_left-bound : (h : Heartbeat) → heartbeat_left h ≤ 3
heartbeat_left-bound h = ground arith

forwarder_left-bound : (f : Forwarder) → forwarder_left f ≤ 5
forwarder_left-bound f = ground arith

steps_left-bound : (c : Connection) → steps_left c ≤ 9
steps_left-bound c = omega (
  arith,
  handler_left-bound c.handler,
  heartbeat_left-bound c.heartbeat,
  forwarder_left-bound c.forwarder,
)

-- Once the connection is closed, its goroutines end: in whatever order they go on, with events and
-- ticks that may still come, they make at most nine steps, and as long as they are not all over,
-- one of them has a step that waits for nothing from outside.
pub closed-AllOver :
    (c d : Connection) (moves : List Move)
    → is_closed c.handler ≡ true
    → run_all moves c ≡ some d
    → (length moves ≤ 9) × (AllOver d ⊎ Goes d)
closed-AllOver c d moves o e =
    let closer = run_all-Closer moves c d o e in
    (
      omega (arith, closer.0, steps_left-bound c),
      phases-Goes d.handler d.heartbeat d.forwarder closer.1,
    )
