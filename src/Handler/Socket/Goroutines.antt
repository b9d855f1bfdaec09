-- ===== src/Handler/Socket/Goroutines.antt =====
-- go-api/internal/handler/ws.go, behind the history: the three goroutines of one connection, as
-- steps that come in any order. The handler reads from the client, one goroutine sends pings and
-- one forwards the events. A write has a start and an end, since the others may go on meanwhile; it
-- fails if the connection was closed before its start. The server cancels the context of the
-- request when the handler has returned. An unsubscribe that panics ends the process, which is no
-- step here.
pub mod Leaving
mod Tests
use easyhooks.Prelude.{ℕ, ◌+◌, Bool, true, false, Option, none, some, List, [], ◌∷◌, if◌then◌else◌}

-- Where the handler is: in its loop, or behind it with none, the first and the last of closing the
-- connection and returning done.
pub data Handler : Type 0 where
  reading leaving closed returned : Handler

-- A write is marked by whether the connection was closed at its start.
pub data Heartbeat : Type 0 where
  idle : Heartbeat
  pinging : Bool → Heartbeat
  stopped : Heartbeat

-- The last three: before `unsub()`, before `close(done)`, behind it.
pub data Forwarder : Type 0 where
  selecting : Forwarder
  sending : Bool → Forwarder
  unsubscribing closing ended : Forwarder

-- The connection is closed.
abbrev pub is_closed : Handler → Bool
is_closed reading = false
is_closed leaving = false
is_closed closed = true
is_closed returned = true

-- `ctx.Done()` is closed.
abbrev pub is_cancelled : Handler → Bool
is_cancelled reading = false
is_cancelled leaving = false
is_cancelled closed = false
is_cancelled returned = true

-- `done` is closed.
abbrev pub is_done : Forwarder → Bool
is_done selecting = false
is_done (sending over) = false
is_done unsubscribing = false
is_done closing = false
is_done ended = true

-- A message of the client or a failed read; the deferred `conn.Close()`; the return.
pub data HandlerMove : Type 0 where
  read fail_read close return_handler : HandlerMove

-- A tick; the end of a ping and whether it was written; `<-done`.
pub data HeartbeatMove : Type 0 where
  tick : HeartbeatMove
  pinged : Bool → HeartbeatMove
  see_done : HeartbeatMove

-- An event, or the end of the channel; the end of a write; `<-ctx.Done()`; the deferred calls.
pub data ForwarderMove : Type 0 where
  take end_events : ForwarderMove
  sent : Bool → ForwarderMove
  see_cancelled unsubscribe close_done : ForwarderMove

unfoldable pub handler_next : HandlerMove → Handler → Option Handler
handler_next read reading = some reading
handler_next fail_read reading = some leaving
handler_next close leaving = some closed
handler_next return_handler closed = some returned
handler_next _ _ = none

-- By whether the connection and `done` are closed.
unfoldable pub heartbeat_next : Bool → Bool → HeartbeatMove → Heartbeat → Option Heartbeat
heartbeat_next over done tick idle = some (pinging over)
heartbeat_next over true see_done idle = some stopped
heartbeat_next over done (pinged true) (pinging false) = some idle
heartbeat_next over done (pinged false) (pinging before) = some stopped
heartbeat_next _ _ _ _ = none

-- By whether the connection and `ctx.Done()` are closed.
unfoldable pub forwarder_next : Bool → Bool → ForwarderMove → Forwarder → Option Forwarder
forwarder_next over cancelled take selecting = some (sending over)
forwarder_next over cancelled end_events selecting = some unsubscribing
forwarder_next over true see_cancelled selecting = some unsubscribing
forwarder_next over cancelled (sent true) (sending false) = some selecting
forwarder_next over cancelled (sent false) (sending before) = some unsubscribing
forwarder_next over cancelled unsubscribe unsubscribing = some closing
forwarder_next over cancelled close_done closing = some ended
forwarder_next _ _ _ _ = none

pub record Connection : Type 0 where
  pub handler : Handler
  pub heartbeat : Heartbeat
  pub forwarder : Forwarder

abbrev pub opened : Connection
opened = record { handler = reading; heartbeat = idle; forwarder = selecting }

pub data Move : Type 0 where
  handles : HandlerMove → Move
  beats : HeartbeatMove → Move
  forwards : ForwarderMove → Move

abbrev pub with_handler : Connection → Option Handler → Option Connection
with_handler c none = none
with_handler c (some h) = some (record c { handler = h })

abbrev pub with_heartbeat : Connection → Option Heartbeat → Option Connection
with_heartbeat c none = none
with_heartbeat c (some h) = some (record c { heartbeat = h })

abbrev pub with_forwarder : Connection → Option Forwarder → Option Connection
with_forwarder c none = none
with_forwarder c (some f) = some (record c { forwarder = f })

unfoldable pub step : Move → Connection → Option Connection
step (handles m) c = with_handler c (handler_next m c.handler)
step (beats m) c =
    with_heartbeat c (heartbeat_next (is_closed c.handler) (is_done c.forwarder) m c.heartbeat)
step (forwards m) c =
    with_forwarder c (forwarder_next (is_closed c.handler) (is_cancelled c.handler) m c.forwarder)

abbrev pub run_on : (Connection → Option Connection) → Option Connection → Option Connection
run_on rest none = none
run_on rest (some c) = rest c

unfoldable pub run_all : List Move → Connection → Option Connection
run_all [] c = some c
run_all (m ∷ ms) c = run_on (run_all ms) (step m c)

-- What comes from outside: the client, the ticker, the stream of events.
abbrev pub is_arrival : Move → Bool
is_arrival (handles read) = true
is_arrival (handles fail_read) = true
is_arrival (beats tick) = true
is_arrival (forwards take) = true
is_arrival (forwards end_events) = true
is_arrival _ = false
