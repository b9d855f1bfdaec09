-- ===== src/Handler/Socket/Live.antt =====
-- go-api/internal/handler/ws.go, behind the upgrade: the live events of one connection over the
-- fan-out of its tenant, and the count of the connections. The select between an event and the end
-- of the context is decided by a question to the outside.
pub mod Leaves
pub mod Gauge
mod Tests
use easyhooks.Prelude.{
  ℕ, zero, suc, ◌-◌, ℤ, pos, negsuc, Bytes, Bool, true, false, Option, none, some, List, [], ◌∷◌,
  if◌then◌else◌,
}
use easyhooks.Runtime.Errors.{Error, Result, ok, err}
use easyhooks.Runtime.Events.{web_socket_messages_sent_total, web_socket_connections_active}
use easyhooks.Runtime.Env.{Env}
use easyhooks.Runtime.Exec.{State, Exec, pure, count, ◌>>=◌, ◌>>◌}
use easyhooks.Config.{Config}
use easyhooks.Security.{Crypto, asking}
use easyhooks.Service.Streams.{UuidLib, StreamEvent}
use easyhooks.Service.Fanout.{Fanout, Outcome, fine, panicked, receive, unsubscribe}
use easyhooks.Handler.Socket.{open_connection}

-- The forwarding waits for an event, or has left its loop.
pub data Forwarded : Type 0 where
  waiting left : Fanout → Forwarded

module _ {W : Type 0} (uuid : UuidLib) (tenant_id : Bytes)
    (write_message : Bytes → W → Option Error × W) (done : W → Bool × W) where
  -- A failed write leaves the loop.
  unfoldable pub after_forward : Fanout → Exec W Forwarded → Option Error → Exec W Forwarded
  after_forward f rest (some e) = pure (left f)
  after_forward f rest none = do
    count (web_socket_messages_sent_total (uuid.to_string tenant_id))
    rest

  -- `case ev, ok := <-events`, by what the channel holds and whether it is closed.
  unfoldable pub take_event :
      ℕ → Fanout → (Fanout → Exec W Forwarded) → List StreamEvent → Bool → Exec W Forwarded
  take_event id f rest (e ∷ es) closed =
      asking (write_message e.payload) >>= after_forward (receive id f) (rest (receive id f))
  take_event id f rest [] true = pure (left f)
  take_event id f rest [] false = pure (waiting f)

  abbrev pub choose : Fanout → Exec W Forwarded → Bool → Exec W Forwarded
  choose f rest true = pure (left f)
  choose f rest false = rest

  -- The loop of the goroutine that forwards, for so many turns at most, on the channel of a
  -- subscription, with no other goroutine in between.
  unfoldable pub forward : ℕ → ℕ → Fanout → Exec W Forwarded
  forward zero id f = pure (waiting f)
  forward (suc n) id f =
      let c = f.channels id in
      asking done >>= choose f (take_event id f (forward n id) c.buffer c.closed)

-- `defer unsub()`
unfoldable pub close_forward : ℕ → Forwarded → Outcome Fanout
close_forward id (waiting f) = fine f
close_forward id (left f) = unsubscribe id f

module _ {W : Type 0} (env : Env W) (crypto : Crypto) (uuid : UuidLib) (cfg : Config)
    (write_message : Bytes → W → Option Error × W) (read_message : W → Option Error × W) where
  -- The loop that reads from the client, for so many messages at most: whether it saw the end.
  abbrev read_on : Exec W Bool → Option Error → Exec W Bool
  read_on rest none = rest
  read_on rest (some e) = pure true

  unfoldable pub read_client : ℕ → Exec W Bool
  read_client zero = pure false
  read_client (suc n) = asking read_message >>= read_on (read_client n)

  abbrev after_history : ℕ → Bool → Exec W Bool
  after_history n true = read_client n
  after_history n false = pure true

  -- The deferred count of a handler that returns; one that still reads has not come to it.
  unfoldable pub close_connection : Bytes → Bool → Exec W Bool
  close_connection tenant_id true = do
    count (web_socket_connections_active (uuid.to_string tenant_id) (negsuc 0))
    pure true
  close_connection tenant_id false = pure false

  -- The handler's own goroutine behind the upgrade: whether it has returned.
  unfoldable pub serve_connection : ℕ → Bytes → Exec W Bool
  serve_connection n tenant_id = do
    count (web_socket_connections_active (uuid.to_string tenant_id) (pos 1))
    ended ← open_connection env crypto uuid cfg write_message tenant_id >>= after_history n
    close_connection tenant_id ended
