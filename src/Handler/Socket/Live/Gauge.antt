-- ===== src/Handler/Socket/Live/Gauge.antt =====
-- The gauge of the open connections, summed over the events.
use easyhooks.Runtime.Exec.Succeeds.{
  Succeeds, Succeeds-bind, Succeeds-pure, Succeeds-attempt, Succeeds-count,
}
use easyhooks.Prelude.{
  ℕ, zero, suc, ℤ, pos, negsuc, ◌+ℤ◌, Bytes, bytes_eq, Bool, true, false, Option, none, some, List,
  [], ◌∷◌, ◌≡◌, refl, ap, ◌∙◌, arith, if◌then◌else◌,
}
use easyhooks.Runtime.Errors.{Error, Result, ok}
use easyhooks.Runtime.Events.{Event, Metric, counted, sent, waited, web_socket_connections_active}
use easyhooks.Runtime.Env.{Env}
use easyhooks.Runtime.Exec.{State, Exec, ◌>>=◌, continue}
use easyhooks.Runtime.Exec.Keeps.{
  Keeps, Keeps-pure, Keeps-count, Keeps-bind, Keeps-attempt, Keeps-wrap, Keeps-command,
}
use easyhooks.Config.{Config}
use easyhooks.Security.{Crypto, asking}
use easyhooks.Service.Streams.{UuidLib, StreamEvent, read_tenant_history}
use easyhooks.Handler.Socket.{after_write, send_history, history_or_none, open_connection}
use easyhooks.Handler.Socket.Live.{
  read_on, read_client, after_history, close_connection, serve_connection,
}

abbrev moved : Bytes → Metric → ℤ → ℤ
moved t (web_socket_connections_active tenant delta) n = if bytes_eq tenant t then n +ℤ delta else n
moved t _ n = n

-- What the gauge of the label `t` is, by whether the handler of a connection of `of_conn` has
-- returned.
abbrev pub settled_gauge : Bytes → Bytes → Bool → ℤ → ℤ
settled_gauge of_conn t true g = g
settled_gauge of_conn t false g = moved t (web_socket_connections_active of_conn (pos 1)) g

-- The gauge of a tenant's label.
unfoldable pub gauge : Bytes → List Event → ℤ
unfolding bytes_eq
gauge t [] = pos 0
gauge t (counted m ∷ events) = moved t m (gauge t events)
gauge t (sent c ∷ events) = gauge t events
gauge t (waited n ∷ events) = gauge t events

up_down : (g : ℤ) → (g +ℤ pos 1) +ℤ negsuc 0 ≡ g
unfolding ◌+ℤ◌
up_down (pos n) = ground arith
up_down (negsuc n) = ground arith

abbrev GaugeIs : {W : Type 0} → Bytes → ℤ → State W → Type 0
GaugeIs t g s = gauge t s.events ≡ g

module _ {W A : Type 0} where
  Keeps-asking : (t : Bytes) (g : ℤ) (op : W → A × W) → Keeps (GaugeIs t g) (asking op)
  Keeps-asking t g op = record { at = λ s h. h }

  Succeeds-asking : (op : W → A × W) → Succeeds (asking op)
  Succeeds-asking op = record { value = λ s. ((op s.world).0, refl) }

module _ {W : Type 0} (env : Env W) (crypto : Crypto) (uuid : UuidLib) (cfg : Config)
    (write_message : Bytes → W → Option Error × W) (read_message : W → Option Error × W)
    (tenant_id : Bytes) where
  send_history-Succeeds :
      (es : List StreamEvent)
      → Succeeds (send_history env crypto uuid cfg write_message tenant_id es)
  unfolding send_history
  send_history-Succeeds [] = Succeeds-pure true
  send_history-Succeeds (e ∷ es) =
      Succeeds-bind (Succeeds-asking _) (λ o. written o (send_history-Succeeds es))
    where
      written :
          (o : Option Error) {rest : Exec W Bool}
          → Succeeds rest
          → Succeeds (after_write env crypto uuid cfg write_message tenant_id rest o)
      written none k = unfold after_write in Succeeds-bind (Succeeds-count _) (λ u. k)
      written (some e) k = unfold after_write in Succeeds-pure false

  open_connection-Succeeds : Succeeds (open_connection env crypto uuid cfg write_message tenant_id)
  unfolding open_connection
  open_connection-Succeeds =
      Succeeds-bind (Succeeds-attempt _)
        (λ r. send_history-Succeeds (history_or_none env crypto uuid cfg write_message r))

  read_client-Succeeds :
      (n : ℕ) → Succeeds (read_client env crypto uuid cfg write_message read_message n)
  unfolding read_client
  read_client-Succeeds zero = Succeeds-pure false
  read_client-Succeeds (suc n) =
      Succeeds-bind (Succeeds-asking _) (λ o. read_further o (read_client-Succeeds n))
    where
      read_further :
          (o : Option Error) {rest : Exec W Bool}
          → Succeeds rest
          → Succeeds (read_on env crypto uuid cfg write_message read_message rest o)
      read_further none k = k
      read_further (some e) k = Succeeds-pure true

  after_history-Succeeds :
      (n : ℕ) (b : Bool)
      → Succeeds (after_history env crypto uuid cfg write_message read_message n b)
  after_history-Succeeds n true = read_client-Succeeds n
  after_history-Succeeds n false = Succeeds-pure true

  module _ (t : Bytes) (g : ℤ) where
    send_history-Keeps :
        (es : List StreamEvent)
        → Keeps (GaugeIs t g) (send_history env crypto uuid cfg write_message tenant_id es)
    unfolding send_history
    send_history-Keeps [] = Keeps-pure true
    send_history-Keeps (e ∷ es) =
        Keeps-bind (Keeps-asking t g _) (λ o. written o (send_history-Keeps es))
      where
        written :
            (o : Option Error) {rest : Exec W Bool}
            → Keeps (GaugeIs t g) rest
            → Keeps (GaugeIs t g) (after_write env crypto uuid cfg write_message tenant_id rest o)
        written none k =
            unfold after_write in Keeps-bind (Keeps-count _ (λ s h. unfold gauge in h)) (λ u. k)
        written (some e) k = unfold after_write in Keeps-pure false

    open_connection-Keeps :
        Keeps (GaugeIs t g) (open_connection env crypto uuid cfg write_message tenant_id)
    unfolding open_connection read_tenant_history
    open_connection-Keeps =
        Keeps-bind
          (Keeps-attempt (
            Keeps-bind (Keeps-wrap _ (Keeps-command _ _ (λ s h. unfold gauge in h)))
              (λ r. Keeps-pure _)))
          (λ r. send_history-Keeps (history_or_none env crypto uuid cfg write_message r))

    read_client-Keeps :
        (n : ℕ) → Keeps (GaugeIs t g) (read_client env crypto uuid cfg write_message read_message n)
    unfolding read_client
    read_client-Keeps zero = Keeps-pure false
    read_client-Keeps (suc n) =
        Keeps-bind (Keeps-asking t g _) (λ o. read_further o (read_client-Keeps n))
      where
        read_further :
            (o : Option Error) {rest : Exec W Bool}
            → Keeps (GaugeIs t g) rest
            → Keeps (GaugeIs t g) (read_on env crypto uuid cfg write_message read_message rest o)
        read_further none k = k
        read_further (some e) k = Keeps-pure true

    after_history-Keeps :
        (n : ℕ) (b : Bool)
        → Keeps (GaugeIs t g) (after_history env crypto uuid cfg write_message read_message n b)
    after_history-Keeps n true = read_client-Keeps n
    after_history-Keeps n false = Keeps-pure true

  closed-gauge :
      (t : Bytes) (ended : Bool) (g : ℤ) (x : State W)
      → gauge t x.events
        ≡ moved t (web_socket_connections_active (uuid.to_string tenant_id) (pos 1)) g
      → ((close_connection env crypto uuid cfg write_message read_message tenant_id ended x).0
          ≡ ok ended)
        × (gauge t
              (close_connection env crypto uuid cfg write_message read_message tenant_id ended
                x).1.events
            ≡ settled_gauge (uuid.to_string tenant_id) t ended g)
  unfolding close_connection ◌>>=◌ gauge
  closed-gauge t false g x h = (refl, h)
  closed-gauge t true g x h = (
    refl,
    ap (moved t (web_socket_connections_active (uuid.to_string tenant_id) (negsuc 0))) h
        ∙ up_and_down (bytes_eq (uuid.to_string tenant_id) t),
  )
    where
      up_and_down :
          (b : Bool)
          → (if b then (if b then g +ℤ pos 1 else g) +ℤ negsuc 0 else (if b then g +ℤ pos 1 else g))
            ≡ g
      up_and_down true = up_down g
      up_and_down false = refl

  -- However a connection goes, the failures of its writes and of the read of the history included:
  -- when the handler has returned, the gauge of the open connections, of each tenant, is where it
  -- was, and as long as the handler still reads from the client, after a number of messages, the
  -- gauge of the connection's tenant is one higher and the others are where they were.
  pub serve_connection-gauge :
      (n : ℕ) (t : Bytes) (s : State W)
      → (ended : Bool) × ((serve_connection env crypto uuid cfg write_message read_message n
            tenant_id s).0
          ≡ ok ended)
        × (gauge t
              (serve_connection env crypto uuid cfg write_message read_message n tenant_id
                s).1.events
            ≡ settled_gauge (uuid.to_string tenant_id) t ended (gauge t s.events))
  unfolding serve_connection ◌>>=◌ gauge
  serve_connection-gauge n t s =
      let m =
        open_connection env crypto uuid cfg write_message tenant_id
        >>= after_history env crypto uuid cfg write_message read_message n in
      let before = record s {
        events =
            counted (web_socket_connections_active (uuid.to_string tenant_id) (pos 1)) ∷ s.events;
      } in
      let (ended, gives) =
        (Succeeds-bind open_connection-Succeeds (after_history-Succeeds n)).value before in
      let kept =
        (Keeps-bind (open_connection-Keeps t (gauge t before.events))
            (after_history-Keeps t (gauge t before.events) n)).at
          before refl in
      let close = close_connection env crypto uuid cfg write_message read_message tenant_id in
      let (result, settled) = closed-gauge t ended (gauge t s.events) (m before).1 kept in
      (
        ended,
        ap (λ (r : Result Bool). (continue r close (m before).1).0) gives ∙ result,
        ap (λ (r : Result Bool). gauge t (continue r close (m before).1).1.events) gives ∙ settled,
      )
