-- ===== src/Handler/Socket/Live/Tests.antt =====
-- A connection whose subscription was dropped, and one that fails at its first write.
use easyhooks.Prelude.{pos, Bytes, codes, Bool, false, Option, none, some, [], ◌∷◌, ◌≡◌}
use easyhooks.Runtime.Errors.{Error, message, ok}
use easyhooks.Runtime.Fake.{Fake, fake, quiet, start}
use easyhooks.Config.Example.{example_config}
use easyhooks.Security.Fake.{toy, plain_uuid}
use easyhooks.Service.Fanout.{panicked}
use easyhooks.Service.Fanout.Reach.{here}
use easyhooks.Service.Fanout.Example.{
  event, full, gone, only_first, full-Inv, full-full, full-gone, full-there, full-cap, gone-buffer,
}
use easyhooks.Handler.Socket.Live.{Forwarded, forward, close_forward, serve_connection}
use easyhooks.Handler.Socket.Live.Leaves.{dropped-forward}
use easyhooks.Handler.Socket.Live.Gauge.{gauge, settled_gauge, serve_connection-gauge}

abbrev written : Bytes → Fake → Option Error × Fake
written payload w = (none, w)

abbrev broken : Bytes → Fake → Option Error × Fake
broken payload w = (some (message (codes "broken pipe")), w)

abbrev gone_client : Fake → Option Error × Fake
gone_client w = (some (message (codes "close 1006")), w)

abbrev live : Fake → Bool × Fake
live w = (false, w)

dropped-forward_example :
    (after : Forwarded) × ((forward plain_uuid (codes "t") written live 2 0 gone (start quiet)).0
      ≡ ok after)
    × (close_forward 0 after ≡ panicked)
dropped-forward_example =
    dropped-forward plain_uuid (codes "t") written live event (0 ∷ []) (0 ∷ []) full full gone gone
      0 2 (start quiet) full-Inv only_first full-there full-cap full-full full-gone here gone-buffer

serve_connection-gauge_example :
    (ended : Bool) × ((serve_connection fake toy plain_uuid example_config broken gone_client 1
        (codes "t")
        (start quiet)).0
      ≡ ok ended)
    × (gauge
          (codes "t")
          (serve_connection fake toy plain_uuid example_config broken gone_client 1
            (codes "t")
            (start quiet)).1.events
        ≡ settled_gauge (codes "t") (codes "t") ended (pos 0))
unfolding gauge
serve_connection-gauge_example =
    serve_connection-gauge fake toy plain_uuid example_config broken gone_client (codes "t") 1
      (codes "t") (start quiet)
