-- ===== src/Service/Fanout/Example.antt =====
-- A fan-out with one subscription, whose channel takes one event.
use easyhooks.Prelude.{pos, codes, [], ◌∷◌, ◌≡◌, refl, arith, true, length, ◌≤◌, ◌<◌}
use easyhooks.Config.{Config}
use easyhooks.Config.Example.{example_config}
use easyhooks.Service.Streams.{StreamEvent}
use easyhooks.Service.Fanout.{
  Fanout, fine, new_channel, new_tenant_fanout, write, has, subscribe, fan_out, reap, pushed,
}
use easyhooks.Service.Fanout.Subscribers.{Inv, new-Inv, subscribe-Inv}
use easyhooks.Service.Fanout.Offers.{IsOrder}
use easyhooks.Service.Fanout.Reach.{offers, reaped, reap-reaped, Step-Inv}

abbrev pub narrow : Config
narrow = record example_config { ws_fanout_buffer_size = pos 1 }

abbrev pub event : StreamEvent
event = record { id = codes "1-0"; payload = codes "{}" }

-- Nobody there, one subscription, one with a full channel.
abbrev pub empty : Fanout
empty = new_tenant_fanout narrow

abbrev pub one : Fanout
one = subscribe empty

pub only_first : IsOrder one.subs (0 ∷ [])
only_first = record {
  distinct = (unfold has in refl, tt);
  same = λ id. unfold subscribe new_tenant_fanout in refl;
}

pub one-Inv : Inv one
one-Inv = subscribe-Inv empty (new-Inv narrow)

abbrev pub full : Fanout
full = record one { channels = write one.channels 0 (pushed event new_channel) }

pub one-full : fan_out event (0 ∷ []) one ≡ fine (full, [])
unfolding fan_out subscribe new_tenant_fanout
one-full = refl

pub full-Inv : Inv full
full-Inv = Step-Inv (offers event (0 ∷ []) [] only_first one-full) one-Inv

pub full-full : fan_out event (0 ∷ []) full ≡ fine (full, 0 ∷ [])
unfolding fan_out subscribe new_tenant_fanout
full-full = refl

abbrev pub gone : Fanout
gone = reaped (0 ∷ []) full

pub full-gone : reap (0 ∷ []) full ≡ fine gone
full-gone = reap-reaped (0 ∷ []) full full-Inv

-- What the drop of the subscription rests on, and the channel behind it.
pub full-there : has full.subs 0 ≡ true
full-there = unfold has subscribe new_tenant_fanout in refl

pub full-cap : full.cap ≤ length (full.channels 0).buffer
full-cap = unfold subscribe new_tenant_fanout in omega arith

pub gone-buffer : length (gone.channels 0).buffer < 2
gone-buffer = unfold reaped has subscribe new_tenant_fanout in omega arith
