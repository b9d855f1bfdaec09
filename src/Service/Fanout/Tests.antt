-- ===== src/Service/Fanout/Tests.antt =====
-- The fan-out at a channel of one event, with the theorems applied there.
use easyhooks.Prelude.{ℕ, List, [], ◌∷◌, ◌≡◌, ◌≢◌, refl}
use easyhooks.Service.Fanout.{
  Channel, fine, panicked, new_tenant_fanout, delete, has, subscribe, fan_out, reap,
}
use easyhooks.Service.Fanout.Subscribers.{Inv}
use easyhooks.Service.Fanout.Offers.{Delivers, fan_out-Delivers}
use easyhooks.Service.Fanout.Reach.{joins, offers, here, next, reaped, Reach-safe}
use easyhooks.Service.Fanout.Drops.{reap-subscribe}
use easyhooks.Service.Fanout.Example.{
  narrow, event, only_first, full, one-full, full-Inv, gone, full-gone,
}

fan_out-Delivers_example :
    (channels : ℕ → Channel) × (dead : List ℕ) × (fan_out event (0 ∷ []) full
      ≡ fine (record full { channels = channels }, dead))
    × Delivers event full.cap full.subs full.channels channels dead
fan_out-Delivers_example = fan_out-Delivers event (0 ∷ []) full full-Inv only_first

Reach-safe_example :
    Inv full × (fan_out event (0 ∷ []) full ≢ panicked) × (reap (0 ∷ []) full ≢ panicked)
Reach-safe_example =
    Reach-safe narrow full event (0 ∷ []) (0 ∷ [])
      (next (next here joins) (offers event (0 ∷ []) [] only_first one-full)) only_first

reap-subscribe_example :
    (gone.readers ≡ full.readers) × ((subscribe gone).readers ≡ gone.next_reader ∷ full.readers)
reap-subscribe_example =
    reap-subscribe (0 ∷ []) full gone full-Inv full-gone
      (unfold reaped has delete subscribe new_tenant_fanout in refl)
