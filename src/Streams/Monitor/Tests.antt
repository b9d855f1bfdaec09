-- ===== src/Streams/Monitor/Tests.antt =====
-- Runs of the monitor, and its theorems at concrete inputs: a high mark of 100, and a group that
-- is named third in the reply.
use easyhooks.Prelude.{
  ℤ, pos, negsuc, Bytes, codes, ◌*ℤ◌, quot_ℤ, wrap64, true, false, List, [], ◌∷◌, ◌≡◌, refl, ◌↔◌,
  arith, not,
}
use easyhooks.Runtime.Errors.{ok, err, canceled}
use easyhooks.Runtime.Events.{GroupInfo}
use easyhooks.Runtime.Fake.{Fake, quiet}
use easyhooks.Streams.Monitor.{
  Monitor, new_queue_depth_monitor, should_shed, update, clamp_pct, low_mark,
}
use easyhooks.Streams.Monitor.Hysteresis.{after, Engaged}
use easyhooks.Streams.Monitor.Shedding.{new-Engaged, full_pct_flaps, zero_pct_holds}

abbrev at_80 : Monitor
at_80 = new_queue_depth_monitor (codes "events:in") (codes "webhook-workers") (pos 100) (pos 80)

abbrev group_of : Bytes → ℤ → ℤ → GroupInfo
group_of name lag pending = record { name = name; pending = pending; lag = lag }

abbrev groups : List GroupInfo
groups =
    group_of (codes "a") (pos 1) (pos 1) ∷ group_of (codes "webhook-workers") (pos 70) (pos 50) ∷ []

-- Between the marks the decision stays.
marks_of_100 : low_mark (pos 100) (pos 80) ≡ pos 80
unfolding low_mark quot_ℤ wrap64 ◌*ℤ◌
marks_of_100 = refl

holds_between : should_shed (after at_80 (pos 90 ∷ pos 100 ∷ [])) ≡ true
unfolding should_shed after update new_queue_depth_monitor low_mark quot_ℤ wrap64 ◌*ℤ◌
holds_between = refl

releases_at_low : should_shed (after at_80 (pos 80 ∷ pos 100 ∷ [])) ≡ false
unfolding should_shed after update new_queue_depth_monitor low_mark quot_ℤ wrap64 ◌*ℤ◌
releases_at_low = refl

new-Engaged_example :
    (should_shed (after at_80 (pos 90 ∷ pos 100 ∷ [])) ≡ true)
    ↔ Engaged (pos 100) (pos 80) (pos 90 ∷ pos 100 ∷ [])
unfolding clamp_pct
new-Engaged_example =
    new-Engaged (codes "events:in") (codes "webhook-workers") 100 (pos 80) (pos 90 ∷ pos 100 ∷ [])
      (omega arith) (omega arith) (omega arith)

abbrev disabled : Monitor
disabled = new_queue_depth_monitor (codes "events:in") (codes "webhook-workers") (negsuc 4) (pos 80)

full_pct_flaps_example :
    should_shed (
      after
        (new_queue_depth_monitor (codes "s") (codes "g") (pos 100) (pos 100))
        (pos 100 ∷ pos 100 ∷ []))
    ≡ not (
        should_shed (
          after
            (new_queue_depth_monitor (codes "s") (codes "g") (pos 100) (pos 100))
            (pos 100 ∷ [])))
full_pct_flaps_example =
    full_pct_flaps (codes "s") (codes "g") 100 (pos 100) (pos 100 ∷ []) (omega arith) (omega arith)
      (omega arith)

zero_pct_holds_example :
    should_shed (
      after
        (new_queue_depth_monitor (codes "s") (codes "g") (pos 100) (pos 0))
        (pos 1 ∷ pos 100 ∷ []))
    ≡ true
unfolding should_shed after update new_queue_depth_monitor low_mark quot_ℤ wrap64 ◌*ℤ◌
zero_pct_holds_example =
    zero_pct_holds (codes "s") (codes "g") 100 (pos 0) (pos 1) (pos 100 ∷ []) (omega arith)
      (omega arith) (omega arith) refl

abbrev reachable : Fake
reachable = record quiet { groups = ok groups }

abbrev unreachable : Fake
unreachable = record quiet { groups = err canceled }
