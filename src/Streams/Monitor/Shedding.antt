-- ===== src/Streams/Monitor/Shedding.antt =====
-- The shedding decision of a monitor as the API builds it.
use easyhooks.Prelude.{
  ℕ, ◌*◌, ◌/◌, ◌^◌, ◌<◌, ℤ, pos, ◌≤ℤ◌, ◌<ℤ◌, Bytes, true, false, not, List, ◌∷◌, ◌≡◌, refl, subst,
  ◌↔◌, arith,
}
use easyhooks.Streams.Monitor.{Monitor, should_shed, new_queue_depth_monitor, update}
use easyhooks.Streams.Monitor.Marks.{low_mark-eq, low_mark-lt, pct_of, low_mark-zero, low_mark-full}
use easyhooks.Streams.Monitor.Hysteresis.{after, after-marks, Engaged, IsReady, should_shed-Engaged}

module _ (stream group : Bytes) (h : ℕ) (pct : ℤ) where
  new-IsReady :
      0 < h
      → h * 100 < 2 ^ 63
      → pct <ℤ pos 100
      → IsReady (new_queue_depth_monitor stream group (pos h) pct)
  unfolding new_queue_depth_monitor
  new-IsReady p b lt = record {
    positive = omega arith;
    apart = low_mark-lt h pct p b lt;
    released = refl;
  }

  -- A new monitor with a positive high mark whose hundredfold fits 64 bits, and a percentage below
  -- 100, sheds after a history of samples exactly when some sample reached the high mark and every
  -- later one stayed above the low mark, which is the clamped percentage of the high mark.
  pub new-Engaged :
      (bs : List ℤ)
      → 0 < h
      → h * 100 < 2 ^ 63
      → pct <ℤ pos 100
      → (should_shed (after (new_queue_depth_monitor stream group (pos h) pct) bs) ≡ true)
        ↔ Engaged (pos h) (pos (h * pct_of pct / 100)) bs
  unfolding new_queue_depth_monitor
  new-Engaged bs p b lt =
      let m = new_queue_depth_monitor stream group (pos h) pct in
      subst (λ low. (should_shed (after m bs) ≡ true) ↔ Engaged (pos h) low bs)
        (low_mark-eq h pct b) (should_shed-Engaged m bs (new-IsReady p b lt))

-- A high mark of 0 or less turns shedding off, whatever the samples.
pub should_shed-off :
    (m : Monitor) (bs : List ℤ) → m.high_water ≤ℤ pos 0 → should_shed (after m bs) ≡ false
unfolding should_shed
should_shed-off m bs off = ground (arith, after-marks m bs)

flap :
    (m : Monitor) (bs : List ℤ)
    → pos 0 <ℤ m.high_water
    → m.low_water ≡ m.high_water
    → should_shed (after m (m.high_water ∷ bs)) ≡ not (should_shed (after m bs))
unfolding should_shed after update
flap m bs p e = ground (arith, after-marks m bs)

-- With a positive high mark whose hundredfold fits 64 bits, and a percentage of 100 or more, a
-- sample at the high mark flips the decision of a new monitor after any history, whatever it was.
pub full_pct_flaps :
    (stream group : Bytes) (h : ℕ) (pct : ℤ) (bs : List ℤ)
    → 0 < h
    → h * 100 < 2 ^ 63
    → pos 100 ≤ℤ pct
    → let m = new_queue_depth_monitor stream group (pos h) pct in
      should_shed (after m (pos h ∷ bs)) ≡ not (should_shed (after m bs))
unfolding new_queue_depth_monitor
full_pct_flaps stream group h pct bs p fits full =
    flap (new_queue_depth_monitor stream group (pos h) pct) bs (omega arith)
      (low_mark-full h pct fits full)

stays :
    (m : Monitor) (b : ℤ) (bs : List ℤ)
    → m.low_water <ℤ b
    → should_shed (after m bs) ≡ true
    → should_shed (after m (b ∷ bs)) ≡ true
unfolding should_shed after update
stays m b bs lt on = ground (arith, after-marks m bs)

-- With a high mark whose hundredfold fits 64 bits and a percentage of 0 or less, a new monitor
-- that sheds after some history goes on shedding at every backlog above 0, however far below the
-- high mark.
pub zero_pct_holds :
    (stream group : Bytes) (h : ℕ) (pct b : ℤ) (bs : List ℤ)
    → h * 100 < 2 ^ 63
    → pct ≤ℤ pos 0
    → pos 0 <ℤ b
    → should_shed (after (new_queue_depth_monitor stream group (pos h) pct) bs) ≡ true
    → should_shed (after (new_queue_depth_monitor stream group (pos h) pct) (b ∷ bs)) ≡ true
unfolding new_queue_depth_monitor
zero_pct_holds stream group h pct b bs fits z lt =
    stays (new_queue_depth_monitor stream group (pos h) pct) b bs
      (rw (low_mark-zero h pct fits z) lt)
