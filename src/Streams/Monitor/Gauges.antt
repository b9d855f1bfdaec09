-- ===== src/Streams/Monitor/Gauges.antt =====
-- What the gauges show after a history of samples.
use easyhooks.Prelude.{ℤ, pos, Bool, false, List, [], ◌∷◌, ◌++◌, ◌≡◌, arith}
use easyhooks.Runtime.Events.{Metric, ingest_queue_depth, ingest_load_shedding_active}
use easyhooks.Streams.Monitor.{Monitor, update}
use easyhooks.Streams.Monitor.Hysteresis.{after}

-- All metrics of a history, newest first.
pub metrics_after : Monitor → List ℤ → List Metric
metrics_after m [] = []
metrics_after m (b ∷ bs) = (update (after m bs) b).1 ++ metrics_after m bs

-- The value that the gauge IngestLoadSheddingActive shows, 0 before the first update.
pub shown_shedding : List Metric → Bool
shown_shedding [] = false
shown_shedding (ingest_load_shedding_active b ∷ ms) = b
shown_shedding (_ ∷ ms) = shown_shedding ms

-- The value that the gauge IngestQueueDepth shows.
pub shown_depth : List Metric → ℤ
shown_depth [] = pos 0
shown_depth (ingest_queue_depth stream n ∷ ms) = n
shown_depth (_ ∷ ms) = shown_depth ms

update-shown :
    (m : Monitor) (b : ℤ) (ms : List Metric)
    → shown_shedding ms ≡ m.shedding
    → (shown_shedding ((update m b).1 ++ ms) ≡ (update m b).0.shedding)
      × (shown_depth ((update m b).1 ++ ms) ≡ (update m b).0.backlog)
unfolding update shown_shedding shown_depth
update-shown m b ms h = ground arith

-- Whatever the samples, the two gauges show the flag and the last sample of a monitor that starts
-- with its flag down and no backlog.
pub metrics_after-shown :
    (m : Monitor) (bs : List ℤ)
    → m.shedding ≡ false
    → m.backlog ≡ pos 0
    → (shown_shedding (metrics_after m bs) ≡ (after m bs).shedding)
      × (shown_depth (metrics_after m bs) ≡ (after m bs).backlog)
unfolding metrics_after after
metrics_after-shown m [] off empty = unfold shown_shedding shown_depth in (cc (off), cc (empty))
metrics_after-shown m (b ∷ bs) off empty =
    update-shown (after m bs) b (metrics_after m bs) (metrics_after-shown m bs off empty).0
