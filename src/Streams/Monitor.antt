-- ===== src/Streams/Monitor.antt =====
-- go-api/internal/streams/monitor.go. The monitor's goroutine is the only writer of the two
-- atomics, so an update is a function of the record. `Update` gives its metrics newest first.
pub mod Marks
pub mod Hysteresis
pub mod Gauges
pub mod Shedding
pub mod Polling
mod Tests
use easyhooks.Prelude.{
  ℕ, ℤ, pos, Bytes, Bool, true, false, not, ◌&&◌, List, [], ◌∷◌, ◌++◌, Option, none, some, leb_ℤ,
  ltb_ℤ, ◌+ℤ◌, ◌*ℤ◌, quot_ℤ, wrap64, bytes_eq, if◌then◌else◌,
}
use easyhooks.Runtime.Errors.{Result, ok, err}
use easyhooks.Runtime.Events.{
  GroupInfo, Metric, ingest_queue_depth, ingest_load_shedding_active, xinfo_groups, Event, counted,
}
use easyhooks.Runtime.Env.{Env}
use easyhooks.Runtime.Exec.{State, Exec, pure, attempt, command, count, ◌>>=◌, ◌>>◌}

pub record Monitor : Type 0 where
  pub stream : Bytes
  pub group : Bytes
  pub high_water : ℤ
  pub low_water : ℤ
  pub backlog : ℤ
  pub shedding : Bool

-- The two clamps of the percentage.
pub clamp_pct : ℤ → ℤ
clamp_pct pct =
    let p = if ltb_ℤ pct (pos 0) then pos 0 else pct in if ltb_ℤ (pos 100) p then pos 100 else p

pub mark_of : ℤ → ℤ → ℤ
mark_of high pct =
    let low = quot_ℤ (wrap64 (high *ℤ pct)) 100 in if ltb_ℤ high low then high else low

pub low_mark : ℤ → ℤ → ℤ
unfolding clamp_pct mark_of
low_mark high pct = mark_of high (clamp_pct pct)

pub new_queue_depth_monitor : Bytes → Bytes → ℤ → ℤ → Monitor
new_queue_depth_monitor stream group high pct = record {
  stream = stream;
  group = group;
  high_water = high;
  low_water = low_mark high pct;
  backlog = pos 0;
  shedding = false;
}

unfoldable pub should_shed : Monitor → Bool
should_shed m = if leb_ℤ m.high_water (pos 0) then false else m.shedding

pub update : Monitor → ℤ → Monitor × List Metric
update m b =
    if leb_ℤ m.high_water (pos 0)
    then (stored, depth)
    else if not m.shedding && leb_ℤ m.high_water b
    then (record stored { shedding = true }, ingest_load_shedding_active true ∷ depth)
    else if m.shedding && leb_ℤ b m.low_water
    then (record stored { shedding = false }, ingest_load_shedding_active false ∷ depth)
    else (stored, depth)
  where
    stored : Monitor
    stored = record m { backlog = b }

    depth : List Metric
    depth = ingest_queue_depth m.stream b ∷ []

-- The loop over the groups: the sample of the first group with the monitor's name, unless its lag
-- is undefined.
pub sample : Bytes → List GroupInfo → Option ℤ
sample group [] = none
sample group (g ∷ gs) =
    if not (bytes_eq g.name group)
    then sample group gs
    else if ltb_ℤ g.lag (pos 0)
    then none
    else some (wrap64 (g.lag +ℤ g.pending))

record_metrics : {W : Type 0} → List Metric → State W → State W
record_metrics [] s = s
record_metrics (m ∷ ms) s =
    let s' = record_metrics ms s in record s' { events = counted m ∷ s'.events }

pub apply_update : {W : Type 0} → Monitor → ℤ → Exec W Monitor
unfolding record_metrics
apply_update m b s = let (m', metrics) = update m b in (ok m', record_metrics metrics s)

apply_sample : {W : Type 0} → Monitor → Option ℤ → Exec W Monitor
apply_sample m none = pure m
apply_sample m (some b) = apply_update m b

apply_reply : {W : Type 0} → Monitor → Result (List GroupInfo) → Exec W Monitor
unfolding apply_sample
apply_reply m (err e) = pure m
apply_reply m (ok groups) = apply_sample m (sample m.group groups)

-- What the ticker and the context offer to the loop of `Run`.
pub data Signal : Type 0 where
  tick done : Signal

-- The poll interval in nanoseconds, a second by default.
pub tick_interval : ℤ → ℤ
tick_interval d = if leb_ℤ d (pos 0) then pos 1_000_000_000 else d

module _ {W : Type 0} (env : Env W) where
  pub poll : Monitor → Exec W Monitor
  unfolding apply_reply
  poll m = do
    r ← attempt (command (xinfo_groups m.stream) (env.xinfo_groups m.stream))
    apply_reply m r

  pub run : Monitor → List Signal → Exec W Monitor
  run m [] = pure m
  run m (done ∷ signals) = pure m
  run m (tick ∷ signals) = poll m >>= λ m'. run m' signals
