-- ===== src/Worker/Start/Readers.antt =====
-- What the worker's loop starts with.
use easyhooks.Runtime.Exec.Yields.{Yields, Yields-pure, Yields-bind}
use easyhooks.Prelude.{pos, ltb_ℤ, Bytes, Bool, true, [], ◌∷◌, ◌≡◌, ◌≢◌, refl, sym, ap, ◌∙◌, arith}
use easyhooks.Runtime.Errors.{Result, ok, err}
use easyhooks.Runtime.Env.{Env}
use easyhooks.Runtime.Exec.{State, ◌>>=◌}
use easyhooks.Config.{Config, Loaded, loaded, load}
use easyhooks.Streams.Queue.{Reader, new_reader}
use easyhooks.Redis.{Options}
use easyhooks.Tracing.{TracingLib}
use easyhooks.Boot.{loaded_or_exit}
use easyhooks.Worker.Start.{Ready, consumer_name, start_loaded, start_worker}

-- A reader of the settings' stream and group, with a name, and with at least one entry for a read.
pub record ReadsAs (cfg : Config) (r : Reader) : Type 0 where
  pub stream : r.stream ≡ cfg.event_stream_key
  pub group : r.group ≡ cfg.consumer_group
  pub named : r.consumer ≢ []
  pub some_entries : ltb_ℤ (pos 0) r.count ≡ true

consumer_name-named : (hostname : Result Bytes) → consumer_name hostname ≢ []
unfolding consumer_name
consumer_name-named (err e) h = cc
consumer_name-named (ok []) h = cc
consumer_name-named (ok (c ∷ name)) h = cc

new_reader-ReadsAs :
    (cfg : Config) (consumer : Bytes)
    → consumer ≢ []
    → ReadsAs cfg (
        new_reader cfg.event_stream_key cfg.consumer_group consumer cfg.stream_block_ms
          cfg.stream_count)
unfolding new_reader
new_reader-ReadsAs cfg consumer n = record {
  stream = refl;
  group = refl;
  named = n;
  some_entries = ground arith;
}

module _ {W : Type 0} (env : Env W) (parse_url : Bytes → Result Options) (tracing : TracingLib W)
    (has_gomemlimit : Bool) (hostname : Result Bytes) where
  start_loaded-Yields :
      (cfg : Config)
      → Yields
          (λ (r : Ready). ReadsAs cfg r.reader)
          (start_loaded env parse_url tracing has_gomemlimit hostname cfg)
  unfolding start_loaded
  start_loaded-Yields cfg = Yields-bind _ (λ u. Yields-bind _ (λ tracer. Yields-bind _ (λ client.
      Yields-bind _ (λ memory. Yields-bind _ (λ v.
        Yields-pure _
          (new_reader-ReadsAs cfg (consumer_name hostname) (consumer_name-named hostname)))))))

  -- If the worker starts, whatever the hostname and the setting of the count, its reader asks for
  -- entries of the configured stream by the configured group, under a name that is not empty and
  -- with a positive count.
  pub start_worker-ReadsAs :
      (parsed : Result Config) (cfg : Config) (s : State W) (ready : Ready)
      → load parsed ≡ loaded cfg
      → (start_worker env parse_url tracing has_gomemlimit hostname parsed s).0 ≡ ok ready
      → ReadsAs cfg ready.reader
  unfolding start_worker start_loaded ◌>>=◌
  start_worker-ReadsAs parsed cfg s ready l h = (start_loaded-Yields cfg).at s ready (
      sym (
        ap
          (λ (x : Loaded).
            ((loaded_or_exit x >>= start_loaded env parse_url tracing has_gomemlimit hostname) s).0)
          l)
      ∙ h)
