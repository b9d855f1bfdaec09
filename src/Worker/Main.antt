-- ===== src/Worker/Main.antt =====
-- go-api/cmd/worker/main.go: the whole of main, with the loop for so many rounds at most.
use easyhooks.Prelude.{ℕ, ◌<◌, Bytes, Bool, ◌≡◌, refl, ap, ◌∙◌, ◌⊎◌, inl, inr}
use easyhooks.Runtime.Errors.{Error, Result, ok, err}
use easyhooks.Runtime.Env.{Env}
use easyhooks.Runtime.Exec.{State, Exec, pure, ◌>>=◌, continue}
use easyhooks.Config.{Config}
use easyhooks.Service.Streams.{UuidLib}
use easyhooks.Service.Processor.{redis_streams_handler}
use easyhooks.Service.Fanout.{Outcome}
use easyhooks.Redis.{Options}
use easyhooks.Tracing.{TracingLib, Shutdown}
use easyhooks.Boot.{close_tracing}
use easyhooks.Worker.{Loop, running, stopped, rounds}
use easyhooks.Worker.Start.{Ready, start_worker}
use easyhooks.Worker.Stops.{Lasts, rounds-stopped}

-- How main goes: its loop still runs, or main returned, by its deferred calls.
pub data Main : Type 0 where
  in_loop : Main
  returned : Outcome Shutdown → Main

module _ {W : Type 0} (env : Env W) (uuid : UuidLib) (parse_url : Bytes → Result Options)
    (tracing : TracingLib W) (has_gomemlimit : Bool) (hostname : Result Bytes) where
  unfoldable pub after_loop : Ready → Loop → Main
  after_loop ready running = in_loop
  after_loop ready stopped = returned (close_tracing ready.shutdown_tracing)

  unfoldable pub work : ℕ → Ready → Exec W Main
  work n ready = do
    loop ← rounds env ready.cfg ready.reader (redis_streams_handler env uuid ready.cfg) n
    pure (after_loop ready loop)

  -- A failed start is `os.Exit(1)`.
  unfoldable pub worker_main : ℕ → Result Config → Exec W Main
  worker_main n parsed =
      start_worker env parse_url tracing has_gomemlimit hostname parsed >>= work n

  -- How main ends: it returned with the deferred end of the tracing, or exited as the start failed.
  abbrev pub Ends : Result Ready × State W → Result Main × State W → Type 0
  Ends begun after =
      ((ready : Ready) × (begun.0 ≡ ok ready)
        × (after.0 ≡ ok (returned (close_tracing ready.shutdown_tracing))))
      ⊎ ((e : Error) × (begun.0 ≡ err e) × (after ≡ (err e, begun.1)))

  -- The worker's main ends: if the context lasts for a bounded number of reads, as `Lasts` says,
  -- then with more rounds than reads that are left after the start, a worker that started leaves
  -- its loop, whatever the reads and the processing give, and comes to the deferred end of the
  -- tracing; one that did not exits with the error of the start, in the state after it.
  pub worker_main-Ends :
      {left : W → ℕ} (lasts : Lasts env left) (n : ℕ) (parsed : Result Config) (s : State W)
      → let begun = start_worker env parse_url tracing has_gomemlimit hostname parsed s in
        left begun.1.world < n → Ends begun (worker_main n parsed s)
  unfolding worker_main work after_loop ◌>>=◌
  worker_main-Ends lasts n parsed s h = by_start begun.0 refl
    where
      begun : Result Ready × State W
      begun = start_worker env parse_url tracing has_gomemlimit hostname parsed s

      looped : Ready → Result Loop × State W
      looped ready =
          rounds env ready.cfg ready.reader (redis_streams_handler env uuid ready.cfg) n begun.1

      by_start : (r : Result Ready) → begun.0 ≡ r → Ends begun (worker_main n parsed s)
      by_start (ok ready) e = inl (
        ready,
        e,
        ap (λ (r : Result Ready). (continue r (work n) begun.1).0) e
            ∙ ap
                (λ (r : Result Loop).
                  (continue r (λ (l : Loop). pure (after_loop ready l)) (looped ready).1).0)
                (rounds-stopped env lasts ready.cfg ready.reader uuid n begun.1 h),
      )
      by_start (err x) e = inr (x, e, ap (λ (r : Result Ready). continue r (work n) begun.1) e)
