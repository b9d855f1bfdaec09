-- ===== src/Boot/Monitor.antt =====
-- go-api/cmd/api/main.go: the loop that watches the memory of Redis while the server runs.
use easyhooks.Prelude.{ℕ, suc, List, [], ◌∷◌, length, ◌≡◌, refl, ap, ◌∙◌}
use easyhooks.Runtime.Errors.{Result, ok}
use easyhooks.Runtime.Env.{Env}
use easyhooks.Runtime.Exec.{State, Exec, pure, ◌>>=◌, continue}
use easyhooks.Runtime.Exec.Succeeds.{Succeeds, Succeeds-pure, Succeeds-bind, Succeeds-attempt}
use easyhooks.Streams.Monitor.{Signal, tick, done}
use easyhooks.Boot.{MemoryNote, memory_tick}

-- The ticks until the end of the context.
abbrev pub ticks_before : List Signal → ℕ
ticks_before [] = 0
ticks_before (done ∷ signals) = 0
ticks_before (tick ∷ signals) = suc (ticks_before signals)

module _ {W : Type 0} (env : Env W) where
  -- `runMemoryMonitor`, by the signals that its `select` takes: the lines that it logs.
  unfoldable pub run_memory_monitor : List Signal → Exec W (List MemoryNote)
  run_memory_monitor [] = pure []
  run_memory_monitor (done ∷ signals) = pure []
  run_memory_monitor (tick ∷ signals) = do
    note ← memory_tick env
    notes ← run_memory_monitor signals
    pure (note ∷ notes)

  memory_tick-Succeeds : Succeeds (memory_tick env)
  unfolding memory_tick
  memory_tick-Succeeds = Succeeds-bind (Succeeds-attempt _) (λ r. Succeeds-pure _)

  -- Each tick before the end of the context logs one line, also where INFO fails.
  pub run_memory_monitor-length :
      (signals : List Signal) (s : State W)
      → (notes : List MemoryNote) × ((run_memory_monitor signals s).0 ≡ ok notes)
        × (length notes ≡ ticks_before signals)
  unfolding run_memory_monitor ◌>>=◌
  run_memory_monitor-length [] s = ([], refl, refl)
  run_memory_monitor-length (done ∷ signals) s = ([], refl, refl)
  run_memory_monitor-length (tick ∷ signals) s =
      let (note, first) = memory_tick-Succeeds.value s in
      let after = (memory_tick env s).1 in
      let (notes, rest, count) = run_memory_monitor-length signals after in
      (
        note ∷ notes,
        ap
              (λ (r : Result MemoryNote).
                (continue r
                  (λ (n : MemoryNote).
                    (run_memory_monitor signals >>= λ (ns : List MemoryNote). pure (n ∷ ns)))
                  after).0)
              first
            ∙ ap
                (λ (r : Result (List MemoryNote)).
                  (continue r (λ (ns : List MemoryNote). pure (note ∷ ns))
                    (run_memory_monitor signals after).1).0)
                rest,
        ap (λ (k : ℕ). suc k) count,
      )
