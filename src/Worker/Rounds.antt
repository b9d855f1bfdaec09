-- ===== src/Worker/Rounds.antt =====
-- Rules for the loop: what every step of a round keeps, the loop keeps.
use easyhooks.Prelude.{ℕ, zero, suc, Bytes, Option, none, some, List, [], ◌∷◌, ◌≡◌, refl, if_rule}
use easyhooks.Runtime.Errors.{Error, is_context_done, Result, ok, err}
use easyhooks.Runtime.Events.{Xmessage, sent, xack}
use easyhooks.Runtime.Env.{Env}
use easyhooks.Runtime.Exec.{State, Exec, ◌>>=◌}
use easyhooks.Runtime.Exec.Keeps.{
  Keeps, Keeps-pure, Keeps-attempt, Keeps-wrap, Keeps-if, Keeps-command, Keeps-bind, Keeps-count,
}
use easyhooks.Config.{Config}
use easyhooks.Streams.Queue.{Reader, read, ack}
use easyhooks.Service.Envelope.{WebhookEnvelope}
use easyhooks.Service.Processor.Steps.{Stable, HandlerKeeps, process_message-Keeps}
use easyhooks.Worker.{
  Loop, running, stopped, consume, batch, handle_read, round, go_on, enter, rounds,
}

module _ {W : Type 0} (env : Env W) (cfg : Config) (reader : Reader)
    (handler : WebhookEnvelope → Exec W Unit) where
  -- No error leaves an entry, a batch or a round.
  pub consume-ok : (m : Xmessage) (s : State W) → (consume env cfg reader handler m s).0 ≡ ok tt
  unfolding consume ◌>>=◌
  consume-ok m s = refl

  pub batch-ok : (ms : List Xmessage) (s : State W) → (batch env cfg reader handler ms s).0 ≡ ok tt
  unfolding batch ◌>>=◌
  batch-ok [] s = refl
  batch-ok (m ∷ ms) s = rw (consume-ok m s) (batch-ok ms (consume env cfg reader handler m s).1)

  pub handle_read-ok :
      (r : Result (List Xmessage)) (s : State W)
      → (l : Loop) × ((handle_read env cfg reader handler r s).0 ≡ ok l)
  unfolding handle_read ◌>>=◌
  handle_read-ok (ok ms) s = (running, rw (batch-ok ms s) refl)
  handle_read-ok (err e) s =
      if_rule (λ (m : Exec W Loop). (l : Loop) × ((m s).0 ≡ ok l)) (is_context_done e)
        (λ _. (stopped, refl)) (λ _. (running, refl))

  pub round-ok : (s : State W) → (l : Loop) × ((round env cfg reader handler s).0 ≡ ok l)
  unfolding round ◌>>=◌
  round-ok s = handle_read-ok (read env reader s).0 (read env reader s).1

  module _ {P : State W → Type 0} (stable : Stable env P) (handles : HandlerKeeps P handler)
      (acks : (stream group : Bytes) (ids : List Bytes) (s : State W)
        → P s
        → P (record {
          world = (env.xack stream group ids s.world).1;
          events = sent (xack stream group ids) ∷ s.events;
        })) where
    ack-Keeps : (ids : List Bytes) → Keeps P (ack env reader ids)
    unfolding ack
    ack-Keeps [] = Keeps-pure tt
    ack-Keeps (id ∷ ids) =
        Keeps-bind (Keeps-wrap _ (Keeps-command _ _ (acks _ _ _))) (λ n. Keeps-pure tt)

    consume-Keeps : (m : Xmessage) → Keeps P (consume env cfg reader handler m)
    unfolding consume
    consume-Keeps m = Keeps-bind (Keeps-count _ (stable.counts _)) (λ _.
        Keeps-bind (Keeps-attempt (process_message-Keeps stable cfg handler m handles))
          (λ _. Keeps-bind (Keeps-attempt (ack-Keeps (m.id ∷ []))) (λ _. Keeps-pure tt)))

    pub batch-Keeps : (ms : List Xmessage) → Keeps P (batch env cfg reader handler ms)
    unfolding batch
    batch-Keeps [] = Keeps-pure tt
    batch-Keeps (m ∷ ms) = Keeps-bind (consume-Keeps m) (λ _. batch-Keeps ms)

    pub handle_read-Keeps :
        (r : Result (List Xmessage)) → Keeps P (handle_read env cfg reader handler r)
    unfolding handle_read
    handle_read-Keeps (ok ms) = Keeps-bind (batch-Keeps ms) (λ _. Keeps-pure running)
    handle_read-Keeps (err e) =
        Keeps-if (is_context_done e) (λ _. Keeps-pure stopped) (λ _. Keeps-pure running)

  -- A predicate that a round keeps is kept by the loop.
  module _ {P : State W → Type 0} (keeps : Keeps P (round env cfg reader handler)) where
    go_on-Keeps : (l : Loop) {rest : Exec W Loop} → Keeps P rest → Keeps P (go_on rest l)
    go_on-Keeps running k = k
    go_on-Keeps stopped k = Keeps-pure stopped

    enter-Keeps : (o : Option Error) {rest : Exec W Loop} → Keeps P rest → Keeps P (enter o rest)
    enter-Keeps none k = k
    enter-Keeps (some e) k = Keeps-pure stopped

    pub rounds-Keeps : (n : ℕ) → Keeps P (rounds env cfg reader handler n)
    unfolding rounds
    rounds-Keeps zero = Keeps-pure running
    rounds-Keeps (suc n) = record {
      at = λ s h.
          (enter-Keeps (env.context_err s.world)
              (Keeps-bind keeps (λ l. go_on-Keeps l (rounds-Keeps n)))).at
            s h;
    }
