-- ===== src/Service/Fanout/Reader.antt =====
-- go-api/internal/service/fanout.go: the loop of a tenant's reader, with nobody else at the lock
-- meanwhile. The order in which the map gives the subscriptions is an argument.
use easyhooks.Prelude.{ℕ, List, [], ◌∷◌, ◌≡◌, refl, ap, ◌∙◌}
use easyhooks.Service.Streams.{StreamEvent}
use easyhooks.Service.Fanout.{Fanout, Outcome, fine, and_then, fan_out, reap}
use easyhooks.Service.Fanout.Subscribers.{Inv}
use easyhooks.Service.Fanout.Offers.{IsOrder, fan_out-Delivers}
use easyhooks.Service.Fanout.Reach.{Reach, next, offers, reaps, reaped, reap-reaped, Step-Inv}

-- What the `select` takes: an event, or the end of the context or of the channel.
pub data Taken : Type 0 where
  got : StreamEvent → Taken
  over : Taken

module _ (order : Fanout → List ℕ) where
  -- `fanOut`, both of its parts.
  unfoldable pub broadcast : StreamEvent → Fanout → Outcome Fanout
  broadcast event f = and_then (fan_out event (order f) f) (λ p. reap p.1 p.0)

  -- `readerLoop`
  unfoldable pub reader_loop : List Taken → Fanout → Outcome Fanout
  reader_loop [] f = fine f
  reader_loop (over ∷ taken) f = fine f
  reader_loop (got event ∷ taken) f = and_then (broadcast event f) (reader_loop taken)

  module _ (complete : (f : Fanout) → IsOrder f.subs (order f)) where
    -- Both parts of one `fanOut` succeed, and are steps of the interleavings.
    broadcast-Reach :
        (event : StreamEvent) (e f : Fanout)
        → Inv f
        → Reach e f
        → (g : Fanout) × (broadcast event f ≡ fine g) × Inv g × Reach e g
    unfolding broadcast
    broadcast-Reach event e f v r =
        let (channels, dead, offered, all) = fan_out-Delivers event (order f) f v (complete f) in
        let g : Fanout = record f { channels = channels } in
        let first = offers event (order f) dead (complete f) offered in
        let w : Inv g = Step-Inv first v in
        let gone = reap-reaped dead g w in
        let second = reaps dead gone in
        (
          reaped dead g,
          ap (λ (o : Outcome (Fanout × List ℕ)). and_then o (λ p. reap p.1 p.0)) offered ∙ gone,
          Step-Inv second w,
          next (next r first) second,
        )

    -- Alone at the lock, the loop of a reader never panics, from a fan-out with the invariant and
    -- with any events; where it comes to is one of the interleavings' states.
    pub reader_loop-Reach :
        (taken : List Taken) (e f : Fanout)
        → Inv f
        → Reach e f
        → (g : Fanout) × (reader_loop taken f ≡ fine g) × Inv g × Reach e g
    unfolding reader_loop
    reader_loop-Reach [] e f v r = (f, refl, v, r)
    reader_loop-Reach (over ∷ taken) e f v r = (f, refl, v, r)
    reader_loop-Reach (got event ∷ taken) e f v r =
        let (g, once, w, s) = broadcast-Reach event e f v r in
        let (h, rest, x, t) = reader_loop-Reach taken e g w s in
        (h, ap (λ (o : Outcome Fanout). and_then o (reader_loop taken)) once ∙ rest, x, t)
