-- ===== src/Api/Ends.antt =====
-- go-api/internal/middleware/metrics.go around the routes: what the counting of a request leaves.
use easyhooks.Runtime.Events.{commands}
use easyhooks.Prelude.{codes, bytes_eq, ◌≡◌, refl, if_rule}
use easyhooks.Runtime.Errors.{Result, ok, err}
use easyhooks.Runtime.Exec.{State, Exec, ◌>>=◌, continue}
use easyhooks.Http.{Request, Response}
use easyhooks.Handler.Webhooks.Delivery.{status_of}
use easyhooks.Middleware.Requests.{http_metrics, counted_request}

module _ {W : Type 0} where
  counted-status :
      (r : Request) (x : Result Response × State W)
      → status_of (continue x.0 (counted_request r) x.1).0 ≡ status_of x.0
  unfolding counted_request ◌>>=◌
  counted-status r (ok answer, s) = refl
  counted-status r (err e, s) = refl

  -- Counting a request sends nothing.
  counted-commands :
      (r : Request) (x : Result Response × State W)
      → commands (continue x.0 (counted_request r) x.1).1.events ≡ commands x.1.events
  unfolding counted_request ◌>>=◌ commands
  counted-commands r (ok answer, s) = refl
  counted-commands r (err e, s) = refl

  counted-world :
      (r : Request) (x : Result Response × State W)
      → (continue x.0 (counted_request r) x.1).1.world ≡ x.1.world
  unfolding counted_request ◌>>=◌
  counted-world r (ok answer, s) = refl
  counted-world r (err e, s) = refl

  -- One status, one world, the same commands.
  abbrev pub SameEnd : Result Response × State W → Result Response × State W → Type 0
  SameEnd x y =
      (status_of x.0 ≡ status_of y.0)
      × (x.1.world ≡ y.1.world)
      × (commands x.1.events ≡ commands y.1.events)

  pub http_metrics-SameEnd :
      (next : Request → Exec W Response) (r : Request) (s : State W)
      → SameEnd (http_metrics next r s) (next r s)
  unfolding http_metrics ◌>>=◌
  http_metrics-SameEnd next r s =
      if_rule (λ (m : Exec W Response). SameEnd (m s) (next r s))
        (bytes_eq r.path (codes "/metrics")) (λ _. (refl, refl, refl))
        (λ _.
          (counted-status r (next r s), counted-world r (next r s), counted-commands r (next r s)))
