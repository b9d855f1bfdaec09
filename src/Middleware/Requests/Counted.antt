-- ===== src/Middleware/Requests/Counted.antt =====
-- `HTTPMetrics` on the routes that name a tenant.
use easyhooks.Prelude.{
  ℕ, zero, suc, ◌==◌, Bytes, codes, bytes_eq, Lacks, length, Bool, true, false, ◌&&◌, [], ◌∷◌, ◌++◌,
  ==_iff, ◌≡◌, refl, ap, ◌∙◌, arith, if◌then◌else◌,
}
use easyhooks.Runtime.Errors.{Result, ok}
use easyhooks.Runtime.Events.{counted, http_requests_total, http_request_duration}
use easyhooks.Runtime.Exec.{State, Exec, ◌>>=◌, continue}
use easyhooks.Http.{Request, Response}
use easyhooks.Middleware.Requests.{
  is_id_char, starts_with_id, normalize_path, counted_request, http_metrics,
}
use easyhooks.Middleware.Requests.Replace.{behind}
use easyhooks.Middleware.Requests.Paths.{
  Route, admin_tenants, webhooks, tokens, events, literal_of, normalize_path-shown,
}

-- 36 characters of [0-9a-f-], as a text in lower case that `uuid.UUID.String` gives.
unfoldable pub is_id : Bytes → Bool
unfolding starts_with_id
is_id id = length id == 36 && starts_with_id 36 id

is_id_char-Lacks : (c : ℕ) → is_id_char c ≡ true → (c == b'/') ≡ false
unfolding is_id_char
is_id_char-Lacks c h = ground arith

pub starts_with_id-Lacks :
    (n : ℕ) (id : Bytes) → length id ≡ n → starts_with_id n id ≡ true → Lacks b'/' id
unfolding starts_with_id
starts_with_id-Lacks n [] e h = tt
starts_with_id-Lacks zero (c ∷ id) e h = absurd (omega arith)
starts_with_id-Lacks (suc n) (c ∷ id) e h =
    (is_id_char-Lacks c (ground arith), starts_with_id-Lacks n id (omega arith) (ground arith))

behind-whole : (n : ℕ) (id : Bytes) → length id ≡ n → behind n id ≡ []
behind-whole zero [] e = refl
behind-whole zero (c ∷ id) e = absurd (omega arith)
behind-whole (suc n) [] e = refl
behind-whole (suc n) (c ∷ id) e = behind-whole n id (omega arith)

route_path :
    (r : Route) (id : Bytes)
    → is_id id ≡ true
    → normalize_path (literal_of r ++ id) ≡ literal_of r ++ codes "{tenant_id}"
unfolding is_id
route_path r id h =
    let whole = ==_iff (length id) 36 in
    let e = whole.0 (ground arith) in
    let starts : starts_with_id 36 id ≡ true = ground arith in
    normalize_path-shown r id (starts_with_id-Lacks 36 id e starts)
    ∙ ap (λ (b : Bool). literal_of r ++ (if b then (codes "{tenant_id}" ++ behind 36 id) else id))
        starts
    ∙ ap (λ (t : Bytes). literal_of r ++ (codes "{tenant_id}" ++ t)) (behind-whole 36 id e)

not_metrics : (r : Route) (id : Bytes) → bytes_eq (literal_of r ++ id) (codes "/metrics") ≡ false
unfolding bytes_eq
not_metrics admin_tenants id = refl
not_metrics webhooks id = refl
not_metrics tokens id = refl
not_metrics events id = refl

module _ {W : Type 0} (next : Request → Exec W Response) (r : Request) (route : Route)
    (id : Bytes) where
  -- A request for a tenant's route that the handler answers is counted in two series, named by its
  -- method, the route with a placeholder in the place of the id, and the status that the handler wrote;
  -- the handler's answer and its own effects stay as they are. The id has 36 characters of
  -- [0-9a-f-], so that the labels do not grow with the tenants.
  pub http_metrics-counted :
      (s after : State W) (answer : Response)
      → r.path ≡ literal_of route ++ id
      → is_id id ≡ true
      → next r s ≡ (ok answer, after)
      → http_metrics next r s ≡ (
        ok answer,
        record after {
          events =
              counted (
                http_request_duration r.method
                  (literal_of route ++ codes "{tenant_id}")
                  answer.status)
              ∷ counted (
                  http_requests_total r.method
                    (literal_of route ++ codes "{tenant_id}")
                    answer.status)
              ∷ after.events;
        },
      )
  unfolding http_metrics counted_request ◌>>=◌
  http_metrics-counted s after answer at_route is h =
      ap (λ (b : Bool). (if b then next r else (next r >>= counted_request r)) s)
        (ap (λ (p : Bytes). bytes_eq p (codes "/metrics")) at_route ∙ not_metrics route id)
      ∙ ap (λ (x : Result Response × State W). continue x.0 (counted_request r) x.1) h
      ∙ ap (λ (p : Bytes). shown_after p) (ap normalize_path at_route ∙ route_path route id is)
    where
      shown_after : Bytes → Result Response × State W
      shown_after p = (
        ok answer,
        record after {
          events =
              counted (http_request_duration r.method p answer.status)
              ∷ counted (http_requests_total r.method p answer.status)
              ∷ after.events;
        },
      )
