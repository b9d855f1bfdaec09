-- ===== src/Middleware/Requests/Paths.antt =====
-- The paths of the routes that name a tenant.
use easyhooks.Prelude.{
  Bytes, codes, Lacks, strip_prefix-append, true, false, ◌++◌, ◌≡◌, ◌≢◌, refl, ap, ◌∙◌, if_rule,
  if◌then◌else◌,
}
use easyhooks.Middleware.Requests.{
  starts_with_id, matches, id_behind, replace_from, replace_all, normalize_path,
}
use easyhooks.Middleware.Requests.Replace.{
  behind, Lacks-behind, Lacks-plain, is_lacking, replace-miss, id-stays, hit-replaced,
}

-- The routes with a tenant, and what stands before it.
pub data Route : Type 0 where
  admin_tenants webhooks tokens events : Route

abbrev pub literal_of : Route → Bytes
literal_of admin_tenants = codes "/admin/tenants/"
literal_of webhooks = codes "/v1/webhooks/"
literal_of tokens = codes "/v1/tokens/"
literal_of events = codes "/ws/events/"

-- The literal without its first and its last slash.
abbrev stem_of : Route → Bytes
stem_of admin_tenants = codes "admin/tenants"
stem_of webhooks = codes "v1/webhooks"
stem_of tokens = codes "v1/tokens"
stem_of events = codes "ws/events"

abbrev placeholder : Bytes
placeholder = codes "{tenant_id}"

-- One pattern, on a path of another route.
other-stays :
    (r q : Route) (id : Bytes)
    → Lacks b'/' id
    → r ≢ q
    → replace_all (literal_of r) (literal_of q ++ id) ≡ literal_of q ++ id
unfolding replace_from
other-stays admin_tenants admin_tenants id n d = absurd (d refl)
other-stays webhooks webhooks id n d = absurd (d refl)
other-stays tokens tokens id n d = absurd (d refl)
other-stays events events id n d = absurd (d refl)
other-stays admin_tenants webhooks id n d =
    ap (λ (t : Bytes). codes "/v1/webhooks" ++ t)
      (id-stays (stem_of admin_tenants) (literal_of admin_tenants ++ placeholder) id n)
other-stays admin_tenants tokens id n d =
    ap (λ (t : Bytes). codes "/v1/tokens" ++ t)
      (id-stays (stem_of admin_tenants) (literal_of admin_tenants ++ placeholder) id n)
other-stays admin_tenants events id n d =
    ap (λ (t : Bytes). codes "/ws/events" ++ t)
      (id-stays (stem_of admin_tenants) (literal_of admin_tenants ++ placeholder) id n)
other-stays webhooks admin_tenants id n d =
    ap (λ (t : Bytes). codes "/admin/tenants" ++ t)
      (id-stays (stem_of webhooks) (literal_of webhooks ++ placeholder) id n)
other-stays webhooks tokens id n d =
    ap (λ (t : Bytes). codes "/v1/tokens" ++ t)
      (id-stays (stem_of webhooks) (literal_of webhooks ++ placeholder) id n)
other-stays webhooks events id n d =
    ap (λ (t : Bytes). codes "/ws/events" ++ t)
      (id-stays (stem_of webhooks) (literal_of webhooks ++ placeholder) id n)
other-stays tokens admin_tenants id n d =
    ap (λ (t : Bytes). codes "/admin/tenants" ++ t)
      (id-stays (stem_of tokens) (literal_of tokens ++ placeholder) id n)
other-stays tokens webhooks id n d =
    ap (λ (t : Bytes). codes "/v1/webhooks" ++ t)
      (id-stays (stem_of tokens) (literal_of tokens ++ placeholder) id n)
other-stays tokens events id n d =
    ap (λ (t : Bytes). codes "/ws/events" ++ t)
      (id-stays (stem_of tokens) (literal_of tokens ++ placeholder) id n)
other-stays events admin_tenants id n d =
    ap (λ (t : Bytes). codes "/admin/tenants" ++ t)
      (id-stays (stem_of events) (literal_of events ++ placeholder) id n)
other-stays events webhooks id n d =
    ap (λ (t : Bytes). codes "/v1/webhooks" ++ t)
      (id-stays (stem_of events) (literal_of events ++ placeholder) id n)
other-stays events tokens id n d =
    ap (λ (t : Bytes). codes "/v1/tokens" ++ t)
      (id-stays (stem_of events) (literal_of events ++ placeholder) id n)

-- What stands in the path for an id.
abbrev pub shown : Bytes → Bytes
shown id = if starts_with_id 36 id then (codes "{tenant_id}" ++ behind 36 id) else id

shown-Lacks : (id : Bytes) → Lacks b'/' id → Lacks b'/' (shown id)
unfolding is_lacking
shown-Lacks id n =
    if_rule (Lacks b'/') (starts_with_id 36 id)
      (λ _. Lacks-plain b'/' placeholder (behind 36 id) refl (Lacks-behind b'/' 36 id n)) (λ _. n)

-- One pattern, on a path of its route.
own-match :
    (r : Route) (id : Bytes) → matches (literal_of r) (literal_of r ++ id) ≡ starts_with_id 36 id
unfolding matches
own-match r id = ap id_behind (strip_prefix-append (literal_of r) id)

own-hit :
    (r : Route) (id : Bytes)
    → Lacks b'/' id
    → starts_with_id 36 id ≡ true
    → replace_all (literal_of r) (literal_of r ++ id)
      ≡ literal_of r ++ (placeholder ++ behind 36 id)
own-hit admin_tenants id n e =
    hit-replaced (stem_of admin_tenants) (literal_of admin_tenants ++ placeholder) id n
      (own-match admin_tenants id ∙ e)
own-hit webhooks id n e =
    hit-replaced (stem_of webhooks) (literal_of webhooks ++ placeholder) id n
      (own-match webhooks id ∙ e)
own-hit tokens id n e =
    hit-replaced (stem_of tokens) (literal_of tokens ++ placeholder) id n (own-match tokens id ∙ e)
own-hit events id n e =
    hit-replaced (stem_of events) (literal_of events ++ placeholder) id n (own-match events id ∙ e)

own-stays :
    (r : Route) (id : Bytes)
    → Lacks b'/' id
    → starts_with_id 36 id ≡ false
    → replace_all (literal_of r) (literal_of r ++ id) ≡ literal_of r ++ id
unfolding replace_from
own-stays admin_tenants id n e =
    replace-miss (literal_of admin_tenants) (literal_of admin_tenants ++ placeholder) b'/'
      (codes "admin/tenants/" ++ id) (own-match admin_tenants id ∙ e)
    ∙ ap (λ (t : Bytes). codes "/admin/tenants" ++ t)
        (id-stays (stem_of admin_tenants) (literal_of admin_tenants ++ placeholder) id n)
own-stays webhooks id n e =
    replace-miss (literal_of webhooks) (literal_of webhooks ++ placeholder) b'/'
      (codes "v1/webhooks/" ++ id) (own-match webhooks id ∙ e)
    ∙ ap (λ (t : Bytes). codes "/v1/webhooks" ++ t)
        (id-stays (stem_of webhooks) (literal_of webhooks ++ placeholder) id n)
own-stays tokens id n e =
    replace-miss (literal_of tokens) (literal_of tokens ++ placeholder) b'/'
      (codes "v1/tokens/" ++ id) (own-match tokens id ∙ e)
    ∙ ap (λ (t : Bytes). codes "/v1/tokens" ++ t)
        (id-stays (stem_of tokens) (literal_of tokens ++ placeholder) id n)
own-stays events id n e =
    replace-miss (literal_of events) (literal_of events ++ placeholder) b'/'
      (codes "ws/events/" ++ id) (own-match events id ∙ e)
    ∙ ap (λ (t : Bytes). codes "/ws/events" ++ t)
        (id-stays (stem_of events) (literal_of events ++ placeholder) id n)

own-shown :
    (r : Route) (id : Bytes)
    → Lacks b'/' id
    → replace_all (literal_of r) (literal_of r ++ id) ≡ literal_of r ++ shown id
own-shown r id n =
    if_rule (λ (x : Bytes). replace_all (literal_of r) (literal_of r ++ id) ≡ literal_of r ++ x)
      (starts_with_id 36 id) {x = placeholder ++ behind 36 id} {y = id} (own-hit r id n)
      (own-stays r id n)

-- The path of a route that names a tenant is normalised to the route with the placeholder
-- `{tenant_id}` exactly if 36 characters of [0-9a-f-] follow it; what stands behind these stays,
-- and any other path of these routes is left as it is, with its id. The text in the id's place has
-- no slash.
pub normalize_path-shown :
    (r : Route) (id : Bytes)
    → Lacks b'/' id
    → normalize_path (literal_of r ++ id)
      ≡ literal_of r ++ (if starts_with_id 36 id then (codes "{tenant_id}" ++ behind 36 id) else id)
unfolding normalize_path
normalize_path-shown admin_tenants id n =
    let k = shown-Lacks id n in
    ap
      (λ (x : Bytes).
        replace_all (literal_of events)
          (replace_all (literal_of tokens) (replace_all (literal_of webhooks) (x))))
      (own-shown admin_tenants id n)
    ∙ ap (λ (x : Bytes). replace_all (literal_of events) (replace_all (literal_of tokens) (x)))
        (other-stays webhooks admin_tenants (shown id) k (λ e. absurd (cc)))
    ∙ ap (λ (x : Bytes). replace_all (literal_of events) (x))
        (other-stays tokens admin_tenants (shown id) k (λ e. absurd (cc)))
    ∙ other-stays events admin_tenants (shown id) k (λ e. absurd (cc))
normalize_path-shown webhooks id n =
    let k = shown-Lacks id n in
    ap
      (λ (x : Bytes).
        replace_all (literal_of events)
          (replace_all (literal_of tokens) (replace_all (literal_of webhooks) (x))))
      (other-stays admin_tenants webhooks id n (λ e. absurd (cc)))
    ∙ ap (λ (x : Bytes). replace_all (literal_of events) (replace_all (literal_of tokens) (x)))
        (own-shown webhooks id n)
    ∙ ap (λ (x : Bytes). replace_all (literal_of events) (x))
        (other-stays tokens webhooks (shown id) k (λ e. absurd (cc)))
    ∙ other-stays events webhooks (shown id) k (λ e. absurd (cc))
normalize_path-shown tokens id n =
    let k = shown-Lacks id n in
    ap
      (λ (x : Bytes).
        replace_all (literal_of events)
          (replace_all (literal_of tokens) (replace_all (literal_of webhooks) (x))))
      (other-stays admin_tenants tokens id n (λ e. absurd (cc)))
    ∙ ap (λ (x : Bytes). replace_all (literal_of events) (replace_all (literal_of tokens) (x)))
        (other-stays webhooks tokens id n (λ e. absurd (cc)))
    ∙ ap (λ (x : Bytes). replace_all (literal_of events) (x)) (own-shown tokens id n)
    ∙ other-stays events tokens (shown id) k (λ e. absurd (cc))
normalize_path-shown events id n =
    let k = shown-Lacks id n in
    ap
      (λ (x : Bytes).
        replace_all (literal_of events)
          (replace_all (literal_of tokens) (replace_all (literal_of webhooks) (x))))
      (other-stays admin_tenants events id n (λ e. absurd (cc)))
    ∙ ap (λ (x : Bytes). replace_all (literal_of events) (replace_all (literal_of tokens) (x)))
        (other-stays webhooks events id n (λ e. absurd (cc)))
    ∙ ap (λ (x : Bytes). replace_all (literal_of events) (x))
        (other-stays tokens events id n (λ e. absurd (cc)))
    ∙ own-shown events id n
