-- ===== src/Handler/Socket/Entry.antt =====
-- Which tokens let a WebSocket in.
use easyhooks.Prelude.{
  ℕ, ◌+ℤ◌, ltb_ℤ, wrap64, Bytes, codes, lookup, bytes_eq, bytes_eq_iff, bytes_eq_refl, Bool, true,
  false, Bool-cases, Option, some, ◌++◌, ◌≡◌, refl, sym, ap, ◌∙◌, inl, inr, ◌↔◌, if◌then◌else◌,
}
use easyhooks.Runtime.Errors.{Error, invalid_token, error_text, Result, ok, err, ok-injective}
use easyhooks.Runtime.Env.{Env}
use easyhooks.Runtime.Exec.{State, ◌>>=◌}
use easyhooks.Config.{Config}
use easyhooks.Security.{Crypto, verify_signed_token, create_signed_token}
use easyhooks.Security.Tokens.{Faithful, Accepts, verify_signed_token_iff}
use easyhooks.Security.Created.{created-verified}
use easyhooks.Service.Streams.{UuidLib}
use easyhooks.Service.Fanout.{Outcome, fine, panicked}
use easyhooks.Http.{Request, Response, Json, string}
use easyhooks.Handler.Socket.{
  Check, turned_away, admitted, issue_token, check_tenant, check_path, check_connection,
}

-- What a check of a token's tenant against the path's gives.
abbrev pub compared : Bytes → Bytes → Outcome Check
compared token_tenant tenant_id =
    if bytes_eq token_tenant tenant_id then fine (admitted tenant_id) else panicked

turned-ne-admitted :
    {code : ℕ} {text id : Bytes}
    → ◌≡◌ {A = Result (Outcome Check)} (ok (fine (turned_away code text))) (ok (fine (admitted id)))
    → ⊥
turned-ne-admitted e = cc

panicked-ne-admitted :
    {id : Bytes} → ◌≡◌ {A = Result (Outcome Check)} (ok panicked) (ok (fine (admitted id))) → ⊥
panicked-ne-admitted e = cc

abbrev tenant_or : Bytes → Result (Outcome Check) → Bytes
tenant_or d (ok (fine (admitted id))) = id
tenant_or d other = d

compared-admitted :
    (t i id : Bytes)
    → ◌≡◌ {A = Result (Outcome Check)} (ok (compared t i)) (ok (fine (admitted id)))
    → (i ≡ id) × (t ≡ id)
compared-admitted t i id h = elim (Bool-cases (bytes_eq t i)) [
  | inl same ↦
      let e =
        sym (ap (λ (b : Bool). tenant_or id (ok (if b then fine (admitted i) else panicked))) same)
        ∙ ap (tenant_or id) h in
      (e, (bytes_eq_iff t i).0 same ∙ e)
  | inr other ↦ absurd (
      panicked-ne-admitted
        (sym (ap (λ (b : Bool). ok (if b then fine (admitted i) else panicked)) other) ∙ h))
]

module _ {W : Type 0} (env : Env W) (crypto : Crypto) (uuid : UuidLib) (cfg : Config) (r : Request)
    (token : Bytes) (s : State W) where
  abbrev verified : Result Bytes
  verified = (verify_signed_token crypto env uuid token cfg.app_secret_key s).0

  connection-verified :
      (id t : Bytes)
      → uuid.parse r.tenant_id ≡ ok id
      → verified ≡ ok t
      → (check_connection env crypto uuid cfg r token s).0 ≡ ok (compared t id)
  unfolding check_connection check_path check_tenant ◌>>=◌
  connection-verified id t p v = elim (Bool-cases (bytes_eq t id)) [
    | inl same ↦ rw (p, v, same) refl
    | inr other ↦ rw (p, v, other) refl
  ]

  connection-refused :
      (id : Bytes) (e : Error)
      → uuid.parse r.tenant_id ≡ ok id
      → verified ≡ err e
      → (check_connection env crypto uuid cfg r token s).0
        ≡ ok (fine (turned_away 401 (codes "unauthorized: " ++ error_text e)))
  unfolding check_connection check_path check_tenant ◌>>=◌
  connection-refused id e p v = rw (p, v) refl

  connection-unparsed :
      (e : Error)
      → uuid.parse r.tenant_id ≡ err e
      → (check_connection env crypto uuid cfg r token s).0
        ≡ ok (fine (turned_away 400 (codes "invalid tenant_id")))
  unfolding check_connection check_path ◌>>=◌
  connection-unparsed e p = rw p refl

  -- A token that is valid, for whatever tenant, passes the check if the path names that tenant; if
  -- it names another, the handler panics.
  pub check_connection-compared :
      (id token_tenant : Bytes)
      → uuid.parse r.tenant_id ≡ ok id
      → Accepts env crypto uuid token cfg.app_secret_key (env.now s.world).0 token_tenant
      → (check_connection env crypto uuid cfg r token s).0
        ≡ ok (if bytes_eq token_tenant id then fine (admitted id) else panicked)
  check_connection-compared id t p a =
      connection-verified id t p
        ((verify_signed_token_iff env crypto uuid token cfg.app_secret_key t s).1 a)

  admitted-from :
      (id : Bytes) (path verify : Result Bytes)
      → uuid.parse r.tenant_id ≡ path
      → verified ≡ verify
      → (check_connection env crypto uuid cfg r token s).0 ≡ ok (fine (admitted id))
      → (path ≡ ok id) × (verify ≡ ok id)
  admitted-from id (err e) verify p v h =
      absurd (turned-ne-admitted (sym (connection-unparsed e p) ∙ h))
  admitted-from id (ok i) (err e) p v h =
      absurd (turned-ne-admitted (sym (connection-refused i e p v) ∙ h))
  admitted-from id (ok i) (ok t) p v h =
      let (a, b) = compared-admitted t i id (sym (connection-verified i t p v) ∙ h) in
      (ap ok a, ap ok b)

  connection-judged :
      (id : Bytes) (e : Error) (refuse : Bool)
      → uuid.parse r.tenant_id ≡ ok id
      → verified ≡ (if refuse then err e else ok id)
      → (check_connection env crypto uuid cfg r token s).0
        ≡ ok (
            fine (
              if refuse
              then turned_away 401 (codes "unauthorized: " ++ error_text e)
              else admitted id))
  connection-judged id e true p v = connection-refused id e p v
  connection-judged id e false p v =
      connection-verified id id p v
      ∙ ap (λ (b : Bool). ok (if b then fine (admitted id) else panicked)) (bytes_eq_refl id)

  -- A connection is let in for a tenant exactly if the path names that tenant and the token is
  -- accepted for it.
  pub check_connection-admitted :
      (id : Bytes)
      → ((check_connection env crypto uuid cfg r token s).0 ≡ ok (fine (admitted id))) ↔ (
          (uuid.parse r.tenant_id ≡ ok id)
          × Accepts env crypto uuid token cfg.app_secret_key (env.now s.world).0 id)
  check_connection-admitted id =
      let check = verify_signed_token_iff env crypto uuid token cfg.app_secret_key id s in
      (
        λ h.
            let x = admitted-from id (uuid.parse r.tenant_id) verified refl refl h in
            (x.0, check.0 x.1),
        λ h.
            connection-verified id id h.0 (check.1 h.1)
            ∙ ap (λ (b : Bool). ok (if b then fine (admitted id) else panicked)) (bytes_eq_refl id),
      )

abbrev text_or : Bytes → Option Json → Bytes
text_or d (some (string t)) = t
text_or d other = d

module _ {W : Type 0} (env : Env W) (crypto : Crypto) (uuid : UuidLib) (cfg : Config) where
  -- The field of the answer is the token that was created.
  issued-created :
      (id token : Bytes) (answer : Response) (s : State W)
      → (issue_token env crypto uuid cfg (some id) s).0 ≡ ok answer
      → lookup answer.fields (codes "token") ≡ some (string token)
      → (create_signed_token crypto env uuid id cfg.ws_token_ttl cfg.app_secret_key s).0 ≡ ok token
  unfolding issue_token create_signed_token lookup ◌>>=◌
  issued-created id token answer s e f =
      ap (λ (x : Bytes). ok x)
        (ap (text_or token)
          (ap (λ (x : Response). lookup x.fields (codes "token")) (ok-injective e) ∙ f))

  -- A token that was issued to a tenant lets a WebSocket of that tenant in, at any later time,
  -- until it expires: the connection is then turned away with 401.
  pub issue_token-admitted :
      (id token : Bytes) (answer : Response) (r : Request) (s later : State W)
      → Faithful crypto uuid
      → uuid.parse (uuid.to_string id) ≡ ok id
      → (issue_token env crypto uuid cfg (some id) s).0 ≡ ok answer
      → lookup answer.fields (codes "token") ≡ some (string token)
      → uuid.parse r.tenant_id ≡ ok id
      → (check_connection env crypto uuid cfg r token later).0
        ≡ ok (
            fine (
              if ltb_ℤ (wrap64 ((env.now s.world).0 +ℤ cfg.ws_token_ttl)) (env.now later.world).0
              then turned_away 401
                  (codes "unauthorized: " ++ error_text (invalid_token (codes "expired")))
              else admitted id))
  issue_token-admitted id token answer r s later lib named issued field path =
      let made = issued-created id token answer s issued field in
      let told =
        created-verified env crypto uuid id cfg.app_secret_key token cfg.ws_token_ttl s later lib
          named made in
      connection-judged env crypto uuid cfg r token later id (invalid_token (codes "expired")) _
        path told
