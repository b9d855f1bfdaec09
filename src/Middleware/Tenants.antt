-- ===== src/Middleware/Tenants.antt =====
-- Which requests of a tenant reach the handler.
use easyhooks.Prelude.{
  ℕ, ◌≤◌, Bytes, codes, is_empty, has_prefix, trim_prefix, true, not, Bool-cases, ◌++◌, ◌≡◌, refl,
  inl, inr, arith, if_rule,
}
use easyhooks.Runtime.Errors.{Error, eq_redis_nil, auth_err, Result, ok, err}
use easyhooks.Runtime.Env.{Env}
use easyhooks.Runtime.Exec.{State, Exec, ◌>>=◌}
use easyhooks.Config.{Config}
use easyhooks.Security.{Crypto, hex, verify_hmac_signature}
use easyhooks.Security.Signature.{verify_hmac_signature_iff}
use easyhooks.Service.Streams.{UuidLib}
use easyhooks.Http.{Request, Response, header, write_error}
use easyhooks.Middleware.{
  hmac_key, auth_key, session_key, bearer_prefix, missing_tenant, check_signature,
  authenticate_via_hmac, check_secret, authenticate_via_bearer, found, serve_tenant, credentials,
  read_body, tenant_of_path, tenant_auth,
}

abbrev pub signature_of : Request → Bytes
signature_of r = header r (codes "X-Webhook-Signature")

abbrev pub secret_of : Request → Bytes
secret_of r = trim_prefix (header r (codes "Authorization")) bearer_prefix

abbrev pub session_of : Crypto → UuidLib → Request → Bytes → Bytes
session_of crypto uuid r tenant_id = session_key crypto (uuid.to_string tenant_id) (secret_of r)

module _ {W : Type 0} (env : Env W) (crypto : Crypto) (uuid : UuidLib) (cfg : Config) where
  -- What lets a request act for a tenant, in the state in which it comes: the signature of its
  -- body by the tenant's key; a bearer secret for which there is a session; or one that matches
  -- the tenant's hash.
  pub data Credential (r : Request) (s : State W) (tenant_id body : Bytes) : Type 0 where
    by_signature :
        (key : Bytes)
        → (env.get (hmac_key (uuid.to_string tenant_id)) s.world).0 ≡ ok key
        → signature_of r ≡ codes "sha256=" ++ hex (crypto.hmac_sha256 key body)
        → Credential r s tenant_id body
    by_session :
        found (env.exists (session_of crypto uuid r tenant_id) s.world).0 ≡ true
        → has_prefix (header r (codes "Authorization")) bearer_prefix ≡ true
        → Credential r s tenant_id body
    by_secret :
        (hash : Bytes)
        → (env.get
            (auth_key (uuid.to_string tenant_id))
            (env.exists (session_of crypto uuid r tenant_id) s.world).1).0
          ≡ ok hash
        → crypto.bcrypt_compare hash (secret_of r) ≡ true
        → has_prefix (header r (codes "Authorization")) bearer_prefix ≡ true
        → Credential r s tenant_id body

  -- The result of an authentication.
  data Sound (r : Request) (s : State W) (tenant_id body : Bytes) : Result Bytes → Type 0 where
    authenticated : Credential r s tenant_id body → Sound r s tenant_id body (ok tenant_id)
    denied :
        (code : ℕ) (message : Bytes)
        → 400 ≤ code
        → Sound r s tenant_id body (err (auth_err code message))

  module _ (r : Request) (s : State W) (tenant_id body : Bytes) where
    missing-Sound : (e : Error) → Sound r s tenant_id body (err (missing_tenant env crypto e))
    missing-Sound e =
        if_rule (λ x. Sound r s tenant_id body (err x)) (eq_redis_nil e)
          (λ _. denied 401 _ (omega arith)) (λ _. denied 500 _ (omega arith))

    check_signature-Sound :
        (reply : Result Bytes) (t : State W)
        → (env.get (hmac_key (uuid.to_string tenant_id)) s.world).0 ≡ reply
        → Sound r s tenant_id body
            (check_signature env crypto tenant_id (signature_of r) body reply t).0
    unfolding check_signature ◌>>=◌
    check_signature-Sound (err e) t g = missing-Sound e
    check_signature-Sound (ok key) t g =
        elim (Bool-cases (verify_hmac_signature crypto key body (signature_of r))) [
          | inl valid ↦ rw valid (
              authenticated (
                by_signature key g
                  ((verify_hmac_signature_iff crypto key body (signature_of r)).0 valid)))
          | inr forged ↦ rw forged (denied 403 _ (omega arith))
        ]

    authenticate_via_hmac-Sound :
        Sound r s tenant_id body
          (authenticate_via_hmac env crypto uuid tenant_id (signature_of r) body s).0
    unfolding authenticate_via_hmac ◌>>=◌
    authenticate_via_hmac-Sound = check_signature-Sound _ _ refl

    module _ (bearer : has_prefix (header r (codes "Authorization")) bearer_prefix ≡ true) where
      check_secret-Sound :
          (reply : Result Bytes) (t : State W)
          → (env.get
              (auth_key (uuid.to_string tenant_id))
              (env.exists (session_of crypto uuid r tenant_id) s.world).1).0
            ≡ reply
          → Sound r s tenant_id body
              (check_secret env crypto cfg tenant_id
                (session_of crypto uuid r tenant_id)
                (secret_of r)
                reply
                t).0
      unfolding check_secret ◌>>=◌
      check_secret-Sound (err e) t g = missing-Sound e
      check_secret-Sound (ok hash) t g =
          elim (Bool-cases (crypto.bcrypt_compare hash (secret_of r))) [
            | inl valid ↦ rw valid (authenticated (by_secret hash g valid bearer))
            | inr wrong ↦ rw wrong (denied 403 _ (omega arith))
          ]

      authenticate_via_bearer-Sound :
          Sound r s tenant_id body
            (authenticate_via_bearer env crypto uuid cfg tenant_id (secret_of r) s).0
      unfolding authenticate_via_bearer ◌>>=◌
      authenticate_via_bearer-Sound =
          elim (Bool-cases (found (env.exists (session_of crypto uuid r tenant_id) s.world).0)) [
            | inl there ↦ rw there (authenticated (by_session there bearer))
            | inr gone ↦ rw gone (check_secret-Sound _ _ refl)
          ]

  -- A request either reaches the handler, as the tenant of its path, with its body and with a
  -- credential of that tenant; or it is answered with an error, of the client's or the server's.
  pub data Guarded (next : Bytes → Request → Exec W Response) (r : Request) (s : State W)
      (after : Result Response × State W) : Type 0 where
    passed :
        (tenant_id body : Bytes) (t : State W)
        → uuid.parse r.tenant_id ≡ ok tenant_id
        → r.body ≡ ok body
        → Credential (record r { body = ok body }) s tenant_id body
        → after ≡ next tenant_id (record r { body = ok body }) t
        → Guarded next r s after
    refused :
        (code : ℕ) (detail : Bytes)
        → 400 ≤ code
        → after.0 ≡ ok (write_error code detail)
        → Guarded next r s after

  module _ (next : Bytes → Request → Exec W Response) (r : Request) (s : State W) where
    serve_tenant-Guarded :
        (tenant_id body : Bytes) (t : State W) (result : Result Bytes)
        → uuid.parse r.tenant_id ≡ ok tenant_id
        → r.body ≡ ok body
        → Sound (record r { body = ok body }) s tenant_id body result
        → Guarded next r s (serve_tenant env crypto next (record r { body = ok body }) result t)
    unfolding serve_tenant ◌>>=◌
    serve_tenant-Guarded tenant_id body t result p b (authenticated c) =
        passed tenant_id body t p b c refl
    serve_tenant-Guarded tenant_id body t result p b (denied code message m) =
        refused code message m refl

    credentials-Guarded :
        (tenant_id body : Bytes)
        → uuid.parse r.tenant_id ≡ ok tenant_id
        → r.body ≡ ok body
        → Guarded next r s
            (credentials env crypto uuid cfg next (record r { body = ok body }) tenant_id body s)
    unfolding credentials ◌>>=◌
    credentials-Guarded tenant_id body p b =
        if_rule (λ (x : Exec W Response). Guarded next r s (x s)) (not (is_empty (signature_of r)))
          (λ _.
            serve_tenant-Guarded tenant_id body _ _ p b
              (authenticate_via_hmac-Sound (record r { body = ok body }) s tenant_id body))
          (λ _.
            if_rule (λ (x : Exec W Response). Guarded next r s (x s))
              (has_prefix (header r (codes "Authorization")) bearer_prefix)
              (λ bearer. serve_tenant-Guarded tenant_id body _ _ p b (
                authenticate_via_bearer-Sound (record r { body = ok body }) s tenant_id body
                  bearer))
              (λ _. refused 401 _ (omega arith) refl))

    read_body-Guarded :
        (tenant_id : Bytes) (read : Result Bytes)
        → uuid.parse r.tenant_id ≡ ok tenant_id
        → r.body ≡ read
        → Guarded next r s (read_body env crypto uuid cfg next r tenant_id read s)
    unfolding read_body ◌>>=◌
    read_body-Guarded tenant_id (ok body) p b = credentials-Guarded tenant_id body p b
    read_body-Guarded tenant_id (err e) p b = refused 400 _ (omega arith) refl

    tenant_of_path-Guarded :
        (parsed : Result Bytes)
        → uuid.parse r.tenant_id ≡ parsed
        → Guarded next r s (tenant_of_path env crypto uuid cfg next r parsed s)
    unfolding tenant_of_path ◌>>=◌
    tenant_of_path-Guarded (ok tenant_id) p = read_body-Guarded tenant_id r.body p refl
    tenant_of_path-Guarded (err e) p = refused 400 _ (omega arith) refl

    -- The outcome of a request is either the handler's, called as the tenant of the path, with the
    -- body put back and with a credential of that tenant: a signature of the body by the tenant's
    -- key, or a bearer secret that has a session or matches the tenant's hash; or it is an error
    -- of at least 400.
    pub tenant_auth-Guarded : Guarded next r s (tenant_auth env crypto uuid cfg next r s)
    unfolding tenant_auth
    tenant_auth-Guarded = tenant_of_path-Guarded (uuid.parse r.tenant_id) refl
