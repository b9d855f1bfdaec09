-- ===== src/Middleware.antt =====
-- go-api/internal/middleware/auth.go and go-api/internal/redisstore/admin.go: who may call the
-- handlers.
pub mod Tenants
pub mod Admin
pub mod Requests
mod Tests
use easyhooks.Prelude.{
  ℕ, ℤ, pos, leb_ℤ, ltb_ℤ, Bytes, codes, is_empty, has_prefix, trim_prefix, take, Bool, true, false,
  not, Option, none, some, List, [], ◌∷◌, ◌++◌, if◌then◌else◌,
}
use easyhooks.Runtime.Errors.{
  Error, eq_redis_nil, is_redis_nil, auth_err, admin_not_seeded, is_admin_not_seeded, wrapped,
  Result, ok, err,
}
use easyhooks.Runtime.Events.{Command, set, get, exists}
use easyhooks.Runtime.Env.{Env}
use easyhooks.Runtime.Exec.{State, Exec, pure, fail, attempt, wrap, command, ◌>>=◌, ◌>>◌}
use easyhooks.Config.{Config}
use easyhooks.Security.{Crypto, hex, verify_secret, verify_hmac_signature, hash_secret}
use easyhooks.Service.Streams.{UuidLib}
use easyhooks.Http.{Request, Response, header, write_error}

abbrev pub admin_token_hash_key : Bytes
admin_token_hash_key = codes "admin:token_hash"

abbrev pub bearer_prefix : Bytes
bearer_prefix = codes "Bearer "

-- The keys of a tenant, by the text of its id.
abbrev pub hmac_key : Bytes → Bytes
hmac_key tenant_id = codes "tenant_hmac_key:" ++ tenant_id

abbrev pub auth_key : Bytes → Bytes
auth_key tenant_id = codes "tenant_auth:" ++ tenant_id

abbrev pub session_key : Crypto → Bytes → Bytes → Bytes
session_key crypto tenant_id raw_secret =
    codes "auth_session:" ++ (tenant_id ++ codes ":" ++ take 16 (hex (crypto.sha256 raw_secret)))

-- `exists, _ := …; exists > 0`
abbrev pub found : Result ℤ → Bool
found (ok n) = ltb_ℤ (pos 0) n
found (err e) = false

module _ {W : Type 0} (env : Env W) (crypto : Crypto) where
  abbrev reading : Bytes → Exec W Bytes
  reading key = command (get key) (env.get key)

  -- A missing key is an unknown tenant.
  abbrev pub missing_tenant : Error → Error
  missing_tenant e =
      if eq_redis_nil e
      then auth_err 401 (codes "Unknown tenant")
      else auth_err 500 (codes "Internal error")

  unfoldable pub check_signature : Bytes → Bytes → Bytes → Result Bytes → Exec W Bytes
  check_signature tenant_id signature body (err e) = fail (missing_tenant e)
  check_signature tenant_id signature body (ok cached_key) =
      if verify_hmac_signature crypto cached_key body signature
      then pure tenant_id
      else fail (auth_err 403 (codes "Invalid HMAC signature"))

  unfoldable pub authenticate_via_hmac : UuidLib → Bytes → Bytes → Bytes → Exec W Bytes
  authenticate_via_hmac uuid tenant_id signature body =
      attempt (reading (hmac_key (uuid.to_string tenant_id)))
      >>= check_signature tenant_id signature body

  -- The result of setting the session is ignored.
  unfoldable pub check_secret : Config → Bytes → Bytes → Bytes → Result Bytes → Exec W Bytes
  unfolding verify_secret
  check_secret cfg tenant_id session raw_secret (err e) = fail (missing_tenant e)
  check_secret cfg tenant_id session raw_secret (ok cached_hash) =
      if verify_secret crypto raw_secret cached_hash
      then (attempt (
            command (set session (codes "1") cfg.auth_session_ttl)
              (env.set session (codes "1") cfg.auth_session_ttl))
          >> pure tenant_id)
      else fail (auth_err 403 (codes "Invalid credentials for this tenant"))

  unfoldable pub authenticate_via_bearer : UuidLib → Config → Bytes → Bytes → Exec W Bytes
  authenticate_via_bearer uuid cfg tenant_id raw_secret = do
    let session = session_key crypto (uuid.to_string tenant_id) raw_secret
    there ← attempt (command (exists session) (env.exists session))
    (if found there
        then pure tenant_id
        else (attempt (reading (auth_key (uuid.to_string tenant_id)))
            >>= check_secret cfg tenant_id session raw_secret))

  -- The answer to the result of an authentication, and the handler behind it.
  unfoldable pub serve_tenant :
      (Bytes → Request → Exec W Response) → Request → Result Bytes → Exec W Response
  serve_tenant next r (ok tenant_id) = next tenant_id r
  serve_tenant next r (err (auth_err code message)) = pure (write_error code message)
  serve_tenant next r (err other) = pure (write_error 500 (codes "Internal error"))

  unfoldable pub credentials :
      UuidLib
      → Config
      → (Bytes → Request → Exec W Response)
      → Request
      → Bytes
      → Bytes
      → Exec W Response
  unfolding header has_prefix trim_prefix
  credentials uuid cfg next r tenant_id body =
      if not (is_empty (header r (codes "X-Webhook-Signature")))
      then (attempt
            (authenticate_via_hmac uuid tenant_id (header r (codes "X-Webhook-Signature")) body)
          >>= serve_tenant next r)
      else if has_prefix (header r (codes "Authorization")) bearer_prefix
      then (attempt (
            authenticate_via_bearer uuid cfg tenant_id
              (trim_prefix (header r (codes "Authorization")) bearer_prefix))
          >>= serve_tenant next r)
      else pure (write_error 401 (codes "Missing authentication credentials"))

  -- The body that was read is put back.
  unfoldable pub read_body :
      UuidLib
      → Config
      → (Bytes → Request → Exec W Response)
      → Request
      → Bytes
      → Result Bytes
      → Exec W Response
  read_body uuid cfg next r tenant_id (err e) =
      pure (write_error 400 (codes "Cannot read request body"))
  read_body uuid cfg next r tenant_id (ok body) =
      credentials uuid cfg next (record r { body = ok body }) tenant_id body

  unfoldable pub tenant_of_path :
      UuidLib
      → Config
      → (Bytes → Request → Exec W Response)
      → Request
      → Result Bytes
      → Exec W Response
  tenant_of_path uuid cfg next r (err e) = pure (write_error 400 (codes "Invalid tenant_id"))
  tenant_of_path uuid cfg next r (ok tenant_id) = read_body uuid cfg next r tenant_id r.body

  unfoldable pub tenant_auth :
      UuidLib → Config → (Bytes → Request → Exec W Response) → Request → Exec W Response
  tenant_auth uuid cfg next r = tenant_of_path uuid cfg next r (uuid.parse r.tenant_id)

  -- errors.Is(err, goredis.Nil)
  unfoldable pub check_admin : Bytes → Result Bytes → Exec W Bool
  unfolding verify_secret
  check_admin presented (ok hash) = pure (verify_secret crypto presented hash)
  check_admin presented (err e) =
      if is_redis_nil e
      then fail admin_not_seeded
      else fail (wrapped (codes "GET " ++ admin_token_hash_key) e)

  unfoldable pub verify_admin : Bytes → Exec W Bool
  verify_admin presented = attempt (reading admin_token_hash_key) >>= check_admin presented

  unfoldable pub store_hash : Bytes → Exec W (Unit {0})
  store_hash hash =
      wrap (codes "SET " ++ admin_token_hash_key) (
        command (set admin_token_hash_key hash (pos 0)) (env.set admin_token_hash_key hash (pos 0)))

  unfoldable pub seed_if : Bytes → ℤ → Exec W (Unit {0})
  unfolding hash_secret
  seed_if raw_token n =
      if ltb_ℤ (pos 0) n
      then pure tt
      else (wrap (codes "hash admin token") (hash_secret crypto env raw_token) >>= store_hash)

  unfoldable pub seed_super_admin : Bytes → Exec W (Unit {0})
  seed_super_admin raw_token =
      wrap (codes "EXISTS " ++ admin_token_hash_key)
        (command (exists admin_token_hash_key) (env.exists admin_token_hash_key))
      >>= seed_if raw_token

  unfoldable pub serve_admin : (Request → Exec W Response) → Request → Result Bool → Exec W Response
  serve_admin next r (ok true) = next r
  serve_admin next r (ok false) = pure (write_error 403 (codes "Invalid admin credentials"))
  serve_admin next r (err e) =
      if is_admin_not_seeded e
      then pure (write_error 503 (codes "Admin not provisioned"))
      else pure (write_error 500 (codes "Internal error"))

  unfoldable pub admin_auth : (Request → Exec W Response) → Request → Exec W Response
  unfolding header has_prefix trim_prefix
  admin_auth next r =
      if has_prefix (header r (codes "Authorization")) bearer_prefix
      then (attempt (verify_admin (trim_prefix (header r (codes "Authorization")) bearer_prefix))
          >>= serve_admin next r)
      else pure (write_error 401 (codes "Missing or invalid authorization header"))
