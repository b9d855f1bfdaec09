-- ===== src/Service/Tenant.antt =====
-- go-api/internal/service/tenant.go: the creation of a tenant, and its answer in
-- go-api/internal/handler/admin.go.
pub mod Provisioned
mod Tests
use easyhooks.Prelude.{
  ℤ, pos, ltb_ℤ, Bytes, codes, Bool, true, false, Option, none, some, List, [], ◌∷◌, ◌++◌,
  if◌then◌else◌,
}
use easyhooks.Runtime.Errors.{Error, wrapped, Result, ok, err}
use easyhooks.Runtime.Events.{Command, set, del}
use easyhooks.Runtime.Env.{Env}
use easyhooks.Runtime.Exec.{State, Exec, pure, fail, attempt, wrap, command, ◌>>=◌, ◌>>◌}
use easyhooks.Config.{Config}
use easyhooks.Security.{Crypto, asking, generate_secret_key, hash_secret}
use easyhooks.Service.Streams.{UuidLib}
use easyhooks.Http.{Request, Response, Json, string, json_response, write_error}
use easyhooks.Middleware.{auth_key, hmac_key}

pub record CreateTenantResult : Type 0 where
  pub tenant_id : Bytes
  pub secret_key : Bytes

module _ {W : Type 0} (env : Env W) (crypto : Crypto) (uuid : UuidLib) (cfg : Config) where
  abbrev setting : Bytes → Bytes → Exec W (Unit {0})
  setting key value = command (set key value (pos 0)) (env.set key value (pos 0))

  -- After the second SET; where it failed, the first is undone, as well as that goes.
  unfoldable pub finish_tenant : Bytes → Bytes → Result (Unit {0}) → Exec W CreateTenantResult
  finish_tenant tenant_id raw_secret (ok u) =
      pure (record { tenant_id = tenant_id; secret_key = raw_secret })
  finish_tenant tenant_id raw_secret (err e) = do
    attempt (
        command (del (auth_key (uuid.to_string tenant_id)))
          (env.del (auth_key (uuid.to_string tenant_id))))
    fail (wrapped (codes "SET " ++ hmac_key (uuid.to_string tenant_id)) e)

  unfoldable pub store_tenant : Bytes → Bytes → Bytes → Exec W CreateTenantResult
  store_tenant raw_secret secret_hash tenant_id = do
    wrap (codes "SET " ++ auth_key (uuid.to_string tenant_id))
        (setting (auth_key (uuid.to_string tenant_id)) secret_hash)
    stored ← attempt (setting (hmac_key (uuid.to_string tenant_id)) raw_secret)
    finish_tenant tenant_id raw_secret stored

  unfoldable pub create_tenant : Exec W CreateTenantResult
  unfolding generate_secret_key hash_secret
  create_tenant = do
    raw_secret ←
        wrap (codes "generate secret key") (generate_secret_key crypto env cfg.secret_key_bytes)
    secret_hash ← wrap (codes "hash secret") (hash_secret crypto env raw_secret)
    tenant_id ← asking env.new_uuid
    store_tenant raw_secret secret_hash tenant_id

  -- The handler; `parse_name` decodes the body, for the name, where there is one.
  unfoldable pub tenant_answer : Bytes → Result CreateTenantResult → Exec W Response
  tenant_answer name (err e) = pure (write_error 500 (codes "Failed to create tenant"))
  tenant_answer name (ok result) = pure (
      json_response 201 (
        (codes "tenant_id", string (uuid.to_string result.tenant_id))
        ∷ (codes "secret_key", string result.secret_key)
        ∷ (codes "name", string name)
        ∷ []))

  unfoldable pub with_name : Result Bytes → Exec W Response
  with_name (err e) = pure (write_error 400 (codes "Invalid request body"))
  with_name (ok name) = attempt create_tenant >>= tenant_answer name

  unfoldable pub create_tenant_handler : (Result Bytes → Result Bytes) → Request → Exec W Response
  create_tenant_handler parse_name r =
      with_name (if ltb_ℤ (pos 0) r.content_length then parse_name r.body else ok [])
