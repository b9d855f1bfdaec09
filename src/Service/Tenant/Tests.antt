-- ===== src/Service/Tenant/Tests.antt =====
-- A tenant that is created in an empty store, with the theorems applied there.
use easyhooks.Prelude.{Bytes, codes, bytes_eq, bytes_eq_refl, true, ◌++◌, ◌≡◌, refl, subst}
use easyhooks.Runtime.Errors.{ok, ok-injective}
use easyhooks.Runtime.Exec.{State, ◌>>=◌}
use easyhooks.Runtime.Fake.{Fake, fake, quiet, start}
use easyhooks.Runtime.Keys.{fake-KeyLaws}
use easyhooks.Config.Example.{example_config}
use easyhooks.Security.{hex, generate_secret_key, hash_secret}
use easyhooks.Security.Fake.{toy, plain_uuid}
use easyhooks.Middleware.{authenticate_via_hmac, authenticate_via_bearer}
use easyhooks.Service.Tenant.{CreateTenantResult, create_tenant, store_tenant, finish_tenant}
use easyhooks.Service.Tenant.Provisioned.{
  Provisioned, create_tenant-Provisioned, created-authenticated,
}

create_tenant-Provisioned_example :
    Provisioned fake toy plain_uuid example_config
      (start quiet)
      (create_tenant fake toy plain_uuid example_config (start quiet))
create_tenant-Provisioned_example =
    create_tenant-Provisioned fake toy plain_uuid example_config fake-KeyLaws (start quiet)

abbrev secret : Bytes
secret = toy.base64_encode (codes "random bytes")

abbrev tenant : CreateTenantResult
tenant = record { tenant_id = codes "0123456789abcdef"; secret_key = secret }

tenant-made : (create_tenant fake toy plain_uuid example_config (start quiet)).0 ≡ ok tenant
unfolding create_tenant store_tenant finish_tenant generate_secret_key hash_secret fake ◌>>=◌
tenant-made = refl

abbrev later : State Fake
later = (create_tenant fake toy plain_uuid example_config (start quiet)).1

toy-bcrypt :
    (hash raw : Bytes) (w : Fake)
    → (fake.bcrypt_hash raw w).0 ≡ ok hash
    → toy.bcrypt_compare hash raw ≡ true
unfolding fake
toy-bcrypt hash raw w e =
    subst (λ (h : Bytes). bytes_eq h (codes "$2a$" ++ raw) ≡ true) (ok-injective e)
      (bytes_eq_refl (codes "$2a$" ++ raw))

created-authenticated_example :
    ((authenticate_via_hmac fake toy plain_uuid tenant.tenant_id
        (codes "sha256=" ++ hex (toy.hmac_sha256 secret (codes "{}")))
        (codes "{}")
        later).0
      ≡ ok tenant.tenant_id)
    × ((authenticate_via_bearer fake toy plain_uuid example_config tenant.tenant_id secret later).0
        ≡ ok tenant.tenant_id)
created-authenticated_example =
    created-authenticated fake toy plain_uuid example_config fake-KeyLaws (start quiet) tenant
      tenant-made (codes "{}") toy-bcrypt
