-- ===== src/Middleware/Tests.antt =====
-- Requests for a tenant and for the administrator, with the theorems applied there.
use easyhooks.Prelude.{pos, bytes_eq, Bytes, codes, [], ◌∷◌, ◌≡◌, refl}
use easyhooks.Runtime.Errors.{ok}
use easyhooks.Runtime.Exec.{Exec}
use easyhooks.Runtime.Fake.{Fake, fake, quiet, start, find_key}
use easyhooks.Runtime.Keys.{stored, fake-KeyLaws}
use easyhooks.Config.Example.{example_config}
use easyhooks.Security.Fake.{toy, plain_uuid}
use easyhooks.Http.{Request, Response, json_response}
use easyhooks.Middleware.{admin_token_hash_key, tenant_auth, admin_auth, seed_super_admin}
use easyhooks.Middleware.Tenants.{Guarded, tenant_auth-Guarded}
use easyhooks.Middleware.Admin.{Admitted, admin_auth-Admitted, seed_again}

abbrev signed : Request
signed = record {
  tenant_id = codes "t";
  headers = (codes "X-Webhook-Signature", codes "sha256=6b7b7d") ∷ [];
  method = codes "POST";
  path = codes "/v1/webhooks/t";
  content_length = pos 2;
  body = ok (codes "{}");
}

abbrev provisioned : Fake
provisioned = record quiet {
  keys = (codes "tenant_hmac_key:t", codes "k") ∷ (admin_token_hash_key, codes "$2a$admin") ∷ [];
}

abbrev answer_tenant : Bytes → Request → Exec Fake Response
answer_tenant tenant_id r s = (ok (json_response 200 []), s)

abbrev answer_admin : Request → Exec Fake Response
answer_admin r s = (ok (json_response 200 []), s)

tenant_auth-Guarded_example :
    Guarded fake toy plain_uuid example_config answer_tenant signed
      (start provisioned)
      (tenant_auth fake toy plain_uuid example_config answer_tenant signed (start provisioned))
tenant_auth-Guarded_example =
    tenant_auth-Guarded fake toy plain_uuid example_config answer_tenant signed (start provisioned)

admin_auth-Admitted_example :
    Admitted fake toy answer_admin signed
      (start provisioned)
      (admin_auth fake toy answer_admin signed (start provisioned))
admin_auth-Admitted_example = admin_auth-Admitted fake toy answer_admin signed (start provisioned)

hash-there : stored fake admin_token_hash_key provisioned ≡ ok (codes "$2a$admin")
unfolding fake find_key bytes_eq
hash-there = refl

hash-exists : (fake.exists admin_token_hash_key provisioned).0 ≡ ok (pos 1)
unfolding fake find_key bytes_eq
hash-exists = refl

seed_again_example :
    ((seed_super_admin fake toy (codes "other") (start provisioned)).0 ≡ ok tt)
    × (stored fake admin_token_hash_key
          (seed_super_admin fake toy (codes "other") (start provisioned)).1.world
        ≡ ok (codes "$2a$admin"))
seed_again_example =
    seed_again fake toy (codes "other") (codes "$2a$admin") (pos 1) (start provisioned) fake-KeyLaws
      hash-there hash-exists
