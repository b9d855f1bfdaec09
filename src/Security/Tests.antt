-- ===== src/Security/Tests.antt =====
-- The theorems on secrets and tokens, applied with small libraries.
use easyhooks.Prelude.{
  pos, ◌+ℤ◌, ltb_ℤ, wrap64, Bytes, codes, true, ◌++◌, ◌∷◌, if◌then◌else◌, ◌≡◌, refl, ◌↔◌,
}
use easyhooks.Runtime.Errors.{ok, err, invalid_token}
use easyhooks.Runtime.Exec.{◌>>=◌}
use easyhooks.Runtime.Fake.{Fake, fake, quiet, start}
use easyhooks.Security.{
  verify_hmac_signature, create_signed_token, verify_signed_token, dot, sign_body,
}
use easyhooks.Security.Fake.{toy, plain_uuid, toy-Faithful}
use easyhooks.Security.Tokens.{Accepts, verify_signed_token_iff}
use easyhooks.Security.Created.{created-verified}

test_signature : verify_hmac_signature toy (codes "k") (codes "{}") (codes "sha256=6b7b7d") ≡ true
unfolding verify_hmac_signature
test_signature = refl

-- A token for 300 seconds, made at 1000, and the server at 1300.
abbrev token : Bytes
token =
    let body = toy.base64_encode (toy.marshal (record { sub = codes "tenant"; exp = pos 1300 })) in
    body ++ dot ∷ sign_body toy body (codes "key")

token-made :
    (create_signed_token toy fake plain_uuid
      (codes "tenant")
      (pos 300)
      (codes "key")
      (start quiet)).0
    ≡ ok token
unfolding create_signed_token fake ◌>>=◌ wrap64 ◌+ℤ◌
token-made = refl

abbrev late : Fake
late = record quiet { clock = pos 1300 }

created-verified_example :
    (verify_signed_token toy fake plain_uuid token (codes "key") (start late)).0 ≡ (
      if ltb_ℤ (wrap64 ((fake.now quiet).0 +ℤ pos 300)) (fake.now late).0
      then err (invalid_token (codes "expired"))
      else ok (codes "tenant"))
created-verified_example =
    created-verified fake toy plain_uuid (codes "tenant") (codes "key") token (pos 300)
      (start quiet) (start late) toy-Faithful refl token-made

verify_signed_token_iff_example :
    ((verify_signed_token toy fake plain_uuid token (codes "key") (start late)).0
      ≡ ok (codes "tenant"))
    ↔ Accepts fake toy plain_uuid token (codes "key") (fake.now late).0 (codes "tenant")
verify_signed_token_iff_example =
    verify_signed_token_iff fake toy plain_uuid token (codes "key") (codes "tenant") (start late)
