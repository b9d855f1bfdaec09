-- ===== src/Security.antt =====
-- go-api/internal/security/security.go: secrets, webhook signatures and signed tokens.
pub mod Signature
pub mod Tokens
pub mod Created
pub mod Fake
mod Tests
use easyhooks.Prelude.{
  ℕ, ◌+◌, ◌/◌, ◌%◌, ltb, ◌==◌, ℤ, ◌+ℤ◌, ltb_ℤ, wrap64, Bytes, codes, bytes_eq, trim_prefix, Bool,
  true, false, not, Option, none, some, List, [], ◌∷◌, ◌++◌, if◌then◌else◌,
}
use easyhooks.Runtime.Errors.{Error, invalid_token, Result, ok, err}
use easyhooks.Runtime.Env.{Env}
use easyhooks.Runtime.Exec.{State, Exec, pure, fail, lift, wrap, ◌>>=◌, ◌>>◌}
use easyhooks.Service.Streams.{UuidLib}

pub record WsPayload : Type 0 where
  pub sub : Bytes
  pub exp : ℤ

-- HMAC and SHA-256, unpadded URL-safe base64, the JSON of the payload, bcrypt's comparison.
pub record Crypto : Type 0 where
  -- The key and the data.
  pub hmac_sha256 : Bytes → Bytes → Bytes
  pub sha256 : Bytes → Bytes
  pub base64_encode : Bytes → Bytes
  pub base64_decode : Bytes → Result Bytes
  pub marshal : WsPayload → Bytes
  pub unmarshal : Bytes → Result WsPayload
  -- The hash and the password.
  pub bcrypt_compare : Bytes → Bytes → Bool

-- fmt.Sprintf("%x", bytes)
abbrev hex_digit : ℕ → ℕ
hex_digit n = if ltb n 10 then 48 + n else 87 + n

unfoldable pub hex : Bytes → Bytes
hex [] = []
hex (b ∷ bs) = hex_digit (b / 16) ∷ hex_digit (b % 16) ∷ hex bs

-- strings.SplitN(s, sep, 2), if it has two parts.
unfoldable pub split_two : ℕ → Bytes → Option (Bytes × Bytes)
split_two sep [] = none
split_two sep (c ∷ s) =
    let rest = split_two sep s in if c == sep then some ([], s) else extend c rest
  where
    extend : ℕ → Option (Bytes × Bytes) → Option (Bytes × Bytes)
    extend c none = none
    extend c (some (a, b)) = some (c ∷ a, b)

abbrev pub dot : ℕ
dot = 46

-- An error of a library becomes an invalid token, with a reason.
abbrev pub or_invalid : {A : Type 0} → Bytes → Result A → Result A
or_invalid reason (ok a) = ok a
or_invalid reason (err e) = err (invalid_token reason)

-- A question to the outside that cannot fail.
abbrev pub asking : {W A : Type 0} → (W → A × W) → Exec W A
asking op s = let (a, w) = op s.world in (ok a, record s { world = w })

-- A call that can.
abbrev pub calling : {W A : Type 0} → (W → Result A × W) → Exec W A
calling op s = let (r, w) = op s.world in (r, record s { world = w })

module _ (crypto : Crypto) where
  unfoldable pub verify_secret : Bytes → Bytes → Bool
  verify_secret raw hashed = crypto.bcrypt_compare hashed raw

  unfoldable pub verify_hmac_signature : Bytes → Bytes → Bytes → Bool
  unfolding trim_prefix bytes_eq hex
  verify_hmac_signature secret_raw body signature =
      let sig = trim_prefix signature (codes "sha256=") in
      if bytes_eq sig signature
      then false
      else bytes_eq sig (hex (crypto.hmac_sha256 secret_raw body))

  unfoldable pub sign_body : Bytes → Bytes → Bytes
  sign_body body app_secret_key = crypto.base64_encode (crypto.hmac_sha256 app_secret_key body)

  module _ {W : Type 0} (env : Env W) where
    unfoldable pub generate_secret_key : ℤ → Exec W Bytes
    generate_secret_key n_bytes = do
      b ← wrap (codes "generate random bytes") (calling (env.random n_bytes))
      pure (crypto.base64_encode b)

    unfoldable pub hash_secret : Bytes → Exec W Bytes
    hash_secret raw = wrap (codes "bcrypt hash") (calling (env.bcrypt_hash raw))

    module _ (uuid : UuidLib) where
      unfoldable pub create_signed_token : Bytes → ℤ → Bytes → Exec W Bytes
      unfolding sign_body
      create_signed_token tenant_id ttl_seconds app_secret_key = do
        now ← asking env.now
        let payload : WsPayload = record {
          sub = uuid.to_string tenant_id;
          exp = wrap64 (now +ℤ ttl_seconds);
        }
        let body = crypto.base64_encode (crypto.marshal payload)
        pure (body ++ dot ∷ sign_body body app_secret_key)

      -- What follows the check of the signature.
      unfoldable pub verify_payload : Bytes → Exec W Bytes
      verify_payload body = do
        raw_payload ← lift (or_invalid (codes "malformed payload") (crypto.base64_decode body))
        p ← lift (or_invalid (codes "malformed payload") (crypto.unmarshal raw_payload))
        now ← asking env.now
        (if ltb_ℤ p.exp now then fail (invalid_token (codes "expired")) else pure tt)
        lift (or_invalid (codes "invalid sub") (uuid.parse p.sub))

      unfoldable pub verify_parts : Bytes → Option (Bytes × Bytes) → Exec W Bytes
      unfolding sign_body bytes_eq verify_payload
      verify_parts app_secret_key none = fail (invalid_token (codes "malformed token"))
      verify_parts app_secret_key (some (body, sig)) =
          if not (bytes_eq sig (sign_body body app_secret_key))
          then fail (invalid_token (codes "bad signature"))
          else verify_payload body

      unfoldable pub verify_signed_token : Bytes → Bytes → Exec W Bytes
      unfolding split_two verify_parts
      verify_signed_token token app_secret_key = verify_parts app_secret_key (split_two dot token)
