-- ===== src/Security/Created.antt =====
-- Tokens from their creation to their check.
use easyhooks.Prelude.{
  ℤ, ◌+ℤ◌, ltb_ℤ, wrap64, Bytes, codes, ◌∷◌, ◌++◌, if◌then◌else◌, ◌≡◌, refl, sym, ap, ◌∙◌,
  wrap64-IsInt64,
}
use easyhooks.Runtime.Errors.{invalid_token, Result, ok, err, ok-injective}
use easyhooks.Runtime.Env.{Env}
use easyhooks.Runtime.Exec.{State, ◌>>=◌}
use easyhooks.Service.Streams.{UuidLib}
use easyhooks.Security.{
  Crypto, WsPayload, dot, sign_body, create_signed_token, verify_signed_token, or_invalid,
}
use easyhooks.Security.Tokens.{Faithful, verify_payload-decoded, verify-signed}

module _ {W : Type 0} (env : Env W) (crypto : Crypto) (uuid : UuidLib) where
  created :
      (id key : Bytes) (ttl : ℤ) (s : State W)
      → (create_signed_token crypto env uuid id ttl key s).0 ≡ (
          let body = crypto.base64_encode (
            crypto.marshal
              (record { sub = uuid.to_string id; exp = wrap64 ((env.now s.world).0 +ℤ ttl) })) in
          ok (body ++ dot ∷ sign_body crypto body key))
  unfolding create_signed_token ◌>>=◌
  created id key ttl s = refl

  -- With libraries that decode what they encode, a token that was created for a tenant is, at any
  -- later time, accepted for that tenant until the second in which its time to live ends, and
  -- refused as expired after that. The end is the reading of the clock plus the time to live, in
  -- int64.
  pub created-verified :
      (id key token : Bytes) (ttl : ℤ) (s later : State W)
      → Faithful crypto uuid
      → uuid.parse (uuid.to_string id) ≡ ok id
      → (create_signed_token crypto env uuid id ttl key s).0 ≡ ok token
      → (verify_signed_token crypto env uuid token key later).0 ≡ (
          if ltb_ℤ (wrap64 ((env.now s.world).0 +ℤ ttl)) (env.now later.world).0
          then err (invalid_token (codes "expired"))
          else ok id)
  created-verified id key token ttl s later lib named made =
      let p : WsPayload = record {
        sub = uuid.to_string id;
        exp = wrap64 ((env.now s.world).0 +ℤ ttl);
      } in
      let body = crypto.base64_encode (crypto.marshal p) in
      let run =
        ap (λ (x : Result Bytes × State W). x.0)
          (verify-signed env crypto uuid key body later (lib.no_dot (crypto.marshal p))) in
      let judge =
        verify_payload-decoded env crypto uuid body (crypto.marshal p) p later
          (lib.base64 (crypto.marshal p))
          (lib.json id p.exp named (wrap64-IsInt64 ((env.now s.world).0 +ℤ ttl))) in
      let told =
        ap
          (λ (r : Result Bytes).
            if ltb_ℤ p.exp (env.now later.world).0
            then err (invalid_token (codes "expired"))
            else or_invalid (codes "invalid sub") r)
          named in
      let same = ok-injective (sym (created id key ttl s) ∙ made) in
      ap (λ (t : Bytes). (verify_signed_token crypto env uuid t key later).0) (sym same)
      ∙ run
      ∙ judge
      ∙ told
