-- ===== src/Service/Tenant/Provisioned.antt =====
-- What the creation of a tenant leaves, and what its credentials are good for.
use easyhooks.Prelude.{
  pos, Bytes, codes, bytes_eq, true, false, Bool-cases, List, ◌∷◌, ◌++◌, ◌≡◌, refl, sym, ap, subst,
  ◌∙◌, inl, inr,
}
use easyhooks.Runtime.Errors.{Error, Result, ok, err, Result-cases, ok-injective}
use easyhooks.Runtime.Events.{Command, commands, set, del}
use easyhooks.Runtime.Env.{Env}
use easyhooks.Runtime.Exec.{State, ◌>>=◌}
use easyhooks.Runtime.Keys.{stored, KeyLaws}
use easyhooks.Config.{Config}
use easyhooks.Security.{Crypto, hex, generate_secret_key, hash_secret, verify_hmac_signature}
use easyhooks.Security.Signature.{verify_hmac_signature_iff}
use easyhooks.Service.Streams.{UuidLib}
use easyhooks.Middleware.{
  auth_key, hmac_key, session_key, found, check_signature, authenticate_via_hmac, check_secret,
  authenticate_via_bearer,
}
use easyhooks.Service.Tenant.{CreateTenantResult, finish_tenant, store_tenant, create_tenant}

keys-differ : (tenant_id : Bytes) → bytes_eq (hmac_key tenant_id) (auth_key tenant_id) ≡ false
unfolding bytes_eq
keys-differ tenant_id = refl

module _ {W : Type 0} (env : Env W) (crypto : Crypto) (uuid : UuidLib) (cfg : Config) where
  abbrev auth_of : Bytes → Bytes
  auth_of tenant_id = auth_key (uuid.to_string tenant_id)

  abbrev hmac_of : Bytes → Bytes
  hmac_of tenant_id = hmac_key (uuid.to_string tenant_id)

  -- The ends of the creation of a tenant: both credentials are stored; nothing, or the first of
  -- them, was asked for; or the second failed and the first was asked to be deleted.
  pub data Provisioned (s : State W) (after : Result CreateTenantResult × State W) : Type 0 where
    created :
        (result : CreateTenantResult) (hash : Bytes) (w : W)
        → after.0 ≡ ok result
        → (env.bcrypt_hash result.secret_key w).0 ≡ ok hash
        → stored env (auth_of result.tenant_id) after.1.world ≡ ok hash
        → stored env (hmac_of result.tenant_id) after.1.world ≡ ok result.secret_key
        → Provisioned s after
    unasked :
        (e : Error)
        → after.0 ≡ err e
        → commands after.1.events ≡ commands s.events
        → Provisioned s after
    unsaved :
        (e : Error) (tenant_id hash : Bytes)
        → after.0 ≡ err e
        → commands after.1.events ≡ set (auth_of tenant_id) hash (pos 0) ∷ commands s.events
        → Provisioned s after
    undone :
        (e : Error) (tenant_id hash secret : Bytes)
        → after.0 ≡ err e
        → commands after.1.events
          ≡ del (auth_of tenant_id)
            ∷ set (hmac_of tenant_id) secret (pos 0)
            ∷ set (auth_of tenant_id) hash (pos 0)
            ∷ commands s.events
        → Provisioned s after

  module _ (laws : KeyLaws env) where
    store_tenant-Provisioned :
        (s t : State W) (raw hash tenant_id : Bytes) (w : W)
        → commands t.events ≡ commands s.events
        → (env.bcrypt_hash raw w).0 ≡ ok hash
        → Provisioned s (store_tenant env crypto uuid cfg raw hash tenant_id t)
    unfolding store_tenant finish_tenant commands ◌>>=◌
    store_tenant-Provisioned s t raw hash tenant_id w same hashed =
        elim (Result-cases (env.set (auth_of tenant_id) hash (pos 0) t.world).0) [
          | inl (u, e) ↦
              elim (Result-cases
                (env.set (hmac_of tenant_id) raw (pos 0)
                  (env.set (auth_of tenant_id) hash (pos 0) t.world).1).0) [
                    | inl (v, f) ↦
                        rw (e, f)
                          (created (record { tenant_id = tenant_id; secret_key = raw }) hash w refl
                            hashed
                            (laws.set_other (auth_of tenant_id) (hmac_of tenant_id) raw (pos 0) _
                                (keys-differ (uuid.to_string tenant_id))
                              ∙ laws.set_stored (auth_of tenant_id) hash (pos 0) t.world e)
                            (laws.set_stored (hmac_of tenant_id) raw (pos 0) _ f))
                    | inr (y, f) ↦
                        rw (e, f)
                          (undone _ tenant_id hash raw refl (
                            ap
                              (λ (cs : List Command).
                                del (auth_of tenant_id)
                                ∷ set (hmac_of tenant_id) raw (pos 0)
                                ∷ set (auth_of tenant_id) hash (pos 0)
                                ∷ cs)
                              same))
                  ]
          | inr (y, e) ↦ rw e (
              unsaved _ tenant_id hash refl
                (ap (λ (cs : List Command). set (auth_of tenant_id) hash (pos 0) ∷ cs) same))
        ]

    -- On a server that keeps its promises about keys, the creation of a tenant ends in success with
    -- both credentials stored, the hash being bcrypt's of the secret that is returned; in an error
    -- before any command, or after the first SET alone; or in an error with the first key asked to
    -- be deleted after the second SET failed.
    pub create_tenant-Provisioned :
        (s : State W) → Provisioned s (create_tenant env crypto uuid cfg s)
    unfolding create_tenant generate_secret_key hash_secret ◌>>=◌
    create_tenant-Provisioned s = elim (Result-cases (env.random cfg.secret_key_bytes s.world).0) [
      | inl (b, e) ↦
          elim (Result-cases
            (env.bcrypt_hash (crypto.base64_encode b)
              (env.random cfg.secret_key_bytes s.world).1).0) [
                | inl (hash, f) ↦
                    rw (e, f)
                      (store_tenant-Provisioned s _ (crypto.base64_encode b) hash _ _ refl f)
                | inr (y, f) ↦ rw (e, f) (unasked _ refl refl)
              ]
      | inr (y, e) ↦ rw e (unasked _ refl refl)
    ]

    result_of :
        (s : State W) (result : CreateTenantResult) (x : Result CreateTenantResult × State W)
        → Provisioned s x
        → x.0 ≡ ok result
        → (hash : Bytes) × (w : W) × ((env.bcrypt_hash result.secret_key w).0 ≡ ok hash)
          × (stored env (auth_of result.tenant_id) x.1.world ≡ ok hash)
          × (stored env (hmac_of result.tenant_id) x.1.world ≡ ok result.secret_key)
    result_of s result x (created r hash w e h a m) g =
        subst
          (λ (q : CreateTenantResult).
            (hash : Bytes) × (w : W) × ((env.bcrypt_hash q.secret_key w).0 ≡ ok hash)
            × (stored env (auth_of q.tenant_id) x.1.world ≡ ok hash)
            × (stored env (hmac_of q.tenant_id) x.1.world ≡ ok q.secret_key))
          (ok-injective (sym e ∙ g)) (hash, w, h, a, m)
    result_of s result x (unasked y e c) g = absurd (cc (e, g))
    result_of s result x (unsaved y t h e c) g = absurd (cc (e, g))
    result_of s result x (undone y t h k e c) g = absurd (cc (e, g))

    check_signature-valid :
        (tenant_id signature body key : Bytes) (t : State W)
        → verify_hmac_signature crypto key body signature ≡ true
        → (check_signature env crypto tenant_id signature body (ok key) t).0 ≡ ok tenant_id
    unfolding check_signature ◌>>=◌
    check_signature-valid tenant_id signature body key t v = rw v refl

    check_secret-valid :
        (tenant_id session raw hash : Bytes) (t : State W)
        → crypto.bcrypt_compare hash raw ≡ true
        → (check_secret env crypto cfg tenant_id session raw (ok hash) t).0 ≡ ok tenant_id
    unfolding check_secret ◌>>=◌
    check_secret-valid tenant_id session raw hash t v = rw v refl

    via_hmac-valid :
        (tenant_id key body : Bytes) (t : State W)
        → stored env (hmac_of tenant_id) t.world ≡ ok key
        → (authenticate_via_hmac env crypto uuid tenant_id
            (codes "sha256=" ++ hex (crypto.hmac_sha256 key body))
            body
            t).0
          ≡ ok tenant_id
    unfolding authenticate_via_hmac ◌>>=◌
    via_hmac-valid tenant_id key body t e =
        let signature = codes "sha256=" ++ hex (crypto.hmac_sha256 key body) in
        rw e (
          check_signature-valid tenant_id signature body key _
            ((verify_hmac_signature_iff crypto key body signature).1 refl))

    via_bearer-valid :
        (tenant_id raw hash : Bytes) (t : State W)
        → stored env (auth_of tenant_id) t.world ≡ ok hash
        → crypto.bcrypt_compare hash raw ≡ true
        → (authenticate_via_bearer env crypto uuid cfg tenant_id raw t).0 ≡ ok tenant_id
    unfolding authenticate_via_bearer ◌>>=◌
    via_bearer-valid tenant_id raw hash t e v =
        let session = session_key crypto (uuid.to_string tenant_id) raw in
        elim (Bool-cases (found (env.exists session t.world).0)) [
          | inl there ↦ rw there refl
          | inr gone ↦
              rw (gone, laws.exists_same (auth_of tenant_id) session t.world, e)
                (check_secret-valid tenant_id session raw hash _ v)
        ]

    module _ (s : State W) (result : CreateTenantResult)
        (made : (create_tenant env crypto uuid cfg s).0 ≡ ok result) where
      abbrev later : State W
      later = (create_tenant env crypto uuid cfg s).1

      -- On a server that keeps its promises about keys, a tenant that was created is let in at
      -- once: with the signature of any body by the secret that was returned, and with that secret
      -- as a bearer token, if bcrypt accepts what it hashed.
      pub created-authenticated :
          (body : Bytes)
          → ((hash raw : Bytes) (w : W)
              → (env.bcrypt_hash raw w).0 ≡ ok hash
              → crypto.bcrypt_compare hash raw ≡ true)
          → ((authenticate_via_hmac env crypto uuid result.tenant_id
                (codes "sha256=" ++ hex (crypto.hmac_sha256 result.secret_key body))
                body
                later).0
              ≡ ok result.tenant_id)
            × ((authenticate_via_bearer env crypto uuid cfg result.tenant_id result.secret_key
                  later).0
                ≡ ok result.tenant_id)
      created-authenticated body bcrypt =
          let (hash, w, hashed, auth, hmac) =
            result_of s result _ (create_tenant-Provisioned s) made in
          (
            via_hmac-valid result.tenant_id result.secret_key body later hmac,
            via_bearer-valid result.tenant_id result.secret_key hash later auth
                (bcrypt hash result.secret_key w hashed),
          )
