-- ===== src/Middleware/Admin.antt =====
-- The administrator: its seeding and who passes for it.
use easyhooks.Prelude.{
  ℕ, ◌≤◌, ℤ, Bytes, codes, has_prefix, true, Bool-cases, ◌≡◌, refl, ◌∙◌, inl, inr, arith, if_rule,
}
use easyhooks.Runtime.Errors.{
  Error, is_redis_nil, is_admin_not_seeded, admin_not_seeded, Result, ok, err,
}
use easyhooks.Runtime.Env.{Env}
use easyhooks.Runtime.Exec.{State, Exec, ◌>>=◌}
use easyhooks.Runtime.Keys.{stored, KeyLaws}
use easyhooks.Security.{Crypto}
use easyhooks.Http.{Request, Response, header, write_error}
use easyhooks.Middleware.{
  admin_token_hash_key, bearer_prefix, check_admin, verify_admin, seed_super_admin, seed_if,
  serve_admin, admin_auth,
}
use easyhooks.Middleware.Tenants.{secret_of}

module _ {W : Type 0} (env : Env W) (crypto : Crypto) where
  -- A request either reaches the handler, with a bearer token that matches the stored hash, or is
  -- answered with an error.
  pub data Admitted (next : Request → Exec W Response) (r : Request) (s : State W)
      (after : Result Response × State W) : Type 0 where
    passed :
        (hash : Bytes) (t : State W)
        → has_prefix (header r (codes "Authorization")) bearer_prefix ≡ true
        → stored env admin_token_hash_key s.world ≡ ok hash
        → crypto.bcrypt_compare hash (secret_of r) ≡ true
        → after ≡ next r t
        → Admitted next r s after
    refused :
        (code : ℕ) (detail : Bytes)
        → 400 ≤ code
        → after.0 ≡ ok (write_error code detail)
        → Admitted next r s after

  module _ (next : Request → Exec W Response) (r : Request) (s : State W) where
    serve-err-Admitted :
        (e : Error) (t : State W) → Admitted next r s (serve_admin env crypto next r (err e) t)
    unfolding serve_admin ◌>>=◌
    serve-err-Admitted e t =
        if_rule (λ (x : Exec W Response). Admitted next r s (x t)) (is_admin_not_seeded e)
          (λ _. refused 503 _ (omega arith) refl) (λ _. refused 500 _ (omega arith) refl)

    check_admin-Admitted :
        (reply : Result Bytes) (t : State W)
        → has_prefix (header r (codes "Authorization")) bearer_prefix ≡ true
        → stored env admin_token_hash_key s.world ≡ reply
        → Admitted next r s (
            serve_admin env crypto next r
              (check_admin env crypto (secret_of r) reply t).0
              (check_admin env crypto (secret_of r) reply t).1)
    unfolding check_admin serve_admin ◌>>=◌
    check_admin-Admitted (ok hash) t bearer g =
        elim (Bool-cases (crypto.bcrypt_compare hash (secret_of r))) [
          | inl valid ↦ rw valid (passed hash t bearer g valid refl)
          | inr wrong ↦ rw wrong (refused 403 _ (omega arith) refl)
        ]
    check_admin-Admitted (err e) t bearer g = elim (Bool-cases (is_redis_nil e)) [
      | inl missing ↦ rw missing (serve-err-Admitted admin_not_seeded t)
      | inr failing ↦ rw failing (serve-err-Admitted _ t)
    ]

    -- The outcome of a request for the administrator is either the handler's, and then the request
    -- has a bearer token that matches the stored hash; or it is an error of at least 400.
    pub admin_auth-Admitted : Admitted next r s (admin_auth env crypto next r s)
    unfolding admin_auth verify_admin ◌>>=◌
    admin_auth-Admitted =
        if_rule (λ (x : Exec W Response). Admitted next r s (x s))
          (has_prefix (header r (codes "Authorization")) bearer_prefix)
          (λ bearer. check_admin-Admitted _ _ bearer refl) (λ _. refused 401 _ (omega arith) refl)

  -- Once a hash is stored, seeding with any token leaves it alone and succeeds, if the server
  -- answers whether the key is there.
  pub seed_again :
      (token hash : Bytes) (n : ℤ) (s : State W)
      → KeyLaws env
      → stored env admin_token_hash_key s.world ≡ ok hash
      → (env.exists admin_token_hash_key s.world).0 ≡ ok n
      → ((seed_super_admin env crypto token s).0 ≡ ok tt)
        × (stored env admin_token_hash_key (seed_super_admin env crypto token s).1.world ≡ ok hash)
  unfolding seed_super_admin seed_if ◌>>=◌
  seed_again token hash n s laws kept answer =
      rw (answer, laws.exists_stored admin_token_hash_key hash n s.world kept answer)
        (refl, laws.exists_same admin_token_hash_key admin_token_hash_key s.world ∙ kept)
