-- ===== src/Runtime/Errors.antt =====
-- Go `error` values, as the code tells them apart: by `==`, by `errors.Is`, by a type assertion and
-- by their text.
use easyhooks.Prelude.{◌≡◌, refl, ◌⊎◌, inl, inr, ap, ℕ, Bytes, codes, Bool, true, false, ◌++◌}

pub data Error : Type 0 where
  -- goredis.Nil
  redis_nil : Error
  -- context.Canceled, context.DeadlineExceeded
  canceled deadline_exceeded : Error
  -- redisstore.ErrAdminNotSeeded
  admin_not_seeded : Error
  -- middleware.authErr: a status code and a message
  auth_err : ℕ → Bytes → Error
  -- security.InvalidTokenError: its reason
  invalid_token : Bytes → Error
  -- errors.New, fmt.Errorf without `%w`, and all other errors of other packages
  message : Bytes → Error
  -- fmt.Errorf("<text>: %w", err)
  wrapped : Bytes → Error → Error

unfoldable pub error_text : Error → Bytes
error_text redis_nil = codes "redis: nil"
error_text canceled = codes "context canceled"
error_text deadline_exceeded = codes "context deadline exceeded"
error_text admin_not_seeded = codes "admin token hash not seeded"
error_text (auth_err code text) = text
error_text (invalid_token reason) = codes "invalid token: " ++ reason
error_text (message text) = text
error_text (wrapped text e) = text ++ (codes ": " ++ error_text e)

-- errors.Is(err, goredis.Nil)
unfoldable pub is_redis_nil : Error → Bool
is_redis_nil redis_nil = true
is_redis_nil (wrapped text e) = is_redis_nil e
is_redis_nil _ = false

-- err == goredis.Nil
abbrev pub eq_redis_nil : Error → Bool
eq_redis_nil redis_nil = true
eq_redis_nil _ = false

-- errors.Is(err, redisstore.ErrAdminNotSeeded)
unfoldable pub is_admin_not_seeded : Error → Bool
is_admin_not_seeded admin_not_seeded = true
is_admin_not_seeded (wrapped text e) = is_admin_not_seeded e
is_admin_not_seeded _ = false

-- errors.Is(err, context.Canceled) || errors.Is(err, context.DeadlineExceeded)
unfoldable pub is_context_done : Error → Bool
is_context_done canceled = true
is_context_done deadline_exceeded = true
is_context_done (wrapped text e) = is_context_done e
is_context_done _ = false

-- The result of a fallible call, `(T, error)`.
pub data Result (A : Type 0) : Type 0 where
  ok : A → Result A
  err : Error → Result A

infixl 10 ◌>>=◌
abbrev pub ◌>>=◌ : {A B : Type 0} → Result A → (A → Result B) → Result B
ok a >>= f = f a
err e >>= f = err e

abbrev value_or : {A : Type 0} → A → Result A → A
value_or a (ok b) = b
value_or a (err e) = a

pub ok-injective : {A : Type 0} {a b : A} → ok a ≡ ok b → a ≡ b
ok-injective {a} e = ap (value_or a) e

abbrev error_or : {A : Type 0} → Error → Result A → Error
error_or e (ok a) = e
error_or e (err f) = f

pub err-injective : {A : Type 0} {e f : Error} → ◌≡◌ {A = Result A} (err e) (err f) → e ≡ f
err-injective {e} h = ap (error_or e) h

pub Result-cases :
    {A : Type 0} (r : Result A) → ((a : A) × (r ≡ ok a)) ⊎ ((e : Error) × (r ≡ err e))
Result-cases (ok a) = inl (a, refl)
Result-cases (err e) = inr (e, refl)
