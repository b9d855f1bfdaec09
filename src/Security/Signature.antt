-- ===== src/Security/Signature.antt =====
-- The signature of a webhook.
use easyhooks.Prelude.{
  ℕ, Bytes, codes, bytes_eq, bytes_eq_iff, bytes_eq_refl, trim_prefix, strip_prefix,
  strip_prefix-append, strip_prefix-eq-some, true, false, Bool-cases, none, some, Option-cases, ◌∷◌,
  ◌++◌, length, length-append, ◌≡◌, refl, sym, ap, subst, ◌∙◌, ◌⊎◌, inl, inr, ◌↔◌, arith,
}
use easyhooks.Security.{Crypto, hex, verify_hmac_signature}

trim_prefix-none : (s p : Bytes) → strip_prefix p s ≡ none → trim_prefix s p ≡ s
unfolding trim_prefix
trim_prefix-none s p e = rw (e, trim_prefix) refl

trim_prefix-append : (p rest : Bytes) → trim_prefix (p ++ rest) p ≡ rest
unfolding trim_prefix
trim_prefix-append p rest = rw (strip_prefix-append p rest, trim_prefix) refl

-- A text is not its own rest behind a prefix.
bytes_eq-append : (c : ℕ) (p rest : Bytes) → bytes_eq rest (c ∷ p ++ rest) ≡ false
bytes_eq-append c p rest = elim (Bool-cases (bytes_eq rest (c ∷ p ++ rest))) [
  | inl same ↦ absurd (longer ((bytes_eq_iff rest (c ∷ p ++ rest)).0 same))
  | inr other ↦ other
]
  where
    longer : rest ≡ c ∷ p ++ rest → ⊥
    longer e = ground (arith, ap (λ (x : Bytes). length x) e, length-append p rest)

module _ (crypto : Crypto) (secret_raw body : Bytes) where
  abbrev expected : Bytes
  expected = hex (crypto.hmac_sha256 secret_raw body)

  verify-prefixed :
      (rest : Bytes)
      → verify_hmac_signature crypto secret_raw body (codes "sha256=" ++ rest)
        ≡ bytes_eq rest expected
  unfolding verify_hmac_signature
  verify-prefixed rest =
      rw (trim_prefix-append (codes "sha256=") rest, bytes_eq-append 115 (codes "ha256=") rest)

  verify-unprefixed :
      (signature : Bytes)
      → strip_prefix (codes "sha256=") signature ≡ none
      → verify_hmac_signature crypto secret_raw body signature ≡ false
  unfolding verify_hmac_signature
  verify-unprefixed signature e =
      rw (trim_prefix-none signature (codes "sha256=") e, bytes_eq_refl signature)

  -- Exactly one signature is accepted for a secret and a body: the hex of their HMAC-SHA256, behind
  -- its prefix. In particular a signature without the prefix is refused.
  pub verify_hmac_signature_iff :
      (signature : Bytes)
      → (verify_hmac_signature crypto secret_raw body signature ≡ true)
        ↔ (signature ≡ codes "sha256=" ++ hex (crypto.hmac_sha256 secret_raw body))
  verify_hmac_signature_iff signature = (
    λ h. accepted h (Option-cases (strip_prefix (codes "sha256=") signature)),
    λ e. rw e (verify-prefixed expected ∙ bytes_eq_refl expected),
  )
    where
      accepted :
          verify_hmac_signature crypto secret_raw body signature ≡ true
          → (strip_prefix (codes "sha256=") signature ≡ none)
            ⊎ ((rest : Bytes) × (strip_prefix (codes "sha256=") signature ≡ some rest))
          → signature ≡ codes "sha256=" ++ expected
      accepted h (inl e) = absurd (cc (verify-unprefixed signature e, h))
      accepted h (inr (rest, e)) =
          let whole = strip_prefix-eq-some (codes "sha256=") signature rest e in
          let same =
            sym (verify-prefixed rest)
            ∙ subst (λ (x : Bytes). verify_hmac_signature crypto secret_raw body x ≡ true) whole
                h in
          whole ∙ ap (λ (x : Bytes). codes "sha256=" ++ x) ((bytes_eq_iff rest expected).0 same)
