-- ===== src/Security/Tokens.antt =====
-- Signed tokens: the check of a token, step by step, and what it accepts.
use easyhooks.Prelude.{
  Lacks, ℕ, ℤ, ltb_ℤ, Bytes, codes, bytes_eq, bytes_eq_iff, bytes_eq_refl, true, false, Bool-cases,
  none, some, Option-cases, [], ◌∷◌, ◌++◌, if◌then◌else◌, ◌≡◌, refl, sym, ap, ◌∙◌, inl, inr, ◌↔◌,
  arith, IsInt64,
}
use easyhooks.Runtime.Errors.{Error, invalid_token, Result, ok, err, Result-cases}
use easyhooks.Runtime.Env.{Env}
use easyhooks.Runtime.Exec.{State, ◌>>=◌}
use easyhooks.Service.Streams.{UuidLib}
use easyhooks.Security.{
  Crypto, WsPayload, split_two, dot, sign_body, verify_payload, verify_parts, verify_signed_token,
  or_invalid,
}

split_two-append :
    (sep : ℕ) (a b : Bytes) → Lacks sep a → split_two sep (a ++ sep ∷ b) ≡ some (a, b)
unfolding split_two
split_two-append sep [] b n = ground arith
split_two-append sep (c ∷ a) b n = rw (n.0, split_two-append sep a b n.1)

-- What the code relies on of the libraries: decoding gives back the bytes, and the payloads of the
-- code's tokens, that were encoded, and unpadded base64 has no dot.
pub record Faithful (crypto : Crypto) (uuid : UuidLib) : Type 0 where
  pub base64 : (x : Bytes) → crypto.base64_decode (crypto.base64_encode x) ≡ ok x
  pub no_dot : (x : Bytes) → Lacks dot (crypto.base64_encode x)
  -- At the text of a UUID that the library reads back, and an int64.
  pub json :
      (id : Bytes) (exp : ℤ)
      → uuid.parse (uuid.to_string id) ≡ ok id
      → IsInt64 exp
      → crypto.unmarshal (crypto.marshal (record { sub = uuid.to_string id; exp = exp }))
        ≡ ok (record { sub = uuid.to_string id; exp = exp })

err-ne-ok : {A : Type 0} {x : Error} {a : A} → ◌≡◌ {A = Result A} (err x) (ok a) → ⊥
err-ne-ok e = cc

or_invalid-ok :
    {A : Type 0} {a : A} (reason : Bytes) (r : Result A) → or_invalid reason r ≡ ok a → r ≡ ok a
or_invalid-ok reason (ok a) h = h
or_invalid-ok reason (err e) h = absurd (err-ne-ok h)

module _ {W : Type 0} (env : Env W) (crypto : Crypto) (uuid : UuidLib) where
  -- The outcome at a time for a payload that is signed and decoded.
  abbrev pub judged : ℤ → WsPayload → Result Bytes
  judged now p =
      if ltb_ℤ p.exp now
      then err (invalid_token (codes "expired"))
      else or_invalid (codes "invalid sub") (uuid.parse p.sub)

  pub verify_payload-decoded :
      (body raw : Bytes) (p : WsPayload) (s : State W)
      → crypto.base64_decode body ≡ ok raw
      → crypto.unmarshal raw ≡ ok p
      → (verify_payload crypto env uuid body s).0 ≡ judged (env.now s.world).0 p
  unfolding verify_payload ◌>>=◌
  verify_payload-decoded body raw p s e f = elim (Bool-cases (ltb_ℤ p.exp (env.now s.world).0)) [
    | inl late ↦ rw (e, f, late) refl
    | inr valid ↦ rw (e, f, valid) refl
  ]

  verify_parts-signed :
      (key body : Bytes) (s : State W)
      → verify_parts crypto env uuid key (some (body, sign_body crypto body key)) s
        ≡ verify_payload crypto env uuid body s
  unfolding verify_parts
  verify_parts-signed key body s = rw (bytes_eq_refl (sign_body crypto body key))

  pub verify-signed :
      (key body : Bytes) (s : State W)
      → Lacks dot body
      → verify_signed_token crypto env uuid (body ++ dot ∷ sign_body crypto body key) key s
        ≡ verify_payload crypto env uuid body s
  unfolding verify_signed_token
  verify-signed key body s n =
      rw (split_two-append dot body (sign_body crypto body key) n) (verify_parts-signed key body s)

  -- What a token is made of, to be accepted for a tenant at a time: a body and, behind the first
  -- dot, the body's signature; the body is the base64 of a payload, which has not expired and names
  -- the tenant.
  pub record Accepts (token key : Bytes) (now : ℤ) (id : Bytes) : Type 0 where
    pub body : Bytes
    pub raw : Bytes
    pub payload : WsPayload
    pub shape : split_two dot token ≡ some (body, sign_body crypto body key)
    pub decoded : crypto.base64_decode body ≡ ok raw
    pub parsed : crypto.unmarshal raw ≡ ok payload
    pub live : ltb_ℤ payload.exp now ≡ false
    pub names : uuid.parse payload.sub ≡ ok id

  verify-Accepts :
      (token key id : Bytes) (s : State W)
      → Accepts token key (env.now s.world).0 id
      → (verify_signed_token crypto env uuid token key s).0 ≡ ok id
  unfolding verify_signed_token
  verify-Accepts token key id s a =
      rw
        (
          a.shape,
          verify_parts-signed key a.body s,
          verify_payload-decoded a.body a.raw a.payload s a.decoded a.parsed,
          a.live,
          a.names,
        )
        refl

  verify-shaped :
      (token key body : Bytes) (s : State W)
      → split_two dot token ≡ some (body, sign_body crypto body key)
      → verify_signed_token crypto env uuid token key s ≡ verify_payload crypto env uuid body s
  unfolding verify_signed_token
  verify-shaped token key body s e = rw e (verify_parts-signed key body s)

  verify_payload-undecoded :
      (body : Bytes) (x : Error) (s : State W)
      → crypto.base64_decode body ≡ err x
      → (verify_payload crypto env uuid body s).0 ≡ err (invalid_token (codes "malformed payload"))
  unfolding verify_payload ◌>>=◌
  verify_payload-undecoded body x s e = rw e refl

  verify_payload-unparsed :
      (body raw : Bytes) (x : Error) (s : State W)
      → crypto.base64_decode body ≡ ok raw
      → crypto.unmarshal raw ≡ err x
      → (verify_payload crypto env uuid body s).0 ≡ err (invalid_token (codes "malformed payload"))
  unfolding verify_payload ◌>>=◌
  verify_payload-unparsed body raw x s e f = rw (e, f) refl

  module _ (token key id : Bytes) (s : State W) where
    judged-late :
        (p : WsPayload)
        → ltb_ℤ p.exp (env.now s.world).0 ≡ true
        → judged (env.now s.world).0 p ≡ err (invalid_token (codes "expired"))
    judged-late p late = rw late refl

    judged-live :
        (p : WsPayload)
        → ltb_ℤ p.exp (env.now s.world).0 ≡ false
        → judged (env.now s.world).0 p ≡ or_invalid (codes "invalid sub") (uuid.parse p.sub)
    judged-live p live = rw live refl

    judged-ok :
        (p : WsPayload)
        → judged (env.now s.world).0 p ≡ ok id
        → (ltb_ℤ p.exp (env.now s.world).0 ≡ false) × (uuid.parse p.sub ≡ ok id)
    judged-ok p h = elim (Bool-cases (ltb_ℤ p.exp (env.now s.world).0)) [
      | inl late ↦ absurd (err-ne-ok (sym (judged-late p late) ∙ h))
      | inr valid ↦ (
        valid,
        or_invalid-ok (codes "invalid sub") (uuid.parse p.sub) (sym (judged-live p valid) ∙ h),
      )
    ]

    verify_payload-ok :
        (body : Bytes)
        → (verify_payload crypto env uuid body s).0 ≡ ok id
        → (raw : Bytes) × (p : WsPayload) × (crypto.base64_decode body ≡ ok raw)
          × (crypto.unmarshal raw ≡ ok p)
          × (judged (env.now s.world).0 p ≡ ok id)
    verify_payload-ok body h = elim (Result-cases (crypto.base64_decode body)) [
      | inl (raw, e) ↦ elim (Result-cases (crypto.unmarshal raw)) [
        | inl (p, f) ↦ (raw, p, e, f, sym (verify_payload-decoded body raw p s e f) ∙ h)
        | inr (x, f) ↦ absurd (err-ne-ok (sym (verify_payload-unparsed body raw x s e f) ∙ h))
      ]
      | inr (x, e) ↦ absurd (err-ne-ok (sym (verify_payload-undecoded body x s e) ∙ h))
    ]

    verify-unsigned :
        (body sig : Bytes)
        → split_two dot token ≡ some (body, sig)
        → bytes_eq sig (sign_body crypto body key) ≡ false
        → (verify_signed_token crypto env uuid token key s).0
          ≡ err (invalid_token (codes "bad signature"))
    unfolding verify_signed_token verify_parts ◌>>=◌
    verify-unsigned body sig e f = rw (e, f) refl

    verify-malformed :
        split_two dot token ≡ none
        → (verify_signed_token crypto env uuid token key s).0
          ≡ err (invalid_token (codes "malformed token"))
    unfolding verify_signed_token verify_parts ◌>>=◌
    verify-malformed e = rw e refl

    accepted :
        (body sig : Bytes)
        → split_two dot token ≡ some (body, sig)
        → (verify_signed_token crypto env uuid token key s).0 ≡ ok id
        → sig ≡ sign_body crypto body key
        → Accepts token key (env.now s.world).0 id
    accepted body sig e h same =
        let shape = e ∙ ap (λ (x : Bytes). some (body, x)) same in
        let run = ap (λ (x : Result Bytes × State W). x.0) (verify-shaped token key body s shape) in
        let (raw, p, f, g, j) = verify_payload-ok body (sym run ∙ h) in
        let (live, names) = judged-ok p j in
        record {
          body = body;
          raw = raw;
          payload = p;
          shape = shape;
          decoded = f;
          parsed = g;
          live = live;
          names = names;
        }

    -- A token is accepted for a tenant exactly if it is a body and, behind the first dot, the
    -- body's signature by the key, the body decodes to a payload that has not expired, and the
    -- payload names the tenant.
    pub verify_signed_token_iff :
        ((verify_signed_token crypto env uuid token key s).0 ≡ ok id)
        ↔ Accepts token key (env.now s.world).0 id
    verify_signed_token_iff = (
      λ h. elim (Option-cases (split_two dot token)) [
        | inl e ↦ absurd (err-ne-ok (sym (verify-malformed e) ∙ h))
        | inr ((body, sig), e) ↦ elim (Bool-cases (bytes_eq sig (sign_body crypto body key))) [
          | inl same ↦ accepted body sig e h ((bytes_eq_iff sig (sign_body crypto body key)).0 same)
          | inr other ↦ absurd (err-ne-ok (sym (verify-unsigned body sig e other) ∙ h))
        ]
      ],
      verify-Accepts token key id s,
    )
