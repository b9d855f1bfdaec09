-- ===== src/Security/Fake.antt =====
-- Small libraries in place of the real ones, at which the theorems are applied.
use easyhooks.Prelude.{
  Lacks, zero, suc, ◌+◌, ◌-◌, ℤ, pos, negsuc, Bytes, codes, bytes_eq, [], ◌∷◌, ◌++◌, ◌≡◌, refl,
  arith,
}
use easyhooks.Runtime.Errors.{message, Result, ok, err}
use easyhooks.Security.{Crypto, WsPayload, dot}
use easyhooks.Security.Tokens.{Faithful}
use easyhooks.Service.Streams.{UuidLib}

unfoldable pub shifted : Bytes → Bytes
shifted [] = []
shifted (c ∷ s) = (c + 47) ∷ shifted s

unfoldable pub unshifted : Bytes → Bytes
unshifted [] = []
unshifted (c ∷ s) = (c - 47) ∷ unshifted s

abbrev print : WsPayload → ℤ → Bytes
print p (pos n) = 0 ∷ n ∷ p.sub
print p (negsuc n) = 1 ∷ n ∷ p.sub

abbrev scan : Bytes → Result WsPayload
scan (zero ∷ n ∷ sub) = ok (record { sub = sub; exp = pos n })
scan (suc k ∷ n ∷ sub) = ok (record { sub = sub; exp = negsuc n })
scan other = err (message (codes "not a payload"))

abbrev pub toy : Crypto
toy = record {
  hmac_sha256 = λ key bytes. key ++ bytes;
  sha256 = λ bytes. bytes;
  base64_encode = λ bytes. shifted bytes;
  base64_decode = λ s. ok (unshifted s);
  marshal = λ p. print p p.exp;
  unmarshal = scan;
  bcrypt_compare = λ hashed raw. bytes_eq hashed (codes "$2a$" ++ raw);
}

abbrev pub plain_uuid : UuidLib
plain_uuid = record { parse = ok; to_string = λ id. id }

unshifted-shifted : (s : Bytes) → unshifted (shifted s) ≡ s
unfolding shifted unshifted
unshifted-shifted [] = refl
unshifted-shifted (c ∷ s) = ground (arith, unshifted-shifted s)

shifted-Lacks : (s : Bytes) → Lacks dot (shifted s)
unfolding shifted
shifted-Lacks [] = tt
shifted-Lacks (c ∷ s) = (ground arith, shifted-Lacks s)

scan-print : (p : WsPayload) (e : ℤ) → scan (print p e) ≡ ok (record p { exp = e })
scan-print p (pos n) = refl
scan-print p (negsuc n) = refl

pub toy-Faithful : Faithful toy plain_uuid
toy-Faithful = record {
  base64 = λ x. rw (unshifted-shifted x) refl;
  no_dot = shifted-Lacks;
  json = λ id exp named small. scan-print (record { sub = id; exp = exp }) exp;
}
