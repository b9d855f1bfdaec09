-- ===== src/Runtime/Keys.antt =====
-- What the code relies on of Redis' keys, for a server that nobody else writes to.
use easyhooks.Prelude.{
  ℤ, pos, ltb_ℤ, Bytes, bytes_eq, bytes_eq_refl, true, false, Bool-cases, Option, none, some, List,
  [], ◌∷◌, ◌≡◌, refl, subst, inl, inr,
}
use easyhooks.Runtime.Errors.{redis_nil, Result, ok, err, ok-injective}
use easyhooks.Runtime.Env.{Env}
use easyhooks.Runtime.Fake.{fake, find_key, drop_key, or_nil, number_of}

-- The answer of GET in a world.
abbrev pub stored : {W : Type 0} → Env W → Bytes → W → Result Bytes
stored env k w = (env.get k w).0

-- A key that SET acknowledges has its value, and no other key changes; a key that DEL acknowledges
-- is gone; EXISTS tells of a value, and asking changes nothing; nor do bcrypt, the random numbers
-- and the ids.
pub record KeyLaws {W : Type 0} (env : Env W) : Type 0 where
  pub set_stored :
      (k v : Bytes) (ttl : ℤ) (w : W)
      → (env.set k v ttl w).0 ≡ ok tt
      → stored env k (env.set k v ttl w).1 ≡ ok v
  pub set_other :
      (j k v : Bytes) (ttl : ℤ) (w : W)
      → bytes_eq k j ≡ false
      → stored env j (env.set k v ttl w).1 ≡ stored env j w
  pub del_stored :
      (k : Bytes) (n : ℤ) (w : W)
      → (env.del k w).0 ≡ ok n
      → stored env k (env.del k w).1 ≡ err redis_nil
  pub exists_stored :
      (k v : Bytes) (n : ℤ) (w : W)
      → stored env k w ≡ ok v
      → (env.exists k w).0 ≡ ok n
      → ltb_ℤ (pos 0) n ≡ true
  pub exists_same : (j k : Bytes) (w : W) → stored env j (env.exists k w).1 ≡ stored env j w
  pub hash_same : (j raw : Bytes) (w : W) → stored env j (env.bcrypt_hash raw w).1 ≡ stored env j w

find_key-drop_key : (k : Bytes) (m : List (Bytes × Bytes)) → find_key k (drop_key k m) ≡ none
unfolding find_key drop_key
find_key-drop_key k [] = refl
find_key-drop_key k ((j, v) ∷ m) = elim (Bool-cases (bytes_eq j k)) [
  | inl same ↦ rw same (find_key-drop_key k m)
  | inr other ↦ rw (other, other) (find_key-drop_key k m)
]

nil-ne-ok : {v : Bytes} → ◌≡◌ {A = Result Bytes} (err redis_nil) (ok v) → ⊥
nil-ne-ok e = cc

number_of-found :
    {v : Bytes} {n : ℤ} (o : Option Bytes)
    → or_nil o ≡ ok v
    → ok (number_of o) ≡ ok n
    → ltb_ℤ (pos 0) n ≡ true
number_of-found none h e = absurd (nil-ne-ok h)
number_of-found (some v) h e = subst (λ (m : ℤ). ltb_ℤ (pos 0) m ≡ true) (ok-injective e) refl

pub fake-KeyLaws : KeyLaws fake
unfolding fake
fake-KeyLaws = record {
  set_stored = λ k v ttl w h. unfold find_key in rw (bytes_eq_refl k) refl;
  set_other = λ j k v ttl w h. unfold find_key in rw h refl;
  del_stored = λ k n w h. rw (find_key-drop_key k w.keys) refl;
  exists_stored = λ k v n w h e. number_of-found (find_key k w.keys) h e;
  exists_same = λ j k w. refl;
  hash_same = λ j raw w. refl;
}
