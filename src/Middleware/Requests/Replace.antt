-- ===== src/Middleware/Requests/Replace.antt =====
-- `ReplaceAllString` with a pattern whose literal starts and ends with a slash, on texts that have
-- no slash behind the place of the literal.
use mathlib.Core.List.{append_assoc}
use easyhooks.Prelude.{
  ℕ, zero, suc, ◌+◌, ◌==◌, Bytes, Lacks, strip_prefix, strip_prefix-eq-some, length, Bool, true,
  false, none, Option-cases, [], ◌∷◌, ◌++◌, ◌≡◌, refl, ap, ◌∙◌, subst, inl, inr, arith,
  if◌then◌else◌,
}
use easyhooks.Middleware.Requests.{matches, id_behind, replace_from}

-- A text without its first bytes.
abbrev pub behind : ℕ → Bytes → Bytes
behind zero s = s
behind (suc n) [] = []
behind (suc n) (c ∷ s) = behind n s

pub Lacks-behind : (sep n : ℕ) (s : Bytes) → Lacks sep s → Lacks sep (behind n s)
Lacks-behind sep zero s l = l
Lacks-behind sep (suc n) [] l = l
Lacks-behind sep (suc n) (c ∷ s) l = Lacks-behind sep n s l.1

module _ (literal replacement : Bytes) where
  abbrev replaced : ℕ → Bytes → Bytes
  replaced = replace_from literal replacement

  pub replace-miss :
      (c : ℕ) (s : Bytes) → matches literal (c ∷ s) ≡ false → replaced 0 (c ∷ s) ≡ c ∷ replaced 0 s
  unfolding replace_from
  replace-miss c s e =
      ap
        (λ (b : Bool). elim b [
          | true ↦ replacement ++ replaced (length literal + 35) s
          | false ↦ c ∷ replaced 0 s
        ])
        e

  replace-hit :
      (c : ℕ) (s : Bytes)
      → matches literal (c ∷ s) ≡ true
      → replaced 0 (c ∷ s) ≡ replacement ++ replaced (length literal + 35) s
  unfolding replace_from
  replace-hit c s e =
      ap
        (λ (b : Bool). elim b [
          | true ↦ replacement ++ replaced (length literal + 35) s
          | false ↦ c ∷ replaced 0 s
        ])
        e

  replace-skipped : (skip : ℕ) (s : Bytes) → replaced skip s ≡ replaced 0 (behind skip s)
  unfolding replace_from
  replace-skipped zero s = refl
  replace-skipped (suc skip) [] = refl
  replace-skipped (suc skip) (c ∷ s) = replace-skipped skip s

unfoldable pub is_lacking : ℕ → Bytes → Bool
is_lacking sep [] = true
is_lacking sep (c ∷ s) = if c == sep then false else is_lacking sep s

pub Lacks-plain :
    (sep : ℕ) (a b : Bytes) → is_lacking sep a ≡ true → Lacks sep b → Lacks sep (a ++ b)
unfolding is_lacking
Lacks-plain sep [] b e l = l
Lacks-plain sep (c ∷ a) b e l = (ground arith, Lacks-plain sep a b (ground arith) l)

behind-append : (n : ℕ) (a b : Bytes) → behind (length a + n) (a ++ b) ≡ behind n b
behind-append n [] b = ap (λ (k : ℕ). behind k b) (omega arith)
behind-append n (c ∷ a) b =
    ap (λ (k : ℕ). behind k (c ∷ a ++ b)) (suc_first (length a)) ∙ behind-append n a b
  where
    suc_first : (k : ℕ) → suc k + n ≡ suc (k + n)
    suc_first k = omega arith

Lacks-append : (sep : ℕ) (a b : Bytes) → Lacks sep (a ++ sep ∷ b) → ⊥
Lacks-append sep [] b h = ground arith
Lacks-append sep (c ∷ a) b h = Lacks-append sep a b h.1

-- A text without a slash has no match of a literal that starts with one, or has one at its end.
module _ (stem replacement : Bytes) where
  abbrev slashed : Bytes
  slashed = b'/' ∷ stem ++ b'/' ∷ []

  plain-misses : (c : ℕ) (s : Bytes) → (c == b'/') ≡ false → matches slashed (c ∷ s) ≡ false
  unfolding matches strip_prefix
  plain-misses c s other = ap id_behind (no_prefix other)
    where
      no_prefix : (c == b'/') ≡ false → strip_prefix slashed (c ∷ s) ≡ none
      no_prefix other = ground arith

  slash-misses : (s : Bytes) → Lacks b'/' s → matches slashed (b'/' ∷ s) ≡ false
  unfolding matches strip_prefix
  slash-misses s n = elim (Option-cases (strip_prefix (stem ++ b'/' ∷ []) s)) [
    | inl e ↦ ap id_behind e
    | inr (rest, e) ↦
        let whole =
          strip_prefix-eq-some (stem ++ b'/' ∷ []) s rest e ∙ append_assoc stem (b'/' ∷ []) rest in
        absurd (Lacks-append b'/' stem rest (subst (Lacks b'/') whole n))
  ]

  pub slashless-stays : (s : Bytes) → Lacks b'/' s → replace_from slashed replacement 0 s ≡ s
  unfolding replace_from
  slashless-stays [] n = refl
  slashless-stays (c ∷ s) n =
      replace-miss slashed replacement c s (plain-misses c s n.0)
      ∙ ap (λ (t : Bytes). c ∷ t) (slashless-stays s n.1)

  -- So has an id behind a slash.
  pub id-stays :
      (id : Bytes) → Lacks b'/' id → replace_from slashed replacement 0 (b'/' ∷ id) ≡ b'/' ∷ id
  id-stays id n =
      replace-miss slashed replacement b'/' id (slash-misses id n)
      ∙ ap (λ (t : Bytes). b'/' ∷ t) (slashless-stays id n)

  pub hit-replaced :
      (id : Bytes)
      → Lacks b'/' id
      → matches slashed (slashed ++ id) ≡ true
      → replace_from slashed replacement 0 (slashed ++ id) ≡ replacement ++ behind 36 id
  hit-replaced id n e =
      let tail = stem ++ b'/' ∷ [] in
      replace-hit slashed replacement b'/' (tail ++ id) e
      ∙ ap (λ (t : Bytes). replacement ++ t)
          (replace-skipped slashed replacement (length slashed + 35) (tail ++ id)
            ∙ ap (λ (t : Bytes). replace_from slashed replacement 0 t) (behind_whole tail)
            ∙ slashless-stays (behind 36 id) (Lacks-behind b'/' 36 id n))
    where
      behind_whole : (tail : Bytes) → behind (suc (length tail) + 35) (tail ++ id) ≡ behind 36 id
      behind_whole tail =
          ap (λ (k : ℕ). behind k (tail ++ id)) (omega arith) ∙ behind-append 36 tail id
