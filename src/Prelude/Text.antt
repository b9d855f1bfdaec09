-- ===== src/Prelude/Text.antt =====
-- Go strings and byte slices are sequences of bytes.
use Prim.Native.Nat.{ℕ}
use Prim.Native.Char.{code}
use Prim.Native.String.{String}
use mathlib.Core.Path.{◌≡◌, refl}
use mathlib.Core.Logic.{◌↔◌}
use mathlib.Core.Bool.{Bool, true, false, ◌&&◌}
use mathlib.Core.Option.{Option, none, some}
use mathlib.Core.List.{List, [], ◌∷◌, ◌++◌}
use native.Mathlib.Omega.{arith}
use easyhooks.Prelude.Tests.{◌==◌, if◌then◌else◌}

abbrev pub Bytes : Type 0
Bytes = List ℕ

-- An ASCII literal.
abbrev pub codes : String → Bytes
codes String.[] = []
codes (String.◌∷◌ c s) = code c ∷ codes s

unfoldable pub bytes_eq : Bytes → Bytes → Bool
bytes_eq [] [] = true
bytes_eq [] (y ∷ ys) = false
bytes_eq (x ∷ xs) [] = false
bytes_eq (x ∷ xs) (y ∷ ys) = x == y && bytes_eq xs ys

pub bytes_eq→eq : (xs ys : Bytes) → bytes_eq xs ys ≡ true → xs ≡ ys
unfolding bytes_eq
bytes_eq→eq [] [] h = refl
bytes_eq→eq [] (y ∷ ys) h = cc
bytes_eq→eq (x ∷ xs) [] h = cc
bytes_eq→eq (x ∷ xs) (y ∷ ys) h = ground (arith, bytes_eq→eq xs ys)

pub bytes_eq_refl : (xs : Bytes) → bytes_eq xs xs ≡ true
unfolding bytes_eq
bytes_eq_refl [] = refl
bytes_eq_refl (x ∷ xs) = ground (arith, bytes_eq_refl xs)

pub bytes_eq_iff : (xs ys : Bytes) → (bytes_eq xs ys ≡ true) ↔ (xs ≡ ys)
bytes_eq_iff xs ys = (bytes_eq→eq xs ys, λ e. subst_eq e)
  where
    subst_eq : xs ≡ ys → bytes_eq xs ys ≡ true
    subst_eq e = rw e (bytes_eq_refl ys)

-- A byte does not occur.
abbrev pub Lacks : ℕ → Bytes → Type 0
Lacks sep [] = Unit {0}
Lacks sep (c ∷ s) = ((c == sep) ≡ false) × Lacks sep s

abbrev pub is_empty : Bytes → Bool
is_empty [] = true
is_empty (x ∷ xs) = false

-- `strings.CutPrefix`: the rest behind a prefix.
unfoldable pub strip_prefix : Bytes → Bytes → Option Bytes
strip_prefix [] s = some s
strip_prefix (p ∷ ps) [] = none
strip_prefix (p ∷ ps) (c ∷ s) = if p == c then strip_prefix ps s else none

-- `strings.HasPrefix`
unfoldable pub has_prefix : Bytes → Bytes → Bool
unfolding strip_prefix
has_prefix s p = elim (strip_prefix p s) [ none ↦ false | some rest ↦ true ]

-- `strings.TrimPrefix`: without the prefix, or the text itself.
unfoldable pub trim_prefix : Bytes → Bytes → Bytes
unfolding strip_prefix
trim_prefix s p = elim (strip_prefix p s) [ none ↦ s | some rest ↦ rest ]

pub strip_prefix-append : (p s : Bytes) → strip_prefix p (p ++ s) ≡ some s
unfolding strip_prefix
strip_prefix-append [] s = refl
strip_prefix-append (c ∷ p) s = ground (arith, strip_prefix-append p s)

pub strip_prefix-eq-some : (p s rest : Bytes) → strip_prefix p s ≡ some rest → s ≡ p ++ rest
unfolding strip_prefix
strip_prefix-eq-some [] s rest h = ground arith
strip_prefix-eq-some (c ∷ p) [] rest h = cc
strip_prefix-eq-some (c ∷ p) (d ∷ s) rest h = ground (arith, strip_prefix-eq-some p s rest)

-- `strings.Contains(s, p)`
unfoldable pub contains : Bytes → Bytes → Bool
unfolding has_prefix
contains [] p = has_prefix [] p
contains (c ∷ s) p = let rest = contains s p in if has_prefix (c ∷ s) p then true else rest

-- A lookup in a map with text keys.
unfoldable pub lookup {ℓ} : {V : Type ℓ} → List (Bytes × V) → Bytes → Option V
unfolding bytes_eq
lookup [] k = none
lookup ((j, v) ∷ m) k = if bytes_eq j k then some v else lookup m k
