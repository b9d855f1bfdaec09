-- ===== src/Http/Spaces/Plain.antt =====
-- `TrimSpace` on printable ASCII.
use mathlib.Core.List.{append_assoc, append-nil}
use easyhooks.Prelude.{
  ℕ, zero, suc, ◌≤◌, leb, ◌&&◌, ◌||◌, Bool, true, false, Bytes, All, map, strip_prefix, none, List,
  [], ◌∷◌, ◌++◌, length, ◌≡◌, refl, sym, ap, ◌∙◌, arith,
}
use easyhooks.Http.Spaces.{spaces, strip_any, go_on, trim_left, reversed, trim_space}

-- Printable, and no blank.
abbrev pub IsPlain : ℕ → Type 0
IsPlain c = (33 ≤ c) × (c ≤ 126)

foreign : List Bytes → Bool
foreign [] = true
foreign ([] ∷ ps) = false
foreign ((p ∷ rest) ∷ ps) = (leb p 32 || leb 127 p) && foreign ps

strip_any-plain :
    (ps : List Bytes) (c : ℕ) (s : Bytes)
    → foreign ps ≡ true
    → IsPlain c
    → strip_any ps (c ∷ s) ≡ none
unfolding strip_any foreign strip_prefix
strip_any-plain [] c s f p = refl
strip_any-plain ([] ∷ ps) c s f p = cc
strip_any-plain ((q ∷ rest) ∷ ps) c s f p = ground (arith, strip_any-plain ps c s)

trim_left-plain :
    (ps : List Bytes) (n c : ℕ) (s : Bytes)
    → foreign ps ≡ true
    → IsPlain c
    → trim_left ps n (c ∷ s) ≡ c ∷ s
unfolding trim_left
trim_left-plain ps zero c s f p = refl
trim_left-plain ps (suc n) c s f p =
    ap (go_on (c ∷ s) (trim_left ps n)) (strip_any-plain ps c s f p)

reversed-append : (a b : Bytes) → reversed (a ++ b) ≡ reversed b ++ reversed a
unfolding reversed
reversed-append [] b = sym (append-nil (reversed b))
reversed-append (c ∷ a) b =
    ap (λ (x : Bytes). x ++ c ∷ []) (reversed-append a b)
    ∙ append_assoc (reversed b) (reversed a) (c ∷ [])

reversed_involutive : (a : Bytes) → reversed (reversed a) ≡ a
unfolding reversed
reversed_involutive [] = refl
reversed_involutive (c ∷ a) =
    reversed-append (reversed a) (c ∷ []) ∙ ap (λ (x : Bytes). c ∷ x) (reversed_involutive a)

-- The end of a line goes.
cut_end :
    (n : ℕ) (z : ℕ) (t : Bytes)
    → IsPlain z
    → trim_left (map reversed spaces) (suc n) (13 ∷ z ∷ t) ≡ z ∷ t
unfolding trim_left strip_any strip_prefix reversed foreign
cut_end n z t p = trim_left-plain (map reversed spaces) n z t refl p

-- A text that starts and ends with a printable character, followed by a carriage return.
pub trim_space-line :
    (a : ℕ) (s : Bytes) (z : ℕ) (t : Bytes)
    → IsPlain a
    → IsPlain z
    → reversed (a ∷ s) ≡ z ∷ t
    → trim_space (a ∷ s ++ 13 ∷ []) ≡ a ∷ s
unfolding trim_space reversed foreign
trim_space-line a s z t pa pz e =
    let n = length (a ∷ s ++ 13 ∷ []) in
    let ends = map reversed spaces in
    ap (λ (x : Bytes). reversed (trim_left ends n (reversed x)))
      (trim_left-plain spaces n a (s ++ 13 ∷ []) refl pa)
    ∙ ap (λ (x : Bytes). reversed (trim_left ends n x))
        (reversed-append (a ∷ s) (13 ∷ []) ∙ ap (λ (x : Bytes). 13 ∷ x) e)
    ∙ ap reversed (cut_end (length (s ++ 13 ∷ [])) z t pz)
    ∙ ap reversed (sym e)
    ∙ reversed_involutive (a ∷ s)

abbrev pub AllPlain : Bytes → Type 0
AllPlain s = All IsPlain s

append-AllPlain : (a b : Bytes) → AllPlain a → AllPlain b → AllPlain (a ++ b)
append-AllPlain [] b pa pb = pb
append-AllPlain (c ∷ a) b pa pb = (pa.0, append-AllPlain a b pa.1 pb)

reversed-AllPlain : (s : Bytes) → AllPlain s → AllPlain (reversed s)
unfolding reversed
reversed-AllPlain [] p = tt
reversed-AllPlain (c ∷ s) p =
    append-AllPlain (reversed s) (c ∷ []) (reversed-AllPlain s p.1) (p.0, tt)

-- A line of printable characters loses its carriage return, and nothing else.
pub trim_space-plain :
    (a : ℕ) (s : Bytes) → AllPlain (a ∷ s) → trim_space (a ∷ s ++ 13 ∷ []) ≡ a ∷ s
trim_space-plain a s p = by_last (reversed (a ∷ s)) refl (reversed-AllPlain (a ∷ s) p)
  where
    not_empty : (r : Bytes) → r ++ a ∷ [] ≡ [] → ⊥
    not_empty [] e = cc
    not_empty (c ∷ r) e = cc

    by_last :
        (r : Bytes) → reversed (a ∷ s) ≡ r → AllPlain r → trim_space (a ∷ s ++ 13 ∷ []) ≡ a ∷ s
    by_last [] e q = absurd (unfold reversed in not_empty (reversed s) e)
    by_last (z ∷ t) e q = trim_space-line a s z t p.0 q.0 e
