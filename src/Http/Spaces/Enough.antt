-- ===== src/Http/Spaces/Enough.antt =====
-- The number of steps of a trim: a byte for each is enough.
use easyhooks.Prelude.{
  ℕ, zero, suc, ◌≤◌, ◌<◌, Bytes, All, strip_prefix, strip_prefix-eq-some, Option, none, some,
  Option-cases, List, [], ◌∷◌, length, length-append, ◌≡◌, sym, ap, ◌∙◌, inl, inr, arith,
}
use easyhooks.Http.Spaces.{spaces, or_later, strip_any, go_on, trim_left}

abbrev NotEmpty : Bytes → Type 0
NotEmpty p = 0 < length p

stripped-shorter :
    (p s rest : Bytes) → 0 < length p → strip_prefix p s ≡ some rest → length rest < length s
stripped-shorter p s rest n e =
    omega
      (arith, ap (λ (x : Bytes). length x) (strip_prefix-eq-some p s rest e), length-append p rest)

-- The rest behind one of some texts that are not empty is shorter.
strip_any-shorter :
    (ps : List Bytes) (s rest : Bytes)
    → All NotEmpty ps
    → strip_any ps s ≡ some rest
    → length rest < length s
unfolding strip_any
strip_any-shorter [] s rest a e = cc
strip_any-shorter (p ∷ ps) s rest a e = elim (Option-cases (strip_prefix p s)) [
  | inl f ↦ strip_any-shorter ps s rest a.1 (ap (or_later (strip_any ps s)) (sym f) ∙ e)
  | inr (x, f) ↦ stripped-shorter p s rest a.0 (f ∙ (ap (or_later (strip_any ps s)) (sym f) ∙ e))
]

-- Once as many steps are allowed as the text has bytes, none of the texts stands in front any more.
pub trim_left-done :
    (ps : List Bytes) (n : ℕ) (s : Bytes)
    → All NotEmpty ps
    → length s ≤ n
    → strip_any ps (trim_left ps n s) ≡ none
unfolding trim_left
trim_left-done ps zero s a le = elim (Option-cases (strip_any ps s)) [
  | inl f ↦ f
  | inr (rest, f) ↦ absurd (omega (arith, strip_any-shorter ps s rest a f))
]
trim_left-done ps (suc n) s a le = elim (Option-cases (strip_any ps s)) [
  | inl f ↦ ap (λ (o : Option Bytes). strip_any ps (go_on s (trim_left ps n) o)) f ∙ f
  | inr (rest, f) ↦
      ap (λ (o : Option Bytes). strip_any ps (go_on s (trim_left ps n) o)) f
      ∙ trim_left-done ps n rest a (omega (arith, strip_any-shorter ps s rest a f))
]

spaces-NotEmpty : All NotEmpty spaces
spaces-NotEmpty = ground arith

-- No space is left in front after as many steps as `TrimSpace` makes.
pub trim_left-spaces : (s : Bytes) → strip_any spaces (trim_left spaces (length s) s) ≡ none
trim_left-spaces s = trim_left-done spaces (length s) s spaces-NotEmpty (omega arith)
