-- ===== src/Tracing/Targets.antt =====
-- The target of the exporter, by the endpoint of the settings.
use mathlib.Core.List.{append-nil}
use easyhooks.Prelude.{
  ◌≤◌, Bytes, codes, Lacks, strip_prefix, strip_prefix-append, trim_prefix, Option, none, some, [],
  ◌∷◌, ◌++◌, length, ◌≡◌, refl, sym, ap, ◌∙◌, arith,
}
use easyhooks.Tracing.{trim_slash, target}

pub data Scheme : Type 0 where
  plain http https : Scheme

abbrev pub prefix_of : Scheme → Bytes
prefix_of plain = []
prefix_of http = codes "http://"
prefix_of https = codes "https://"

-- Two slashes do not fit where there is at most one, at the end.
no_slashes :
    (a h t : Bytes)
    → Lacks b'/' h
    → length t ≤ 1
    → strip_prefix (a ++ b'/' ∷ b'/' ∷ []) (h ++ t) ≡ none
unfolding strip_prefix
no_slashes [] [] [] l short = refl
no_slashes [] [] (y ∷ []) l short = ground arith
no_slashes [] [] (y ∷ (z ∷ t)) l short = absurd (omega arith)
no_slashes [] (c ∷ h) t l short = ground (arith, l.0)
no_slashes (x ∷ a) [] [] l short = refl
no_slashes (x ∷ a) [] (y ∷ t) l short = ground (arith, empty_rest a t (omega arith))
  where
    empty_rest : (a t : Bytes) → length t ≤ 0 → strip_prefix (a ++ b'/' ∷ b'/' ∷ []) t ≡ none
    empty_rest [] [] short = refl
    empty_rest (x ∷ a) [] short = refl
    empty_rest a (y ∷ t) short = absurd (omega arith)
no_slashes (x ∷ a) (c ∷ h) t l short = ground (arith, no_slashes a h t l.1 short)

trim_slash-slash : (h : Bytes) → trim_slash (h ++ b'/' ∷ []) ≡ h
unfolding trim_slash
trim_slash-slash [] = refl
trim_slash-slash (c ∷ []) = refl
trim_slash-slash (c ∷ (d ∷ h)) = ap (λ (x : Bytes). c ∷ x) (trim_slash-slash (d ∷ h))

trim_slash-none : (h : Bytes) → Lacks b'/' h → trim_slash h ≡ h
unfolding trim_slash
trim_slash-none [] l = refl
trim_slash-none (c ∷ []) l = ground (arith, l.0)
trim_slash-none (c ∷ (d ∷ h)) l = ap (λ (x : Bytes). c ∷ x) (trim_slash-none (d ∷ h) l.1)

abbrev trimmed : Bytes → Option Bytes → Bytes
trimmed s none = s
trimmed s (some rest) = rest

trim_prefix-by :
    (s p : Bytes) (o : Option Bytes) → strip_prefix p s ≡ o → trim_prefix s p ≡ trimmed s o
unfolding trim_prefix
trim_prefix-by s p o e = ap (trimmed s) e

-- A host, at most one slash behind it, keeps all of it.
unscheme :
    (h t : Bytes)
    → Lacks b'/' h
    → length t ≤ 1
    → (trim_prefix (h ++ t) (codes "http://") ≡ h ++ t)
      × (trim_prefix (h ++ t) (codes "https://") ≡ h ++ t)
unscheme h t l short = (
  trim_prefix-by (h ++ t) (codes "http://") none (no_slashes (codes "http:") h t l short),
  trim_prefix-by (h ++ t) (codes "https://") none (no_slashes (codes "https:") h t l short),
)

without_scheme :
    (scheme : Scheme) (h t : Bytes)
    → Lacks b'/' h
    → length t ≤ 1
    → trim_prefix (trim_prefix (prefix_of scheme ++ (h ++ t)) (codes "http://")) (codes "https://")
      ≡ h ++ t
without_scheme plain h t l short =
    ap (λ (x : Bytes). trim_prefix x (codes "https://")) (unscheme h t l short).0
    ∙ (unscheme h t l short).1
without_scheme http h t l short =
    ap (λ (x : Bytes). trim_prefix x (codes "https://"))
      (trim_prefix-by (codes "http://" ++ (h ++ t)) (codes "http://") (some (h ++ t))
        (strip_prefix-append (codes "http://") (h ++ t)))
    ∙ (unscheme h t l short).1
without_scheme https h t l short =
    ap (λ (x : Bytes). trim_prefix x (codes "https://"))
      (trim_prefix-by (codes "https://" ++ (h ++ t)) (codes "http://") none
        (unfold strip_prefix in refl))
    ∙ trim_prefix-by (codes "https://" ++ (h ++ t)) (codes "https://") (some (h ++ t))
        (strip_prefix-append (codes "https://") (h ++ t))

-- An endpoint of a host, with or without the scheme "http://" or "https://" and with or without a
-- slash at its end, has the host, with its port, as its target. The host has no slash.
pub target-host :
    (scheme : Scheme) (h : Bytes)
    → Lacks b'/' h
    → (target (prefix_of scheme ++ h) ≡ h) × (target (prefix_of scheme ++ (h ++ b'/' ∷ [])) ≡ h)
unfolding target
target-host scheme h l = (
  ap trim_slash (
        ap
          (λ (x : Bytes).
            trim_prefix (trim_prefix (prefix_of scheme ++ x) (codes "http://")) (codes "https://"))
          (sym (append-nil h))
        ∙ without_scheme scheme h [] l (omega arith)
        ∙ append-nil h)
      ∙ trim_slash-none h l,
  ap trim_slash (without_scheme scheme h (b'/' ∷ []) l (omega arith)) ∙ trim_slash-slash h,
)
