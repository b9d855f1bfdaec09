-- ===== src/Redis/Lines.antt =====
-- The lines of a reply to INFO, each a key and a value.
use mathlib.Core.List.{append_assoc}
use easyhooks.Prelude.{
  ℕ, Bytes, codes, All, Lacks, Option, some, List, [], ◌∷◌, ◌++◌, ◌≡◌, refl, sym, ap, ◌∙◌, arith,
}
use easyhooks.Http.Spaces.{trim_space}
use easyhooks.Http.Spaces.Plain.{AllPlain, trim_space-plain}
use easyhooks.Redis.{MemoryInfo, set_field, set_from, split, cut, read_lines}

abbrev pub Fields : Type 0
Fields = List (Bytes × Bytes)

-- The lines of the fields, each with its end.
abbrev pub render : Fields → Bytes
render [] = []
render ((k, v) ∷ fields) = (k ++ b':' ∷ v) ++ 13 ∷ 10 ∷ render fields

abbrev pub render_info : Fields → Bytes
render_info fields = codes "# Memory" ++ 13 ∷ 10 ∷ render fields

-- A key is not empty and has no colon, and all is printable.
abbrev pub IsField : Bytes × Bytes → Type 0
IsField ([], v) = ⊥
IsField (c ∷ k, v) = AllPlain (c ∷ k) × Lacks b':' (c ∷ k) × AllPlain v

split-line :
    (sep : ℕ) (a rest : Bytes) → Lacks sep a → split sep (a ++ sep ∷ rest) ≡ a ∷ split sep rest
unfolding split
split-line sep [] rest l = ground arith
split-line sep (c ∷ a) rest l = rw (l.0, split-line sep a rest l.1) refl

cut-first : (sep : ℕ) (a rest : Bytes) → Lacks sep a → cut sep (a ++ sep ∷ rest) ≡ some (a, rest)
unfolding cut
cut-first sep [] rest l = ground arith
cut-first sep (c ∷ a) rest l = rw (l.0, cut-first sep a rest l.1) refl

plain-line : (s : Bytes) → AllPlain s → Lacks 10 (s ++ 13 ∷ [])
plain-line [] p = (refl, tt)
plain-line (c ∷ s) p = (ground (arith, p.0), plain-line s p.1)

field-plain : (k v : Bytes) → AllPlain k → AllPlain v → AllPlain (k ++ b':' ∷ v)
field-plain [] v pk pv = ((omega arith, omega arith), pv)
field-plain (c ∷ k) v pk pv = (pk.0, field-plain k v pk.1 pv)

-- What the loop makes of the fields one by one.
unfoldable pub set_all : Fields → MemoryInfo → MemoryInfo
set_all [] i = i
set_all ((k, v) ∷ fields) i = set_all fields (set_field k v i)

pub read_lines-render :
    (fields : Fields) (i : MemoryInfo)
    → All IsField fields
    → read_lines (split 10 (render fields)) i ≡ set_all fields i
unfolding read_lines set_all
read_lines-render [] i a = unfold split trim_space cut in refl
read_lines-render (([], v) ∷ fields) i a = absurd a.0
read_lines-render ((c ∷ k, v) ∷ fields) i a =
    let (pk, lk, pv) = a.0 in
    let line = c ∷ k ++ b':' ∷ v in
    let plain = field-plain (c ∷ k) v pk pv in
    ap (λ (x : Bytes). read_lines (split 10 x) i)
      (sym (append_assoc line (13 ∷ []) (10 ∷ render fields)))
    ∙ ap (λ (x : List Bytes). read_lines x i)
        (split-line 10 (line ++ 13 ∷ []) (render fields) (plain-line line plain))
    ∙ ap (λ (x : Option (Bytes × Bytes)). read_lines (split 10 (render fields)) (set_from x i))
        (ap (cut b':') (trim_space-plain c (k ++ b':' ∷ v) plain) ∙ cut-first b':' (c ∷ k) v lk)
    ∙ read_lines-render fields (set_field (c ∷ k) v i) a.1
