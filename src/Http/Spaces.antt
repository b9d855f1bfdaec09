-- ===== src/Http/Spaces.antt =====
-- `strings.TrimSpace` on UTF-8.
pub mod Enough
pub mod Plain
use easyhooks.Prelude.{
  ℕ, zero, suc, Bytes, strip_prefix, Option, none, some, List, [], ◌∷◌, ◌++◌, map, length,
}

-- The encodings of the characters of `unicode.IsSpace`: below 128, U+0085, U+00A0, U+1680, U+2000
-- to U+200A, U+2028, U+2029, U+202F, U+205F and U+3000.
abbrev pub spaces : List Bytes
spaces =
    (9 ∷ [])
    ∷ (10 ∷ [])
    ∷ (11 ∷ [])
    ∷ (12 ∷ [])
    ∷ (13 ∷ [])
    ∷ (32 ∷ [])
    ∷ (194 ∷ 133 ∷ [])
    ∷ (194 ∷ 160 ∷ [])
    ∷ (225 ∷ 154 ∷ 128 ∷ [])
    ∷ (226 ∷ 128 ∷ 128 ∷ [])
    ∷ (226 ∷ 128 ∷ 129 ∷ [])
    ∷ (226 ∷ 128 ∷ 130 ∷ [])
    ∷ (226 ∷ 128 ∷ 131 ∷ [])
    ∷ (226 ∷ 128 ∷ 132 ∷ [])
    ∷ (226 ∷ 128 ∷ 133 ∷ [])
    ∷ (226 ∷ 128 ∷ 134 ∷ [])
    ∷ (226 ∷ 128 ∷ 135 ∷ [])
    ∷ (226 ∷ 128 ∷ 136 ∷ [])
    ∷ (226 ∷ 128 ∷ 137 ∷ [])
    ∷ (226 ∷ 128 ∷ 138 ∷ [])
    ∷ (226 ∷ 128 ∷ 168 ∷ [])
    ∷ (226 ∷ 128 ∷ 169 ∷ [])
    ∷ (226 ∷ 128 ∷ 175 ∷ [])
    ∷ (226 ∷ 129 ∷ 159 ∷ [])
    ∷ (227 ∷ 128 ∷ 128 ∷ [])
    ∷ []

abbrev pub or_later : Option Bytes → Option Bytes → Option Bytes
or_later later none = later
or_later later (some rest) = some rest

-- The rest behind the first prefix that fits.
unfoldable pub strip_any : List Bytes → Bytes → Option Bytes
unfolding strip_prefix
strip_any [] s = none
strip_any (p ∷ ps) s = or_later (strip_any ps s) (strip_prefix p s)

abbrev pub go_on : Bytes → (Bytes → Bytes) → Option Bytes → Bytes
go_on s again none = s
go_on s again (some rest) = again rest

unfoldable pub trim_left : List Bytes → ℕ → Bytes → Bytes
unfolding strip_any
trim_left ps zero s = s
trim_left ps (suc n) s = go_on s (trim_left ps n) (strip_any ps s)

unfoldable pub reversed : Bytes → Bytes
reversed [] = []
reversed (c ∷ s) = reversed s ++ c ∷ []

-- Both ends; a text of n bytes has at most n spaces.
unfoldable pub trim_space : Bytes → Bytes
unfolding trim_left reversed
trim_space s =
    let left = trim_left spaces (length s) s in
    reversed (trim_left (map reversed spaces) (length s) (reversed left))
