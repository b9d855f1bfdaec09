-- ===== src/Middleware/Requests.antt =====
-- go-api/internal/middleware/metrics.go: the metrics of HTTP requests.
pub mod Replace
pub mod Paths
pub mod Counted
pub mod Writer
mod Tests
use easyhooks.Prelude.{
  ℕ, zero, suc, ◌+◌, leb, ◌==◌, Bytes, codes, bytes_eq, strip_prefix, length, ◌&&◌, ◌||◌, Bool,
  true, false, Option, none, some, List, [], ◌∷◌, ◌++◌, if◌then◌else◌,
}
use easyhooks.Runtime.Events.{http_requests_total, http_request_duration}
use easyhooks.Runtime.Exec.{State, Exec, pure, count, ◌>>=◌, ◌>>◌}
use easyhooks.Http.{Request, Response}

-- [0-9a-f-]
unfoldable pub is_id_char : ℕ → Bool
is_id_char c = (leb 48 c && leb c 57) || (leb 97 c && leb c 102) || c == 45

-- [0-9a-f-]{n} at the front of a text.
unfoldable pub starts_with_id : ℕ → Bytes → Bool
unfolding is_id_char
starts_with_id zero s = true
starts_with_id (suc n) [] = false
starts_with_id (suc n) (c ∷ s) = is_id_char c && starts_with_id n s

abbrev pub id_length : ℕ
id_length = 36

abbrev pub id_behind : Option Bytes → Bool
id_behind none = false
id_behind (some rest) = starts_with_id id_length rest

-- Whether a text starts with a match of the literal and an id.
unfoldable pub matches : Bytes → Bytes → Bool
unfolding strip_prefix starts_with_id
matches literal s = id_behind (strip_prefix literal s)

-- `ReplaceAllString`, from left to right; `skip` bytes belong to a match that was replaced.
unfoldable pub replace_from : Bytes → Bytes → ℕ → Bytes → Bytes
unfolding matches
replace_from literal replacement skip [] = []
replace_from literal replacement (suc skip) (c ∷ s) = replace_from literal replacement skip s
replace_from literal replacement zero (c ∷ s) = elim (matches literal (c ∷ s)) [
  | true ↦ replacement ++ replace_from literal replacement (length literal + 35) s
  | false ↦ c ∷ replace_from literal replacement 0 s
]

-- A match is one byte longer than what is skipped behind its first byte.
abbrev pub replace_all : Bytes → Bytes → Bytes
replace_all literal path = replace_from literal (literal ++ codes "{tenant_id}") 0 path

-- The four patterns; each replacement is the pattern's literal with a placeholder.
unfoldable pub normalize_path : Bytes → Bytes
unfolding replace_from
normalize_path path =
    let p1 = replace_all (codes "/admin/tenants/") path in
    let p2 = replace_all (codes "/v1/webhooks/") p1 in
    let p3 = replace_all (codes "/v1/tokens/") p2 in replace_all (codes "/ws/events/") p3

-- The metrics are counted behind the handler, by the status that it wrote.
unfoldable pub counted_request : {W : Type 0} → Request → Response → Exec W Response
unfolding normalize_path
counted_request r answer = do
  count (http_requests_total r.method (normalize_path r.path) answer.status)
  count (http_request_duration r.method (normalize_path r.path) answer.status)
  pure answer

unfoldable pub http_metrics : {W : Type 0} → (Request → Exec W Response) → Request → Exec W Response
unfolding bytes_eq counted_request
http_metrics next r =
    if bytes_eq r.path (codes "/metrics") then next r else (next r >>= counted_request r)
