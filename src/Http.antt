-- ===== src/Http.antt =====
-- What the handlers of go-api/internal/handler and go-api/internal/middleware see of net/http: a
-- request, the response that they write, and `strings.TrimSpace`.
pub mod Spaces
use easyhooks.Prelude.{ℕ, ℤ, Bytes, codes, lookup, Option, none, some, List, [], ◌∷◌}
use easyhooks.Runtime.Errors.{Result}

-- The values that the responses carry as JSON.
pub data Json : Type 0 where
  string : Bytes → Json
  int : ℤ → Json

-- The method and the path, the tenant in the path, the headers by their canonical names, and what reading the body gives.
pub record Request : Type 0 where
  pub method : Bytes
  pub path : Bytes
  pub tenant_id : Bytes
  pub headers : List (Bytes × Bytes)
  pub content_length : ℤ
  pub body : Result Bytes

pub record Response : Type 0 where
  pub status : ℕ
  pub headers : List (Bytes × Bytes)
  pub fields : List (Bytes × Json)

abbrev or_empty : Option Bytes → Bytes
or_empty none = []
or_empty (some v) = v

-- r.Header.Get(name): empty for a header that is not there.
unfoldable pub header : Request → Bytes → Bytes
unfolding lookup
header r name = or_empty (lookup r.headers name)

abbrev pub json_response : ℕ → List (Bytes × Json) → Response
json_response code fields = record {
  status = code;
  headers = (codes "Content-Type", codes "application/json") ∷ [];
  fields = fields;
}

-- `writeError` of the handlers and `writeAuthError` of the middleware.
abbrev pub write_error : ℕ → Bytes → Response
write_error code detail = json_response code ((codes "detail", string detail) ∷ [])
