-- ===== src/Middleware/Requests/Tests.antt =====
-- The metrics of requests at concrete paths.
use easyhooks.Middleware.Requests.Writer.{
  write_header, write, flush, ResponseWriter, new_response_writer, run, or_200, run-status,
}
use easyhooks.Prelude.{pos, Bytes, codes, [], ◌∷◌, ◌++◌, ◌≡◌, refl, none, false, true}
use easyhooks.Runtime.Errors.{ok}
use easyhooks.Runtime.Events.{counted, http_requests_total, http_request_duration}
use easyhooks.Runtime.Exec.{Exec}
use easyhooks.Runtime.Fake.{Fake, quiet, start}
use easyhooks.Http.{Request, Response}
use easyhooks.Middleware.Requests.{starts_with_id, normalize_path, http_metrics}
use easyhooks.Middleware.Requests.Paths.{webhooks, normalize_path-shown}
use easyhooks.Middleware.Requests.Counted.{is_id, starts_with_id-Lacks, http_metrics-counted}

abbrev tenant : Bytes
tenant = codes "6f1c9d1e-0b1a-4c7e-9a52-d0c3a0b7f001"

abbrev request : Request
request = record {
  method = codes "POST";
  path = codes "/v1/webhooks/" ++ tenant;
  tenant_id = tenant;
  headers = [];
  content_length = pos 0;
  body = ok [];
}

abbrev accepted : Response
accepted = record { status = 202; headers = []; fields = [] }

abbrev accept : Request → Exec Fake Response
accept r s = (ok accepted, s)

-- A longer id keeps its end, and one in upper case stays.
longer :
    normalize_path (codes "/v1/tokens/6f1c9d1e-0b1a-4c7e-9a52-d0c3a0b7f001xyz")
    ≡ codes "/v1/tokens/{tenant_id}xyz"
unfolding normalize_path
longer = refl

upper_case :
    normalize_path (codes "/v1/tokens/6F1C9D1E-0B1A-4C7E-9A52-D0C3A0B7F001")
    ≡ codes "/v1/tokens/6F1C9D1E-0B1A-4C7E-9A52-D0C3A0B7F001"
unfolding normalize_path
upper_case = refl

normalize_path-shown_example :
    normalize_path (codes "/v1/webhooks/" ++ tenant) ≡ codes "/v1/webhooks/{tenant_id}"
unfolding starts_with_id
normalize_path-shown_example =
    normalize_path-shown webhooks tenant (starts_with_id-Lacks 36 tenant refl refl)

http_metrics-counted_example : http_metrics accept request (start quiet) ≡ (
  ok accepted,
  record {
    world = quiet;
    events =
        counted (http_request_duration (codes "POST") (codes "/v1/webhooks/{tenant_id}") 202)
        ∷ counted (http_requests_total (codes "POST") (codes "/v1/webhooks/{tenant_id}") 202)
        ∷ [];
  },
)
unfolding is_id
http_metrics-counted_example =
    http_metrics-counted accept request webhooks tenant (start quiet) (start quiet) accepted refl
      refl refl

abbrev plain_writer : ResponseWriter
plain_writer =
    new_response_writer (record { sent = none; hijacked = false; flusher = true; hijacker = false })

run-status_example :
    (run (write_header 202 ∷ write (codes "{}") ∷ flush ∷ []) plain_writer).status
    ≡ or_200 (run (write_header 202 ∷ write (codes "{}") ∷ flush ∷ []) plain_writer).underlying.sent
run-status_example =
    run-status (write_header 202 ∷ write (codes "{}") ∷ flush ∷ []) true false
      ((refl, refl, refl), tt)
