-- ===== src/Handler/Socket/Tests.antt =====
-- A token of 300 seconds and the connections that it opens, with the theorems applied there.
use easyhooks.Prelude.{
  pos, ◌+ℤ◌, ltb_ℤ, wrap64, Bytes, codes, lookup, bytes_eq, some, ◌∷◌, [], ◌++◌, if◌then◌else◌, ◌≡◌,
  refl, ◌↔◌,
}
use easyhooks.Runtime.Errors.{ok, invalid_token, error_text}
use easyhooks.Runtime.Exec.{◌>>=◌}
use easyhooks.Runtime.Fake.{Fake, fake, quiet, start}
use easyhooks.Config.Example.{example_config}
use easyhooks.Security.{WsPayload, split_two, dot, sign_body, create_signed_token}
use easyhooks.Security.Fake.{toy, plain_uuid, toy-Faithful, shifted, unshifted}
use easyhooks.Security.Tokens.{Accepts}
use easyhooks.Service.Fanout.{fine, panicked}
use easyhooks.Http.{Request, Response, string, int, json_response}
use easyhooks.Handler.Socket.{turned_away, admitted, issue_token, check_connection}
use easyhooks.Handler.Socket.Entry.{
  check_connection-admitted, check_connection-compared, issue_token-admitted,
}

abbrev request : Request
request = record {
  method = codes "GET";
  path = codes "/ws/events/t";
  tenant_id = codes "t";
  headers = [];
  content_length = pos 0;
  body = ok [];
}

abbrev token : Bytes
token =
    let body = toy.base64_encode (toy.marshal (record { sub = codes "t"; exp = pos 1300 })) in
    body ++ dot ∷ sign_body toy body example_config.app_secret_key

abbrev answer : Response
answer =
    json_response 200 ((codes "token", string token) ∷ (codes "expires_in", int (pos 300)) ∷ [])

token-issued :
    (issue_token fake toy plain_uuid example_config (some (codes "t")) (start quiet)).0 ≡ ok answer
unfolding issue_token create_signed_token sign_body shifted fake ◌>>=◌ wrap64 ◌+ℤ◌
token-issued = refl

token-field : lookup answer.fields (codes "token") ≡ some (string token)
unfolding lookup
token-field = refl

abbrev later : Fake
later = record quiet { clock = pos 1301 }

issue_token-admitted_example :
    (check_connection fake toy plain_uuid example_config request token (start later)).0
    ≡ ok (
        fine (
          if ltb_ℤ (wrap64 ((fake.now quiet).0 +ℤ example_config.ws_token_ttl)) (fake.now later).0
          then turned_away 401
              (codes "unauthorized: " ++ error_text (invalid_token (codes "expired")))
          else admitted (codes "t")))
issue_token-admitted_example =
    issue_token-admitted fake toy plain_uuid example_config (codes "t") token answer request
      (start quiet) (start later) toy-Faithful refl token-issued token-field refl

check_connection-admitted_example :
    ((check_connection fake toy plain_uuid example_config request token (start later)).0
      ≡ ok (fine (admitted (codes "t"))))
    ↔ ((plain_uuid.parse request.tenant_id ≡ ok (codes "t"))
        × Accepts fake toy plain_uuid token example_config.app_secret_key
            (fake.now later).0
            (codes "t"))
check_connection-admitted_example =
    check_connection-admitted fake toy plain_uuid example_config request token (start later)
      (codes "t")

-- The same token on the path of another tenant.
abbrev foreign : Request
foreign = record request { tenant_id = codes "u" }

token-accepted :
    Accepts fake toy plain_uuid token example_config.app_secret_key (fake.now quiet).0 (codes "t")
unfolding split_two shifted unshifted fake sign_body
token-accepted = record {
  body = toy.base64_encode (toy.marshal payload);
  raw = toy.marshal payload;
  payload = payload;
  shape = refl;
  decoded = refl;
  parsed = refl;
  live = refl;
  names = refl;
}
  where
    payload : WsPayload
    payload = record { sub = codes "t"; exp = pos 1300 }

check_connection-compared_example :
    (check_connection fake toy plain_uuid example_config foreign token (start quiet)).0
    ≡ ok (if bytes_eq (codes "t") (codes "u") then fine (admitted (codes "u")) else panicked)
check_connection-compared_example =
    check_connection-compared fake toy plain_uuid example_config foreign token (start quiet)
      (codes "u") (codes "t") refl token-accepted
