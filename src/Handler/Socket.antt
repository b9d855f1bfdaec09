-- ===== src/Handler/Socket.antt =====
-- go-api/internal/handler/ws.go, up to the live events, and go-api/internal/handler/tokens.go: a
-- token is issued, and lets a WebSocket in.
pub mod Entry
pub mod Goroutines
pub mod Live
mod Tests
use easyhooks.Prelude.{
  ℕ, ℤ, Bytes, codes, bytes_eq, Bool, true, false, Option, none, some, List, [], ◌∷◌, ◌++◌,
  if◌then◌else◌,
}
use easyhooks.Runtime.Errors.{Error, error_text, Result, ok, err}
use easyhooks.Runtime.Events.{web_socket_messages_sent_total}
use easyhooks.Runtime.Env.{Env}
use easyhooks.Runtime.Exec.{State, Exec, pure, attempt, count, ◌>>=◌, ◌>>◌}
use easyhooks.Config.{Config}
use easyhooks.Security.{Crypto, asking, create_signed_token, verify_signed_token}
use easyhooks.Service.Streams.{UuidLib, StreamEvent, read_tenant_history}
use easyhooks.Service.Fanout.{Outcome, fine, panicked}
use easyhooks.Http.{Request, Response, Json, string, int, json_response, write_error}

-- What the check of a connection comes to: `http.Error` with a status and a text, or the upgrade.
pub data Check : Type 0 where
  turned_away : ℕ → Bytes → Check
  admitted : Bytes → Check

module _ {W : Type 0} (env : Env W) (crypto : Crypto) (uuid : UuidLib) (cfg : Config) where
  -- `IssueToken`, by the tenant in the request's context.
  unfoldable pub issue_token : Option Bytes → Exec W Response
  issue_token none = pure (write_error 401 (codes "Unauthenticated"))
  issue_token (some tenant_id) = do
    token ← create_signed_token crypto env uuid tenant_id cfg.ws_token_ttl cfg.app_secret_key
    pure (
        json_response 200
          ((codes "token", string token) ∷ (codes "expires_in", int cfg.ws_token_ttl) ∷ []))

  -- `err != nil || tokenTenant != tenantID`, and the use of `err` in the branch: without an error,
  -- that is a call on a nil interface.
  unfoldable pub check_tenant : Bytes → Result Bytes → Exec W (Outcome Check)
  unfolding error_text bytes_eq
  check_tenant tenant_id (err e) =
      pure (fine (turned_away 401 (codes "unauthorized: " ++ error_text e)))
  check_tenant tenant_id (ok token_tenant) =
      if bytes_eq token_tenant tenant_id then pure (fine (admitted tenant_id)) else pure panicked

  unfoldable pub check_path : Result Bytes → Bytes → Exec W (Outcome Check)
  check_path (err e) token = pure (fine (turned_away 400 (codes "invalid tenant_id")))
  check_path (ok tenant_id) token =
      attempt (verify_signed_token crypto env uuid token cfg.app_secret_key)
      >>= check_tenant tenant_id

  -- `WSEvents` up to the upgrade, by the token of the query.
  unfoldable pub check_connection : Request → Bytes → Exec W (Outcome Check)
  check_connection r token = check_path (uuid.parse r.tenant_id) token

  module _ (write_message : Bytes → W → Option Error × W) where
    -- The loop over the history: whether it came to its end. A failed write closes the connection.
    unfoldable pub after_write : Bytes → Exec W Bool → Option Error → Exec W Bool
    after_write tenant_id rest (some e) = pure false
    after_write tenant_id rest none = do
      count (web_socket_messages_sent_total (uuid.to_string tenant_id))
      rest

    unfoldable pub send_history : Bytes → List StreamEvent → Exec W Bool
    send_history tenant_id [] = pure true
    send_history tenant_id (e ∷ es) =
        asking (write_message e.payload) >>= after_write tenant_id (send_history tenant_id es)

    -- An error of the read is logged, and there is no history then.
    unfoldable pub history_or_none : Result (List StreamEvent) → List StreamEvent
    history_or_none (ok events) = events
    history_or_none (err e) = []

    unfoldable pub open_connection : Bytes → Exec W Bool
    open_connection tenant_id = do
      history ← attempt (read_tenant_history env uuid cfg tenant_id cfg.stream_history_count)
      send_history tenant_id (history_or_none history)
