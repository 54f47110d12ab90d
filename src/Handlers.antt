-- ===== src/Handlers.antt =====
-- What the handlers of gateway-go/internal/handlers answer. A handler takes the decoded request and
-- the state of the services, and returns its reply, with the new state if it writes.
pub mod Accounts
pub mod Documents
pub mod Admins
pub mod Search
pub mod Rag
mod Tests
use financial_ai_platform.Prelude.{ℕ, Text, lit}

-- `c.JSON(status, view)`, or `c.JSON(status, gin.H{"error": message})`.
pub data Reply (V : Type 0) : Type 0 where
  json : ℕ → V → Reply V
  error_json : ℕ → Text → Reply V

abbrev pub status_ok : ℕ
status_ok = 200

abbrev pub status_created : ℕ
status_created = 201

abbrev pub status_accepted : ℕ
status_accepted = 202

abbrev pub status_bad_request : ℕ
status_bad_request = 400

abbrev pub status_unauthorized : ℕ
status_unauthorized = 401

abbrev pub status_not_found : ℕ
status_not_found = 404

abbrev pub status_conflict : ℕ
status_conflict = 409

abbrev pub status_unsupported_media_type : ℕ
status_unsupported_media_type = 415

abbrev pub status_internal_server_error : ℕ
status_internal_server_error = 500

abbrev pub status_service_unavailable : ℕ
status_service_unavailable = 503

abbrev pub internal_error : Text
internal_error = lit "internal server error"

abbrev pub no_claims : Text
no_claims = lit "no authenticated claims on request"
