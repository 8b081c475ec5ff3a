-- ===== src/Identity/Service/Ports.antt =====
-- The dependencies of the identity service in
-- backend/internal/identity/application/repositories.go, security.go and operations.go, over an
-- unknown store: repositories, clock, identifiers, tokens, passwords, rate limits and networks.
use ai_portfolio_research_as.Prelude.{ℕ, Result}
use ai_portfolio_research_as.Prelude.Time.{Instant}
use ai_portfolio_research_as.Prelude.Actions.{Action}
use ai_portfolio_research_as.Text.{Bytes}
use ai_portfolio_research_as.Transaction.Value.{Uuid}
use ai_portfolio_research_as.Identity.Credential.{PasswordHash, TokenDigest}
use ai_portfolio_research_as.Identity.Session.{RefreshSession}
use ai_portfolio_research_as.Identity.User.{User}
use ai_portfolio_research_as.Identity.Service.{
  AuthError, RateLimitPolicy, RateLimitResult, PasswordVerification, AuditEvent,
}

-- `append_audit` is the writer of the service, `audit` the one of a transaction. `dummy_hash` is
-- the field of the dependencies.
pub record AuthPorts (S : Type 0) : Type 0 where
  pub now : S → Instant × S
  pub new_user_id : Action S ℕ Uuid
  pub new_session_id : Action S ℕ Uuid
  pub new_family_id : Action S ℕ Uuid
  pub normalize_email : Bytes → Result ℕ Bytes
  pub resolve : Bytes → Bytes → Result ℕ ℕ
  pub hash_network : ℕ → Result ℕ Bytes
  pub registration_key : ℕ → Result ℕ ℕ
  pub login_ip_key : ℕ → Result ℕ ℕ
  pub login_email_key : Bytes → Result ℕ ℕ
  pub refresh_family_key : Uuid → Result ℕ ℕ
  pub check_rate : RateLimitPolicy → ℕ → Instant → Action S ℕ RateLimitResult
  pub reset_failures : ℕ → Action S ℕ (Unit {0})
  pub hash_password : Bytes → Action S ℕ PasswordHash
  pub verify_password : Bytes → PasswordHash → S → Result ℕ PasswordVerification
  pub dummy_hash : PasswordHash
  pub issue : Uuid → Instant → Action S ℕ Bytes
  pub verify_access : Bytes → Instant → Result ℕ Uuid
  pub generate : Action S ℕ Bytes
  pub parse_token : Bytes → Result ℕ Bytes
  pub digest : Bytes → Result ℕ TokenDigest
  pub append_audit : AuditEvent → Action S ℕ (Unit {0})
  pub find_email : Bytes → S → Result AuthError User
  pub find_user : Uuid → S → Result AuthError User
  pub swap_hash : Uuid → PasswordHash → PasswordHash → Instant → Action S ℕ User
  pub create_user : User → Action S AuthError (Unit {0})
  pub create_session : RefreshSession → Action S AuthError (Unit {0})
  pub lock_session : TokenDigest → S → Result AuthError RefreshSession
  pub mark_replaced : RefreshSession → Action S AuthError (Unit {0})
  pub insert_replacement : RefreshSession → Action S AuthError (Unit {0})
  pub revoke_family : Uuid → Instant → Bytes → Action S AuthError (Unit {0})
  pub audit : AuditEvent → Action S AuthError (Unit {0})
  pub begin : S → Result AuthError (Unit {0})
  pub commit : S → Result AuthError (Unit {0})
  pub rollback : S → S → S
