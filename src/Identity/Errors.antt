-- ===== src/Identity/Errors.antt =====
-- backend/internal/identity/domain/errors.go.
use ai_portfolio_research_as.Prelude.{Result}

pub data IdentityError : Type 0 where
  invalid_user_id invalid_session_id invalid_token_family_id invalid_email : IdentityError
  invalid_password_hash invalid_token_digest invalid_account_status invalid_user : IdentityError
  user_disabled invalid_session_state invalid_refresh_session session_inactive : IdentityError
  session_replaced session_revoked session_expired session_family_mismatch : IdentityError
  invalid_replacement invalid_revocation unauthenticated : IdentityError

pub IdentityError-discrete : Discrete IdentityError
IdentityError-discrete = hlevel

abbrev pub IdentityOutcome : Type 0 → Type 0
IdentityOutcome A = Result IdentityError A
