-- ===== src/Identity/Service.antt =====
-- backend/internal/identity/application/operations_types.go and security.go: the values of the
-- identity service, and the pure functions of operations.go. Tokens are their bytes; an address and
-- the key of a rate limit are numbers.
pub mod Ports
pub mod Requests
pub mod Access
pub mod Refreshing
pub mod Steps
pub mod Granted
pub mod Stored
pub mod Rotated
pub mod Revoked
use ai_portfolio_research_as.Prelude.{
  ℕ, ◌+◌, Bool, true, false, not, ◌&&◌, ◌||◌, List, [], ◌∷◌, Option, none, some, Result, ok, err,
  ltb, length, ◌==◌, if◌then◌else◌,
}
use ai_portfolio_research_as.Prelude.Int.{ℤ, pos, leb_ℤ}
use ai_portfolio_research_as.Prelude.Time.{Instant, before}
use ai_portfolio_research_as.Text.{Bytes, codes, is_empty}
use ai_portfolio_research_as.Text.Utf8.{valid_string}
use ai_portfolio_research_as.Transaction.Value.{Uuid}
use ai_portfolio_research_as.Platform.Outbox.{all_bytes}
use ai_portfolio_research_as.Identity.User.{User, AccountStatus, enabled, disabled}

-- `rate_limited` is a `*RateLimitError`. `duplicate_identity` and `session_not_found` are the errors
-- of the repositories that the service tests for; `foreign` is any other, with its number.
pub data AuthError : Type 0 where
  invalid_request registration_rejected authentication_failed : AuthError
  session_refresh_rejected access_token_invalid service_unavailable : AuthError
  duplicate_identity session_not_found : AuthError
  rate_limited : ℤ → AuthError
  foreign : ℕ → AuthError

pub data RateLimitPolicy : Type 0 where
  login_email_failure login_ip_attempt : RateLimitPolicy
  registration_ip_attempt refresh_family_attempt : RateLimitPolicy

pub record RateLimitResult : Type 0 where
  pub allowed : Bool
  pub remaining : ℤ
  pub retry_after : ℤ

pub record PasswordVerification : Type 0 where
  pub verified : Bool
  pub needs_rehash : Bool

pub data AuditAction : Type 0 where
  registration_success registration_failure login_success login_failure : AuditAction
  refresh_success refresh_failure logged_out token_family_revocation : AuditAction
  refresh_token_reuse disabled_account_rejection : AuditAction

pub data AuditResult : Type 0 where
  success failure : AuditResult

pub data AuditSeverity : Type 0 where
  info warning high : AuditSeverity

pub record AuditEvent : Type 0 where
  pub occurred_at : Instant
  pub action : AuditAction
  pub result : AuditResult
  pub severity : AuditSeverity
  pub actor_user_id : Option Uuid
  pub correlation_id : Bytes
  pub session_id : Option Uuid
  pub token_family_id : Option Uuid
  pub network_identity_hash : Bytes
  pub user_agent : Bytes

pub record RequestMetadata : Type 0 where
  pub correlation_id : Bytes
  pub direct_peer_ip : Bytes
  pub forwarded_for : Bytes
  pub user_agent : Bytes

pub record CredentialsInput : Type 0 where
  pub email : Bytes
  pub password : Bytes
  pub metadata : RequestMetadata

pub record RefreshInput : Type 0 where
  pub raw_token : Bytes
  pub metadata : RequestMetadata

-- The identifier is the number of the text.
pub record SafeUser : Type 0 where
  pub id : Uuid
  pub email : Bytes
  pub status : AccountStatus
  pub created_at : Instant
  pub updated_at : Instant

pub record SessionResult : Type 0 where
  pub access_token : Bytes
  pub user : SafeUser
  pub refresh_token : Bytes
  pub cookie_expires_at : Instant
  pub cookie_max_age : ℤ

-- nanoseconds: 30 and 90 days
abbrev pub session_idle_lifetime : ℕ
session_idle_lifetime = 2592000000000000

abbrev pub session_absolute_limit : ℕ
session_absolute_limit = 7776000000000000

-- `NewRateLimitError`: at least a second
unfoldable pub new_rate_limit_error : ℤ → AuthError
new_rate_limit_error retry_after =
    rate_limited (if leb_ℤ retry_after (pos 0) then pos 1000000000 else retry_after)

abbrev pub safe_user : User → SafeUser
safe_user user = record {
  id = user.id;
  email = user.email;
  status = user.status;
  created_at = user.created_at;
  updated_at = user.updated_at;
}

abbrev pub user_is_active : User → Bool
user_is_active user = elim user.status [ enabled ↦ true | _ ↦ false ]

abbrev pub user_is_disabled : User → Bool
user_is_disabled user = elim user.status [ disabled ↦ true | _ ↦ false ]

abbrev pub is_printable : ℕ → Bool
is_printable c = not (ltb c 0x20 || c == 0x7f)

-- In a valid text, the runes below 128 are the bytes below 128.
unfoldable pub safe_user_agent : Bytes → Bytes
unfolding all_bytes
safe_user_agent value =
    if is_empty value || ltb 512 (length value) || not (valid_string value)
    then []
    else if all_bytes is_printable value
    then value
    else []

abbrev pub min_time : Instant → Instant → Instant
min_time left right = if before left right then left else right

unfoldable pub audit_event :
    AuditAction
    → AuditResult
    → AuditSeverity
    → Option Uuid
    → Option Uuid
    → Option Uuid
    → RequestMetadata
    → Bytes
    → Instant
    → AuditEvent
audit_event action result severity user_id session_id family_id metadata network_hash now = record {
  occurred_at = now;
  action = action;
  result = result;
  severity = severity;
  actor_user_id = user_id;
  correlation_id = metadata.correlation_id;
  session_id = session_id;
  token_family_id = family_id;
  network_identity_hash = network_hash;
  user_agent = safe_user_agent metadata.user_agent;
}
