-- ===== src/Identity/Session/Operations.antt =====
-- The operations of backend/internal/identity/domain/refresh_session.go on a session.
use ai_portfolio_research_as.Prelude.{
  Bool, true, false, not, ◌&&◌, ◌||◌, [], Option, none, some, ok, err, ◌>>=◌, ◌>>◌, fail_if, ltb,
  ◌==◌, length,
}
use ai_portfolio_research_as.Prelude.Time.{Instant, before}
use ai_portfolio_research_as.Text.{Bytes}
use ai_portfolio_research_as.Text.Blank.{is_blank}
use ai_portfolio_research_as.Transaction.Value.{Uuid, is_zero}
use ai_portfolio_research_as.Identity.Credential.{TokenDigest}
use ai_portfolio_research_as.Identity.Errors.{
  IdentityError, IdentityOutcome, session_inactive, session_replaced, session_revoked,
  session_expired, invalid_replacement, invalid_revocation,
}
use ai_portfolio_research_as.Identity.Session.{
  RefreshSessionState, active, replaced, revoked, expired, other, RefreshSessionData,
  RefreshSession, new_refresh_session,
}

unfoldable pub new_active_refresh_session :
    Uuid
    → Uuid
    → Uuid
    → TokenDigest
    → Instant
    → Instant
    → Instant
    → Bytes
    → Bytes
    → IdentityOutcome RefreshSession
new_active_refresh_session id family_id user_id digest created_at idle absolute network agent =
    new_refresh_session (record {
      id = id;
      family_id = family_id;
      user_id = user_id;
      token_digest = digest;
      state = active;
      replacement_id = none;
      created_at = created_at;
      replaced_at = none;
      idle_expires_at = idle;
      absolute_expires_at = absolute;
      revoked_at = none;
      revocation_reason = [];
      network_identity_hash = network;
      user_agent = agent;
    })

abbrev pub given {ℓ} : {A : Type ℓ} → Bool → A → Option A
given true a = some a
given false a = none

-- `Data`
unfoldable pub data_of : RefreshSession → RefreshSessionData
data_of session = record {
  id = session.id;
  family_id = session.family_id;
  user_id = session.user_id;
  token_digest = session.token_digest;
  state = session.state;
  replacement_id = given session.has_replacement_id session.replacement_id;
  created_at = session.created_at;
  replaced_at = given session.has_replaced_at session.replaced_at;
  idle_expires_at = session.idle_expires_at;
  absolute_expires_at = session.absolute_expires_at;
  revoked_at = given session.has_revoked_at session.revoked_at;
  revocation_reason = session.revocation_reason;
  network_identity_hash = session.network_identity_hash;
  user_agent = session.user_agent;
}

abbrev pub is_expired_state : RefreshSessionState → Bool
is_expired_state expired = true
is_expired_state _ = false

abbrev pub is_active_state : RefreshSessionState → Bool
is_active_state active = true
is_active_state _ = false

unfoldable pub is_expired_at : RefreshSession → Instant → Bool
is_expired_at session now =
    is_expired_state session.state
    || not (before now session.idle_expires_at)
    || not (before now session.absolute_expires_at)

unfoldable pub is_active_at : RefreshSession → Instant → Bool
is_active_at session now = is_active_state session.state && not (is_expired_at session now)

-- the `switch` of `ReplacementEligibility`, by the state and `IsExpiredAt`
unfoldable pub eligibility : RefreshSessionState → Bool → IdentityOutcome (Unit {0})
eligibility replaced out = err session_replaced
eligibility revoked out = err session_revoked
eligibility expired out = err session_expired
eligibility active out = fail_if out session_expired
eligibility other out = err session_inactive

unfoldable pub replacement_eligibility : RefreshSession → Instant → IdentityOutcome (Unit {0})
replacement_eligibility session now = eligibility session.state (is_expired_at session now)

pub record ReplacementInput : Type 0 where
  pub session_id : Uuid
  pub token_digest : TokenDigest
  pub created_at : Instant
  pub idle_expires_at : Instant
  pub network_identity_hash : Bytes
  pub user_agent : Bytes

-- the error of `NewActiveRefreshSession` is reported as another one
abbrev pub or_else : {A : Type 0} → IdentityError → IdentityOutcome A → IdentityOutcome A
or_else e (ok a) = ok a
or_else e (err _) = err e

-- the data of the session that gives way
unfoldable pub replaced_data : RefreshSession → ReplacementInput → RefreshSessionData
replaced_data session input = record {
  id = session.id;
  family_id = session.family_id;
  user_id = session.user_id;
  token_digest = session.token_digest;
  state = replaced;
  replacement_id = some input.session_id;
  created_at = session.created_at;
  replaced_at = some input.created_at;
  idle_expires_at = session.idle_expires_at;
  absolute_expires_at = session.absolute_expires_at;
  revoked_at = none;
  revocation_reason = [];
  network_identity_hash = session.network_identity_hash;
  user_agent = session.user_agent;
}

-- The old session and the new one.
unfoldable pub plan_replacement :
    RefreshSession → ReplacementInput → IdentityOutcome (RefreshSession × RefreshSession)
plan_replacement session input = do
  replacement_eligibility session input.created_at
  fail_if (is_zero input.session_id || input.session_id == session.id) invalid_replacement
  replacement ← or_else invalid_replacement (
      new_active_refresh_session input.session_id session.family_id session.user_id
        input.token_digest input.created_at input.idle_expires_at session.absolute_expires_at
        input.network_identity_hash input.user_agent)
  retired ← new_refresh_session (replaced_data session input)
  ok (retired, replacement)

unfoldable pub revoked_data : RefreshSession → Instant → Bytes → RefreshSessionData
revoked_data session at reason = record (data_of session) {
  state = revoked;
  revoked_at = some at;
  revocation_reason = reason;
}

abbrev pub is_revoked_state : RefreshSessionState → Bool
is_revoked_state revoked = true
is_revoked_state _ = false

unfoldable pub revoke : RefreshSession → Instant → Bytes → IdentityOutcome RefreshSession
revoke session at reason = do
  fail_if (is_revoked_state session.state) session_revoked
  fail_if (before at session.created_at || is_blank reason || ltb 128 (length reason))
      invalid_revocation
  new_refresh_session (revoked_data session at reason)
