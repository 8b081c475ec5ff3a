-- ===== src/Identity/Service/Refreshing.antt =====
-- `Refresh` and `Logout` of backend/internal/identity/application/operations.go.
use ai_portfolio_research_as.Prelude.{
  ℕ, ◌+◌, Bool, true, false, not, [], Option, none, some, Result, ok, err, fail_if, if◌then◌else◌,
}
use ai_portfolio_research_as.Prelude.Int.{pos, ◌-ℤ◌}
use ai_portfolio_research_as.Prelude.Time.{Instant}
use ai_portfolio_research_as.Prelude.Actions.{Action, lift, pure, reads, ◌>>=◌, ◌>>◌}
use ai_portfolio_research_as.Text.{Bytes, codes}
use ai_portfolio_research_as.Transaction.Value.{Uuid}
use ai_portfolio_research_as.Identity.Credential.{TokenDigest}
use ai_portfolio_research_as.Identity.Session.{
  RefreshSession, replaced, revoked, RefreshSessionState,
}
use ai_portfolio_research_as.Identity.Session.Operations.{
  ReplacementInput, plan_replacement, is_expired_at, is_active_at,
}
use ai_portfolio_research_as.Identity.User.{User}
use ai_portfolio_research_as.Identity.Service.{
  AuthError, invalid_request, session_refresh_rejected, service_unavailable, session_not_found,
  rate_limited, refresh_family_attempt, AuditAction, refresh_success, refresh_failure, logged_out,
  token_family_revocation, refresh_token_reuse, disabled_account_rejection, AuditResult, success,
  failure, AuditSeverity, info, warning, high, RequestMetadata, RefreshInput, SessionResult,
  session_idle_lifetime, safe_user, user_is_active, safe_user_agent, min_time, audit_event,
}
use ai_portfolio_research_as.Identity.Service.Ports.{AuthPorts}
use ai_portfolio_research_as.Identity.Service.Requests.{
  naming, named, on_error, read_now, resolve_network, check_rate_limit, new_refresh_credential,
  append_failure_audit, within_transaction,
}

-- `revocationLogout` and `revocationReplay`
abbrev pub revocation_logout : Bytes
revocation_logout = codes "current_session_logout"

abbrev pub revocation_replay : Bytes
revocation_replay = codes "refresh_token_reuse"

-- `IsReplaced` or `IsRevoked`
unfoldable pub is_retired : RefreshSessionState → Bool
is_retired replaced = true
is_retired revoked = true
is_retired _ = false

-- the input of the rotation
unfoldable pub rotation_input :
    RefreshSession → Uuid → TokenDigest → Instant → Bytes → RequestMetadata → ReplacementInput
rotation_input session new_id new_digest now network_hash metadata = record {
  session_id = new_id;
  token_digest = new_digest;
  created_at = now;
  idle_expires_at = min_time (now + session_idle_lifetime) session.absolute_expires_at;
  network_identity_hash = network_hash;
  user_agent = safe_user_agent metadata.user_agent;
}

-- the error of `Refresh` for an error of its transaction
unfoldable pub refresh_error : AuthError → AuthError
refresh_error session_refresh_rejected = session_refresh_rejected
refresh_error session_not_found = session_refresh_rejected
refresh_error (rate_limited t) = rate_limited t
refresh_error _ = service_unavailable

-- the result behind a transaction that was committed; `none` is `rejectAfterCommit`
unfoldable pub after_commit : Option SessionResult → Result AuthError SessionResult
after_commit none = err session_refresh_rejected
after_commit (some result) = ok result

-- the error of `Logout` for an error of its transaction
unfoldable pub logout_error : AuthError → AuthError
logout_error session_refresh_rejected = session_refresh_rejected
logout_error session_not_found = session_refresh_rejected
logout_error _ = service_unavailable

-- the session that a logout ends
unfoldable pub open_session :
    Instant → Result AuthError RefreshSession → Result AuthError RefreshSession
open_session now (err _) = err session_refresh_rejected
open_session now (ok session) =
    if not (is_active_at session now) then err session_refresh_rejected else ok session

module _ {S : Type 0} (ports : AuthPorts S) where
  -- a record of the transaction about a user, a session and its family
  unfoldable pub audit_session :
      AuditAction
      → AuditResult
      → AuditSeverity
      → Uuid
      → Uuid
      → Uuid
      → RequestMetadata
      → Bytes
      → Instant
      → Action S AuthError (Unit {0})
  audit_session action result severity user_id session_id family_id metadata network_hash now =
      ports.audit (
        audit_event action result severity (some user_id) (some session_id) (some family_id)
          metadata network_hash now)

  -- the answer to a token of a session that was replaced or revoked
  unfoldable pub answer_reuse :
      RefreshSession → RequestMetadata → Bytes → Instant → Action S AuthError (Option SessionResult)
  answer_reuse session metadata network_hash now = do
    ports.revoke_family session.family_id now revocation_replay
    audit_session refresh_token_reuse failure high session.user_id session.id session.family_id
        metadata network_hash now
    audit_session token_family_revocation success high session.user_id session.id session.family_id
        metadata network_hash now
    audit_session refresh_failure failure high session.user_id session.id session.family_id metadata
        network_hash now
    pure none

  -- the answer to a session of a user who is not active
  unfoldable pub reject_user :
      User
      → RefreshSession
      → RequestMetadata
      → Bytes
      → Instant
      → Action S AuthError (Option SessionResult)
  reject_user user session metadata network_hash now = do
    audit_session disabled_account_rejection failure warning user.id session.id session.family_id
        metadata network_hash now
    audit_session refresh_failure failure warning user.id session.id session.family_id metadata
        network_hash now
    pure none

  -- the rotation of the session of an active user
  unfoldable pub rotate :
      User
      → RefreshSession
      → RequestMetadata
      → Bytes
      → Instant
      → Action S AuthError (Option SessionResult)
  rotate user session metadata network_hash now = do
    key ← lift (named service_unavailable (ports.refresh_family_key session.family_id))
    check_rate_limit ports refresh_family_attempt key now
    credential ← new_refresh_credential ports
    new_id ← naming service_unavailable ports.new_session_id
    let input = rotation_input session new_id credential.1 now network_hash metadata
    sessions ← lift (named session_refresh_rejected (plan_replacement session input))
    access_token ← naming service_unavailable (ports.issue user.id now)
    ports.mark_replaced sessions.0
    ports.insert_replacement sessions.1
    audit_session refresh_success success info user.id new_id session.family_id metadata
        network_hash now
    pure (
        some (record {
          access_token = access_token;
          user = safe_user user;
          refresh_token = credential.0;
          cookie_expires_at = input.idle_expires_at;
          cookie_max_age = pos input.idle_expires_at -ℤ pos now;
        }))

  -- the branches behind the test for reuse
  unfoldable pub refresh_open :
      RefreshSession → RequestMetadata → Bytes → Instant → Action S AuthError (Option SessionResult)
  refresh_open session metadata network_hash now = do
    lift (fail_if (is_expired_at session now) session_refresh_rejected)
    user ← reads (ports.find_user session.user_id)
    (if not (user_is_active user)
        then reject_user user session metadata network_hash now
        else rotate user session metadata network_hash now)

  unfoldable pub refresh_within :
      TokenDigest → RequestMetadata → Bytes → Instant → Action S AuthError (Option SessionResult)
  refresh_within digest metadata network_hash now = do
    session ← reads (ports.lock_session digest)
    (if is_retired session.state
        then answer_reuse session metadata network_hash now
        else refresh_open session metadata network_hash now)

  -- the record of a refresh whose transaction failed, and its error
  unfoldable pub refresh_failed :
      {A : Type 0} → RequestMetadata → Bytes → Instant → AuthError → Action S AuthError A
  refresh_failed metadata network_hash now e = do
    append_failure_audit ports refresh_failure none metadata network_hash now
    lift (err (refresh_error e))

  -- a text that is no token
  unfoldable pub token_refused : {A : Type 0} → RequestMetadata → Instant → ℕ → Action S AuthError A
  token_refused metadata now e = do
    append_failure_audit ports refresh_failure none metadata [] now
    lift (err session_refresh_rejected)

  unfoldable pub refresh : RefreshInput → Action S AuthError SessionResult
  refresh input = do
    now ← read_now ports
    token ← on_error (lift (ports.parse_token input.raw_token)) (token_refused input.metadata now)
    digest ← lift (named session_refresh_rejected (ports.digest token))
    network ← lift (named invalid_request (resolve_network ports input.metadata))
    outcome ←
        on_error (within_transaction ports (refresh_within digest input.metadata network.1 now))
          (refresh_failed input.metadata network.1 now)
    lift (after_commit outcome)

  unfoldable pub logout_within :
      TokenDigest → RequestMetadata → Bytes → Instant → Action S AuthError (Unit {0})
  logout_within digest metadata network_hash now = do
    session ← reads (λ s. open_session now (ports.lock_session digest s))
    ports.revoke_family session.family_id now revocation_logout
    audit_session logged_out success info session.user_id session.id session.family_id metadata
        network_hash now
    audit_session token_family_revocation success info session.user_id session.id session.family_id
        metadata network_hash now

  unfoldable pub logout : RefreshInput → Action S AuthError (Unit {0})
  logout input = do
    now ← read_now ports
    token ← lift (named session_refresh_rejected (ports.parse_token input.raw_token))
    digest ← lift (named session_refresh_rejected (ports.digest token))
    network ← lift (named invalid_request (resolve_network ports input.metadata))
    on_error (within_transaction ports (logout_within digest input.metadata network.1 now))
        (λ e. lift (err (logout_error e)))
