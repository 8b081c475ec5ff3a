-- ===== src/Identity/Service/Access.antt =====
-- `Register`, `Login`, `ResolvePrincipal` and `CurrentUser` of
-- backend/internal/identity/application/operations.go.
use ai_portfolio_research_as.Prelude.{
  ℕ, ◌+◌, Bool, false, not, ◌||◌, Option, none, some, Result, ok, err, fail_if, if◌then◌else◌,
}
use ai_portfolio_research_as.Prelude.Int.{pos}
use ai_portfolio_research_as.Prelude.Time.{Instant}
use ai_portfolio_research_as.Prelude.Actions.{Action, lift, pure, reads, ◌>>=◌, ◌>>◌}
use ai_portfolio_research_as.Text.{Bytes}
use ai_portfolio_research_as.Transaction.Value.{Uuid, is_zero}
use ai_portfolio_research_as.Identity.Credential.{PasswordHash, TokenDigest}
use ai_portfolio_research_as.Identity.Session.{RefreshSession}
use ai_portfolio_research_as.Identity.Session.Operations.{new_active_refresh_session}
use ai_portfolio_research_as.Identity.User.{User, new_active_user}
use ai_portfolio_research_as.Identity.Service.{
  AuthError, invalid_request, registration_rejected, authentication_failed, access_token_invalid,
  service_unavailable, duplicate_identity, login_ip_attempt, login_email_failure,
  registration_ip_attempt, PasswordVerification, registration_success, registration_failure,
  login_success, login_failure, disabled_account_rejection, success, info, RequestMetadata,
  CredentialsInput, SafeUser, SessionResult, session_idle_lifetime, session_absolute_limit,
  safe_user, user_is_active, user_is_disabled, safe_user_agent, audit_event,
}
use ai_portfolio_research_as.Identity.Service.Ports.{AuthPorts}
use ai_portfolio_research_as.Identity.Service.Requests.{
  naming, named, on_error, read_now, prepare_request, check_rate_limit, session_ids,
  new_refresh_credential, append_failure_audit, best_effort_rehash, within_transaction,
}

-- what `Register` and `createLoginSession` return
unfoldable pub session_result : Bytes → User → Bytes → RefreshSession → SessionResult
session_result access_token user refresh_token session = record {
  access_token = access_token;
  user = safe_user user;
  refresh_token = refresh_token;
  cookie_expires_at = session.idle_expires_at;
  cookie_max_age = pos session_idle_lifetime;
}

-- the first session of a login
unfoldable pub initial_session :
    Uuid
    → Uuid
    → Uuid
    → TokenDigest
    → Instant
    → Bytes
    → RequestMetadata
    → Result AuthError RefreshSession
initial_session session_id family_id user_id digest now network_hash metadata =
    named service_unavailable (
      new_active_refresh_session session_id family_id user_id digest now
        (now + session_idle_lifetime) (now + session_absolute_limit) network_hash
        (safe_user_agent metadata.user_agent))

-- the error of a registration that was not stored
unfoldable pub registration_error : AuthError → AuthError
registration_error duplicate_identity = registration_rejected
registration_error _ = service_unavailable

-- the hash that a login is verified against, and the actor of the record of its failure
unfoldable pub stored_hash : PasswordHash → Result AuthError User → PasswordHash
stored_hash dummy (ok user) = user.password_hash
stored_hash dummy (err _) = dummy

unfoldable pub found_id : Result AuthError User → Option Uuid
found_id (ok user) = some user.id
found_id (err _) = none

unfoldable pub found_disabled : Result AuthError User → Bool
found_disabled (ok user) = user_is_disabled user
found_disabled (err _) = false

-- the user who may log in
unfoldable pub accepted_user :
    Result AuthError User → Result ℕ PasswordVerification → Option (User × PasswordVerification)
accepted_user (err _) verification = none
accepted_user (ok user) (err _) = none
accepted_user (ok user) (ok verification) =
    if not verification.verified || not (user_is_active user)
    then none
    else some (user, verification)

-- a user who was found and is active
unfoldable pub active_user : Result AuthError User → Result AuthError User
active_user (err _) = err access_token_invalid
active_user (ok user) = if user_is_active user then ok user else err access_token_invalid

module _ {S : Type 0} (ports : AuthPorts S) where
  unfoldable pub register_within :
      User → RefreshSession → RequestMetadata → Bytes → Instant → Action S AuthError (Unit {0})
  register_within user session metadata network_hash now = do
    ports.create_user user
    ports.create_session session
    ports.audit (
        audit_event registration_success success info (some user.id) (some session.id)
          (some session.family_id) metadata network_hash now)

  -- the record of a registration that failed, and its error
  unfoldable pub registration_failed :
      {A E : Type 0}
      → (E → AuthError)
      → RequestMetadata
      → Bytes
      → Instant
      → E
      → Action S AuthError A
  registration_failed name metadata network_hash now e = do
    append_failure_audit ports registration_failure none metadata network_hash now
    lift (err (name e))

  unfoldable pub register : CredentialsInput → Action S AuthError SessionResult
  register input = do
    now ← read_now ports
    client ← lift (prepare_request ports input.email input.metadata)
    key ← lift (named service_unavailable (ports.registration_key client.network))
    check_rate_limit ports registration_ip_attempt key now
    password_hash ←
        on_error (ports.hash_password input.password)
          (registration_failed (λ _. invalid_request) input.metadata client.network_hash now)
    user_id ← naming service_unavailable ports.new_user_id
    ids ← session_ids ports
    credential ← new_refresh_credential ports
    user ← lift (named invalid_request (new_active_user user_id client.email password_hash now))
    session ←
        lift
          (initial_session ids.0 ids.1 user_id credential.1 now client.network_hash input.metadata)
    access_token ← naming service_unavailable (ports.issue user_id now)
    on_error
        (within_transaction ports
          (register_within user session input.metadata client.network_hash now))
        (registration_failed registration_error input.metadata client.network_hash now)
    pure (session_result access_token user credential.0 session)

  -- the records of a login that failed, and its one error
  unfoldable pub login_failed :
      {A : Type 0}
      → Result AuthError User
      → RequestMetadata
      → Bytes
      → Instant
      → Action S AuthError A
  login_failed found metadata network_hash now = do
    append_failure_audit ports login_failure (found_id found) metadata network_hash now
    (if found_disabled found
        then append_failure_audit ports disabled_account_rejection (found_id found) metadata
            network_hash now
        else pure tt)
    lift (err authentication_failed)

  unfoldable pub login_within :
      RefreshSession → RequestMetadata → Bytes → Instant → Action S AuthError (Unit {0})
  login_within session metadata network_hash now = do
    ports.create_session session
    ports.audit (
        audit_event login_success success info (some session.user_id) (some session.id)
          (some session.family_id) metadata network_hash now)

  unfoldable pub create_login_session :
      User → RequestMetadata → Bytes → Instant → Action S AuthError SessionResult
  create_login_session user metadata network_hash now = do
    ids ← session_ids ports
    credential ← new_refresh_credential ports
    session ← lift (initial_session ids.0 ids.1 user.id credential.1 now network_hash metadata)
    access_token ← naming service_unavailable (ports.issue user.id now)
    naming service_unavailable
        (within_transaction ports (login_within session metadata network_hash now))
    pure (session_result access_token user credential.0 session)

  -- the last part of `Login`, on the user who may log in
  unfoldable pub admit :
      Result AuthError User
      → ℕ
      → CredentialsInput
      → Bytes
      → Instant
      → Option (User × PasswordVerification)
      → Action S AuthError SessionResult
  admit found email_key input network_hash now none =
      login_failed found input.metadata network_hash now
  admit found email_key input network_hash now (some (user, verification)) = do
    naming service_unavailable (ports.reset_failures email_key)
    (if verification.needs_rehash
        then best_effort_rehash ports input.password user now
        else pure tt)
    create_login_session user input.metadata network_hash now

  -- the answer of the repository, which is no error of the caller
  abbrev pub looked_up : Bytes → Action S AuthError (Result AuthError User)
  looked_up email s = (ok (ports.find_email email s), s)

  abbrev pub verified :
      Bytes → Result AuthError User → Action S AuthError (Result ℕ PasswordVerification)
  verified password found s =
      (ok (ports.verify_password password (stored_hash ports.dummy_hash found) s), s)

  unfoldable pub login : CredentialsInput → Action S AuthError SessionResult
  login input = do
    now ← read_now ports
    client ← lift (prepare_request ports input.email input.metadata)
    ip_key ← lift (named service_unavailable (ports.login_ip_key client.network))
    check_rate_limit ports login_ip_attempt ip_key now
    email_key ← lift (named service_unavailable (ports.login_email_key client.email))
    check_rate_limit ports login_email_failure email_key now
    found ← looked_up client.email
    verification ← verified input.password found
    admit found email_key input client.network_hash now (accepted_user found verification)

  unfoldable pub resolve_principal : Bytes → Action S AuthError Uuid
  resolve_principal token = do
    now ← read_now ports
    user_id ← lift (named access_token_invalid (ports.verify_access token now))
    lift (fail_if (is_zero user_id) access_token_invalid)
    _ ← reads (λ s. active_user (ports.find_user user_id s))
    pure user_id

  unfoldable pub current_user : Uuid → Action S AuthError SafeUser
  current_user principal = do
    lift (fail_if (is_zero principal) access_token_invalid)
    user ← reads (λ s. active_user (ports.find_user principal s))
    pure (safe_user user)
