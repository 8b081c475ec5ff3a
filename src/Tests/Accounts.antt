-- ===== src/Tests/Accounts.antt =====
-- Runs of backend/internal/identity/application/operations.go over a store in memory.
use ai_portfolio_research_as.Prelude.{
  ◌≡◌, refl, ◌∙◌, sym, ap, arith, ℕ, ◌+◌, Bool, Bool-cases, inl, inr, true, false, not, ◌&&◌, ◌||◌,
  List, [], ◌∷◌, ◌++◌, Option, none, some, Result, ok, err, ◌==◌, if◌then◌else◌,
}
use ai_portfolio_research_as.Prelude.Int.{ℤ, pos, ◌-ℤ◌}
use ai_portfolio_research_as.Prelude.Time.{Instant}
use ai_portfolio_research_as.Text.{Bytes, codes, equal}
use ai_portfolio_research_as.Transaction.Value.{Uuid}
use ai_portfolio_research_as.Identity.Credential.{TokenDigest, PasswordHash}
use ai_portfolio_research_as.Identity.Session.{RefreshSession, revoked}
use ai_portfolio_research_as.Identity.User.{User}
use ai_portfolio_research_as.Identity.Session.Operations.{is_active_at}
use ai_portfolio_research_as.Identity.Service.{
  AuthError, session_not_found, session_refresh_rejected, CredentialsInput, RefreshInput,
  RequestMetadata, SessionResult, PasswordVerification, safe_user, user_is_active,
  session_idle_lifetime,
}
use ai_portfolio_research_as.Identity.Service.Ports.{AuthPorts}
use ai_portfolio_research_as.Identity.Service.Requests.{within_transaction}
use ai_portfolio_research_as.Identity.Service.Access.{login}
use ai_portfolio_research_as.Identity.Service.Refreshing.{
  refresh, refresh_within, logout, is_retired, after_commit,
}
use ai_portfolio_research_as.Identity.Service.Granted.{login-Verified}
use ai_portfolio_research_as.Identity.Service.Stored.{Sessions, with_session, StoresSessions}
use ai_portfolio_research_as.Identity.Service.Rotated.{IsGranted, refresh-IsGranted}
use ai_portfolio_research_as.Identity.Service.Revoked.{
  Live, RevokesFamilies, refresh-reuse, logout-live,
}
use ai_portfolio_research_as.Tests.Data.{tuesday}
use ai_portfolio_research_as.Tests.Sessions.{digest, session}
use ai_portfolio_research_as.Tests.Records.{user}

record Accounts : Type 0 where
  sessions : List RefreshSession
  next : ℕ

unfoldable find_session : TokenDigest → List RefreshSession → Result AuthError RefreshSession
find_session d [] = err session_not_found
find_session d (x ∷ xs) =
    let rest = find_session d xs in if equal x.token_digest.value d.value then ok x else rest

unfoldable revoke_all : Uuid → Instant → Bytes → List RefreshSession → List RefreshSession
revoke_all f at reason [] = []
revoke_all f at reason (x ∷ xs) =
    let rest = revoke_all f at reason xs in
    if x.family_id == f
    then record x {
      state = revoked;
      revoked_at = at;
      has_revoked_at = true;
      revocation_reason = reason;
    }
      ∷ rest
    else x ∷ rest

-- a session in place of the one with its identifier, or at the end
unfoldable put_session : RefreshSession → List RefreshSession → List RefreshSession
put_session y [] = y ∷ []
put_session y (x ∷ xs) = let rest = put_session y xs in if x.id == y.id then y ∷ xs else x ∷ rest

unfoldable session_at : List RefreshSession → Uuid → Option RefreshSession
session_at [] id = none
session_at (x ∷ xs) id = let rest = session_at xs id in if id == x.id then some x else rest

-- the identifiers of the sessions of a family that are neither replaced nor revoked
unfoldable live_ids : Uuid → List RefreshSession → List Uuid
live_ids f [] = []
live_ids f (x ∷ xs) =
    let rest = live_ids f xs in
    if x.family_id == f && not (is_retired x.state) then x.id ∷ rest else rest

abbrev account_ports : AuthPorts Accounts
account_ports = record {
  now = λ s. (tuesday, s);
  new_user_id = λ s. (ok s.next, record s { next = s.next + 1 });
  new_session_id = λ s. (ok s.next, record s { next = s.next + 1 });
  new_family_id = λ s. (ok s.next, record s { next = s.next + 1 });
  normalize_email = λ raw. ok raw;
  resolve = λ peer forwarded. ok 1;
  hash_network = λ address. ok (codes "network");
  registration_key = λ address. ok 1;
  login_ip_key = λ address. ok 2;
  login_email_key = λ email. ok 3;
  refresh_family_key = λ family. ok 4;
  check_rate = λ policy key at s.
      (ok (record { allowed = true; remaining = pos 1; retry_after = pos 0 }), s);
  reset_failures = λ key s. (ok tt, s);
  hash_password = λ password s. (ok user.password_hash, s);
  verify_password = λ password hash s. ok (record {
    verified = equal password (codes "secret") && equal hash.encoded (codes "argon2id");
    needs_rehash = false;
  });
  dummy_hash = record { encoded = codes "dummy" };
  issue = λ id at s. (ok (codes "access"), s);
  verify_access = λ token at. ok 2;
  generate = λ s. (ok (codes "refresh"), s);
  parse_token = λ raw. ok raw;
  digest = λ token. ok digest;
  append_audit = λ e s. (ok tt, s);
  find_email = λ email s. ok user;
  find_user = λ id s. ok user;
  swap_hash = λ id old new at s. (ok user, s);
  create_user = λ u s. (ok tt, s);
  create_session = λ x s. (ok tt, record s { sessions = s.sessions ++ (x ∷ []) });
  lock_session = λ d s. find_session d s.sessions;
  mark_replaced = λ x s. (ok tt, record s { sessions = put_session x s.sessions });
  insert_replacement = λ x s. (ok tt, record s { sessions = put_session x s.sessions });
  revoke_family =
      λ f at reason s. (ok tt, record s { sessions = revoke_all f at reason s.sessions });
  audit = λ e s. (ok tt, s);
  begin = λ s. ok tt;
  commit = λ s. ok tt;
  rollback = λ s s'. record s { next = s'.next };
}

abbrev account_live : Live Accounts
account_live s f = live_ids f s.sessions

revoke_all-live :
    (f : Uuid) (at : Instant) (reason : Bytes) (xs : List RefreshSession)
    → live_ids f (revoke_all f at reason xs) ≡ []
unfolding live_ids revoke_all is_retired
revoke_all-live f at reason [] = refl
revoke_all-live f at reason (x ∷ xs) = ground (arith, revoke_all-live f at reason xs)

accounts-RevokeFamilies : RevokesFamilies account_ports account_live
accounts-RevokeFamilies = record {
  revoke_family-live = λ f at reason s s' h.
      sym (ap (λ (x : Result AuthError (Unit {0}) × Accounts). account_live x.1 f) h)
      ∙ revoke_all-live f at reason s.sessions;
  audit-live = λ e s. refl;
}

abbrev account_sessions : Sessions Accounts
account_sessions s = session_at s.sessions

put_session-lem :
    (x : RefreshSession) (xs : List RefreshSession) (id : Uuid)
    → session_at (put_session x xs) id ≡ with_session x (session_at xs) id
unfolding put_session session_at
put_session-lem x [] id = refl
put_session-lem x (y ∷ xs) id = ground (arith, put_session-lem x xs id)

stored_session :
    (x : RefreshSession) (s s' : Accounts)
    → ◌≡◌ {A = Result AuthError (Unit {0}) × Accounts}
        (ok tt, record s { sessions = put_session x s.sessions })
        (ok tt, s')
    → account_sessions s' ≡ with_session x (account_sessions s)
stored_session x s s' h =
    sym (ap (λ (out : Result AuthError (Unit {0}) × Accounts). account_sessions out.1) h)
    ∙ (λ i id. put_session-lem x s.sessions id i)

accounts-StoresSessions : StoresSessions account_ports account_sessions
accounts-StoresSessions = record {
  mark_replaced-sessions = stored_session;
  insert_replacement-sessions = stored_session;
  now-sessions = λ s. refl;
  new_session_id-sessions = λ s. refl;
  check_rate-sessions = λ policy key at s. refl;
  generate-sessions = λ s. refl;
  issue-sessions = λ id at s. refl;
  audit-sessions = λ e s. refl;
}

abbrev visit : RequestMetadata
visit = record {
  correlation_id = codes "request-1";
  direct_peer_ip = codes "192.0.2.1";
  forwarded_for = [];
  user_agent = codes "curl";
}

abbrev credentials : CredentialsInput
credentials = record { email = codes "a@b"; password = codes "secret"; metadata = visit }

abbrev presented : RefreshInput
presented = record { raw_token = codes "refresh"; metadata = visit }

abbrev one_session : Accounts
one_session = record { sessions = session ∷ []; next = 51 }

abbrev stolen_at : Bytes → RefreshSession → RefreshSession
stolen_at reason x = record x {
  state = revoked;
  revoked_at = tuesday;
  has_revoked_at = true;
  revocation_reason = reason;
}

abbrev stolen : RefreshSession
stolen = stolen_at (codes "logout") session

abbrev two_sessions : Accounts
two_sessions = record { sessions = stolen ∷ record session { id = 44 } ∷ []; next = 51 }

abbrev granted : SessionResult
granted = record {
  access_token = codes "access";
  user = safe_user user;
  refresh_token = codes "refresh";
  cookie_expires_at = tuesday + session_idle_lifetime;
  cookie_max_age = pos session_idle_lifetime;
}

-- the stores behind a logout, and behind the answer to a stolen token
abbrev closed_store : Accounts
closed_store = record {
  sessions = stolen_at (codes "current_session_logout") session ∷ [];
  next = 51;
}

abbrev ended_store : Accounts
ended_store = record {
  sessions =
      stolen_at (codes "refresh_token_reuse") stolen
      ∷ stolen_at (codes "refresh_token_reuse") (record session { id = 44 })
      ∷ [];
  next = 51;
}

-- The runs, computed.
account_runs :
    ((login account_ports credentials one_session).0 ≡ ok granted)
    × ((refresh account_ports presented one_session).0 ≡ ok granted)
    × (within_transaction account_ports
          (refresh_within account_ports digest visit (codes "network") tuesday)
          two_sessions
        ≡ (ok none, ended_store))
    × (logout account_ports presented one_session ≡ (ok tt, closed_store))
    × (find_session digest two_sessions.sessions ≡ ok stolen)
    × (is_retired stolen.state ≡ true)
unfolding ai_portfolio_research_as.Text.equal ai_portfolio_research_as.Text.all_digits
    ai_portfolio_research_as.Text.split ai_portfolio_research_as.Text.trim_right
    ai_portfolio_research_as.Tests.Accounts.find_session
    ai_portfolio_research_as.Tests.Accounts.revoke_all
    ai_portfolio_research_as.Tests.Accounts.put_session
    ai_portfolio_research_as.Tests.Accounts.live_ids
    ai_portfolio_research_as.Identity.Service.new_rate_limit_error
    ai_portfolio_research_as.Identity.Service.safe_user_agent
    ai_portfolio_research_as.Identity.Service.audit_event
    ai_portfolio_research_as.Identity.User.account_status_of_text
    ai_portfolio_research_as.Identity.User.bad_disabling
    ai_portfolio_research_as.Identity.User.new_user
    ai_portfolio_research_as.Identity.User.new_active_user
    ai_portfolio_research_as.Identity.Session.session_state_of_text
    ai_portfolio_research_as.Identity.Session.check_session_state
    ai_portfolio_research_as.Identity.Session.state_disagrees
    ai_portfolio_research_as.Identity.Session.validate_lifecycle
    ai_portfolio_research_as.Identity.Session.session_of
    ai_portfolio_research_as.Identity.Session.bad_identity
    ai_portfolio_research_as.Identity.Session.bad_times
    ai_portfolio_research_as.Identity.Session.bad_client
    ai_portfolio_research_as.Identity.Session.new_refresh_session
    ai_portfolio_research_as.Identity.Credential.new_password_hash
    ai_portfolio_research_as.Identity.Credential.new_token_digest
    ai_portfolio_research_as.Identity.Service.Access.session_result
    ai_portfolio_research_as.Identity.Service.Access.initial_session
    ai_portfolio_research_as.Identity.Service.Access.registration_error
    ai_portfolio_research_as.Identity.Service.Access.stored_hash
    ai_portfolio_research_as.Identity.Service.Access.found_id
    ai_portfolio_research_as.Identity.Service.Access.found_disabled
    ai_portfolio_research_as.Identity.Service.Access.accepted_user
    ai_portfolio_research_as.Identity.Service.Access.active_user
    ai_portfolio_research_as.Identity.Service.Access.register_within
    ai_portfolio_research_as.Identity.Service.Access.registration_failed
    ai_portfolio_research_as.Identity.Service.Access.register
    ai_portfolio_research_as.Identity.Service.Access.login_failed
    ai_portfolio_research_as.Identity.Service.Access.login_within
    ai_portfolio_research_as.Identity.Service.Access.create_login_session
    ai_portfolio_research_as.Identity.Service.Access.admit
    ai_portfolio_research_as.Identity.Service.Access.login
    ai_portfolio_research_as.Identity.Service.Access.resolve_principal
    ai_portfolio_research_as.Identity.Service.Access.current_user
    ai_portfolio_research_as.Identity.Service.Requests.on_error
    ai_portfolio_research_as.Identity.Service.Requests.checked
    ai_portfolio_research_as.Identity.Service.Requests.read_now
    ai_portfolio_research_as.Identity.Service.Requests.resolve_network
    ai_portfolio_research_as.Identity.Service.Requests.prepare_request
    ai_portfolio_research_as.Identity.Service.Requests.check_rate_limit
    ai_portfolio_research_as.Identity.Service.Requests.session_ids
    ai_portfolio_research_as.Identity.Service.Requests.new_refresh_credential
    ai_portfolio_research_as.Identity.Service.Requests.append_failure_audit
    ai_portfolio_research_as.Identity.Service.Requests.swap_for
    ai_portfolio_research_as.Identity.Service.Requests.best_effort_rehash
    ai_portfolio_research_as.Identity.Service.Requests.within_transaction
    ai_portfolio_research_as.Identity.Service.Refreshing.is_retired
    ai_portfolio_research_as.Identity.Service.Refreshing.rotation_input
    ai_portfolio_research_as.Identity.Service.Refreshing.refresh_error
    ai_portfolio_research_as.Identity.Service.Refreshing.after_commit
    ai_portfolio_research_as.Identity.Service.Refreshing.logout_error
    ai_portfolio_research_as.Identity.Service.Refreshing.open_session
    ai_portfolio_research_as.Identity.Service.Refreshing.audit_session
    ai_portfolio_research_as.Identity.Service.Refreshing.answer_reuse
    ai_portfolio_research_as.Identity.Service.Refreshing.reject_user
    ai_portfolio_research_as.Identity.Service.Refreshing.rotate
    ai_portfolio_research_as.Identity.Service.Refreshing.refresh_open
    ai_portfolio_research_as.Identity.Service.Refreshing.refresh_within
    ai_portfolio_research_as.Identity.Service.Refreshing.refresh_failed
    ai_portfolio_research_as.Identity.Service.Refreshing.token_refused
    ai_portfolio_research_as.Identity.Service.Refreshing.refresh
    ai_portfolio_research_as.Identity.Service.Refreshing.logout_within
    ai_portfolio_research_as.Identity.Service.Refreshing.logout
    ai_portfolio_research_as.Identity.Session.Operations.new_active_refresh_session
    ai_portfolio_research_as.Identity.Session.Operations.data_of
    ai_portfolio_research_as.Identity.Session.Operations.is_expired_at
    ai_portfolio_research_as.Identity.Session.Operations.is_active_at
    ai_portfolio_research_as.Identity.Session.Operations.eligibility
    ai_portfolio_research_as.Identity.Session.Operations.replacement_eligibility
    ai_portfolio_research_as.Identity.Session.Operations.replaced_data
    ai_portfolio_research_as.Identity.Session.Operations.plan_replacement
    ai_portfolio_research_as.Identity.Session.Operations.revoked_data
    ai_portfolio_research_as.Identity.Session.Operations.revoke
    ai_portfolio_research_as.Platform.Outbox.all_bytes
    ai_portfolio_research_as.Platform.Outbox.is_name
    ai_portfolio_research_as.Platform.Outbox.all_names
    ai_portfolio_research_as.Platform.Outbox.matches_event_type
    ai_portfolio_research_as.Platform.Outbox.matches_correlation_id
    ai_portfolio_research_as.Platform.Outbox.validate_references
    ai_portfolio_research_as.Platform.Outbox.validate_payload
    ai_portfolio_research_as.Platform.Outbox.validate_event
    ai_portfolio_research_as.Platform.Outbox.validate_claim_request
    ai_portfolio_research_as.Platform.Outbox.validate_failure_code
    ai_portfolio_research_as.Platform.Outbox.validate_consumer_name
    ai_portfolio_research_as.Prelude.Actions.◌>>=◌ ai_portfolio_research_as.Prelude.Int.◌+ℤ◌
    ai_portfolio_research_as.Prelude.Int.◌-ℤ◌ ai_portfolio_research_as.Prelude.Time.zero_time
    ai_portfolio_research_as.Prelude.Transactions.committed
    ai_portfolio_research_as.Prelude.Transactions.transaction_end
    ai_portfolio_research_as.Prelude.Transactions.begun
    ai_portfolio_research_as.Prelude.Transactions.bracketed
    ai_portfolio_research_as.Text.Digits.value ai_portfolio_research_as.Text.Digits.unsigned
    ai_portfolio_research_as.Text.Digits.digits ai_portfolio_research_as.Text.Digits.numeral
    ai_portfolio_research_as.Text.Blank.is_blank ai_portfolio_research_as.Text.Utf8.valid_string
    ai_portfolio_research_as.Text.Utf8.rune_count
account_runs = (refl, refl, refl, refl, refl, refl)

abbrev login_store : Accounts
login_store = (login account_ports credentials one_session).1

abbrev refresh_store : Accounts
refresh_store = (refresh account_ports presented one_session).1

login-Verified_example :
    (email : Bytes) × (t : Accounts) × (who : User) × (v : PasswordVerification)
    × (account_ports.normalize_email credentials.email ≡ ok email)
    × (account_ports.find_email email t ≡ ok who)
    × (account_ports.verify_password credentials.password who.password_hash t ≡ ok v)
    × (v.verified ≡ true)
    × (user_is_active who ≡ true)
    × (granted.user ≡ safe_user who)
login-Verified_example =
    login-Verified account_ports credentials one_session login_store granted
      (λ i. (account_runs.0 i, login_store))

refresh-IsGranted_example :
    (token : Bytes) × (d : TokenDigest) × (now : Instant) × (hash : Bytes) × (t : Accounts)
    × (account_ports.parse_token presented.raw_token ≡ ok token)
    × (account_ports.digest token ≡ ok d)
    × (account_sessions t ≡ account_sessions one_session)
    × IsGranted account_ports account_sessions accounts-StoresSessions d visit hash now t
        refresh_store granted
refresh-IsGranted_example =
    refresh-IsGranted account_ports account_sessions accounts-StoresSessions presented one_session
      refresh_store granted (λ i. (account_runs.1 i, refresh_store))

refresh-reuse_example :
    (after_commit none ≡ err session_refresh_rejected)
    × (account_live ended_store stolen.family_id ≡ [])
refresh-reuse_example =
    refresh-reuse account_ports account_live accounts-RevokeFamilies digest visit (codes "network")
      tuesday two_sessions ended_store stolen none account_runs.4 account_runs.5 account_runs.2

logout-live_example :
    (token : Bytes) × (d : TokenDigest) × (now : Instant) × (t : Accounts) × (x : RefreshSession)
    × (account_ports.parse_token presented.raw_token ≡ ok token)
    × (account_ports.digest token ≡ ok d)
    × (account_ports.lock_session d t ≡ ok x)
    × (is_active_at x now ≡ true)
    × (account_live closed_store x.family_id ≡ [])
logout-live_example =
    logout-live account_ports account_live accounts-RevokeFamilies presented one_session
      closed_store account_runs.3
