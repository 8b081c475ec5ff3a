-- ===== src/Identity/Service/Requests.antt =====
-- The helpers of backend/internal/identity/application/operations.go, and `WithinTransaction` of
-- backend/internal/identity/infrastructure/database.
use ai_portfolio_research_as.Prelude.{ℕ, Option, none, Result, ok, err, if◌then◌else◌}
use ai_portfolio_research_as.Prelude.Time.{Instant, utc}
use ai_portfolio_research_as.Prelude.Transactions.{Bracket, bracketed}
use ai_portfolio_research_as.Prelude.Actions.{Action, lift, pure, rename_error, ◌>>=◌}
use ai_portfolio_research_as.Text.{Bytes}
use ai_portfolio_research_as.Text.Blank.{is_blank}
use ai_portfolio_research_as.Transaction.Value.{Uuid}
use ai_portfolio_research_as.Identity.Credential.{PasswordHash, TokenDigest}
use ai_portfolio_research_as.Identity.User.{User}
use ai_portfolio_research_as.Identity.Service.{
  AuthError, invalid_request, service_unavailable, RateLimitPolicy, RateLimitResult, AuditAction,
  failure, warning, RequestMetadata, audit_event, new_rate_limit_error,
}
use ai_portfolio_research_as.Identity.Service.Ports.{AuthPorts}

-- any error of a callee as one error
abbrev pub naming : {S E A : Type 0} → AuthError → Action S E A → Action S AuthError A
naming e call s = let (r, s') = call s in (rename_error (λ _. e) r, s')

abbrev pub named : {E A : Type 0} → AuthError → Result E A → Result AuthError A
named e = rename_error (λ _. e)

-- A call whose error is answered by another action.
abbrev pub answered :
    {S E A : Type 0} → (E → Action S AuthError A) → Result E A → Action S AuthError A
answered handler (ok a) s = (ok a, s)
answered handler (err e) s = handler e s

unfoldable pub on_error :
    {S E A : Type 0} → Action S E A → (E → Action S AuthError A) → Action S AuthError A
on_error call handler s = let (r, s') = call s in answered handler r s'

-- a call whose outcome is discarded
abbrev pub discard : {S E A : Type 0} → Action S E A → Action S AuthError (Unit {0})
discard call s = (ok tt, (call s).1)

-- what a request says of its client
pub record Client : Type 0 where
  pub email : Bytes
  pub network : ℕ
  pub network_hash : Bytes

-- the answer to a check of a rate limit
unfoldable pub checked : RateLimitResult → Result AuthError (Unit {0})
checked result = if result.allowed then ok tt else err (new_rate_limit_error result.retry_after)

module _ {S : Type 0} (ports : AuthPorts S) where
  unfoldable pub read_now : Action S AuthError Instant
  read_now s = let (t, s') = ports.now s in (ok (utc t), s')

  unfoldable pub resolve_network : RequestMetadata → Result ℕ (ℕ × Bytes)
  resolve_network metadata = elim (ports.resolve metadata.direct_peer_ip metadata.forwarded_for) [
    | err e ↦ err e
    | ok address ↦ elim (ports.hash_network address) [
      | err e ↦ err e
      | ok hash ↦ ok (address, hash)
    ]
  ]

  -- `prepareRequest`; its callers report every error as `invalid_request`
  unfoldable pub prepare_request : Bytes → RequestMetadata → Result AuthError Client
  prepare_request raw_email metadata = elim (ports.normalize_email raw_email) [
    | err _ ↦ err invalid_request
    | ok email ↦
        if is_blank metadata.correlation_id
        then err invalid_request
        else elim (resolve_network metadata) [
          | err _ ↦ err invalid_request
          | ok found ↦ ok (record { email = email; network = found.0; network_hash = found.1 })
        ]
  ]

  unfoldable pub check_rate_limit : RateLimitPolicy → ℕ → Instant → Action S AuthError (Unit {0})
  check_rate_limit policy key now = do
    result ← naming service_unavailable (ports.check_rate policy key now)
    lift (checked result)

  -- `sessionIDs`
  unfoldable pub session_ids : Action S AuthError (Uuid × Uuid)
  session_ids = do
    session_id ← naming service_unavailable ports.new_session_id
    family_id ← naming service_unavailable ports.new_family_id
    pure (session_id, family_id)

  -- a refresh token and its digest
  unfoldable pub new_refresh_credential : Action S AuthError (Bytes × TokenDigest)
  new_refresh_credential = do
    token ← naming service_unavailable ports.generate
    digest ← lift (named service_unavailable (ports.digest token))
    pure (token, digest)

  unfoldable pub append_failure_audit :
      AuditAction → Option Uuid → RequestMetadata → Bytes → Instant → Action S AuthError (Unit {0})
  append_failure_audit action user_id metadata network_hash now = discard (
      ports.append_audit
        (audit_event action failure warning user_id none none metadata network_hash now))

  -- the new hash, if there is one, is stored for the old one
  unfoldable pub swap_for : User → Instant → Result ℕ PasswordHash → Action S AuthError (Unit {0})
  swap_for user now (err _) s = (ok tt, s)
  swap_for user now (ok replacement) s =
      discard (ports.swap_hash user.id user.password_hash replacement now) s

  unfoldable pub best_effort_rehash : Bytes → User → Instant → Action S AuthError (Unit {0})
  best_effort_rehash password user now s =
      let (r, s') = ports.hash_password password s in swap_for user now r s'

  abbrev pub bracket : Bracket S AuthError
  bracket = record { begin = ports.begin; commit = ports.commit; rollback = ports.rollback }

  unfoldable pub within_transaction : {A : Type 0} → Action S AuthError A → Action S AuthError A
  within_transaction body = bracketed bracket body
