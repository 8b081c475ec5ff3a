-- ===== src/Identity/Session.antt =====
-- backend/internal/identity/domain/refresh_session.go: the life of a refresh token.
pub mod Operations
pub mod Lifecycle
pub mod Rotation
pub mod Revocation
use ai_portfolio_research_as.Prelude.{
  ℕ, Bool, true, false, not, ◌&&◌, ◌||◌, [], Option, none, some, ok, err, ◌>>=◌, ◌>>◌, fail_if, ltb,
  ◌==◌, length, if◌then◌else◌,
}
use ai_portfolio_research_as.Prelude.Time.{Instant, zero_time, is_zero_time, after, before}
use ai_portfolio_research_as.Text.{Bytes, codes, is_empty, equal}
use ai_portfolio_research_as.Text.Blank.{is_blank}
use ai_portfolio_research_as.Transaction.Value.{Uuid, is_zero}
use ai_portfolio_research_as.Identity.Credential.{TokenDigest, digest_is_zero}
use ai_portfolio_research_as.Identity.Errors.{
  IdentityError, IdentityOutcome, invalid_session_state, invalid_refresh_session, session_inactive,
  session_replaced, session_revoked, session_expired, invalid_replacement, invalid_revocation,
}

-- `other` is any text that is none of the four constants.
pub data RefreshSessionState : Type 0 where
  active replaced revoked expired other : RefreshSessionState

unfoldable pub session_state_of_text : Bytes → RefreshSessionState
session_state_of_text value =
    if equal value (codes "active")
    then active
    else if equal value (codes "replaced")
    then replaced
    else if equal value (codes "revoked")
    then revoked
    else if equal value (codes "expired")
    then expired
    else other

-- `ParseRefreshSessionState`
unfoldable pub check_session_state : RefreshSessionState → IdentityOutcome RefreshSessionState
check_session_state other = err invalid_session_state
check_session_state state = ok state

pub record RefreshSessionData : Type 0 where
  pub id : Uuid
  pub family_id : Uuid
  pub user_id : Uuid
  pub token_digest : TokenDigest
  pub state : RefreshSessionState
  pub replacement_id : Option Uuid
  pub created_at : Instant
  pub replaced_at : Option Instant
  pub idle_expires_at : Instant
  pub absolute_expires_at : Instant
  pub revoked_at : Option Instant
  pub revocation_reason : Bytes
  pub network_identity_hash : Bytes
  pub user_agent : Bytes

pub record RefreshSession : Type 0 where
  pub id : Uuid
  pub family_id : Uuid
  pub user_id : Uuid
  pub token_digest : TokenDigest
  pub state : RefreshSessionState
  pub replacement_id : Uuid
  pub has_replacement_id : Bool
  pub created_at : Instant
  pub replaced_at : Instant
  pub has_replaced_at : Bool
  pub idle_expires_at : Instant
  pub absolute_expires_at : Instant
  pub revoked_at : Instant
  pub has_revoked_at : Bool
  pub revocation_reason : Bytes
  pub network_identity_hash : Bytes
  pub user_agent : Bytes

abbrev pub present {ℓ} : {A : Type ℓ} → Option A → Bool
present none = false
present (some _) = true

abbrev pub value_or {ℓ} : {A : Type ℓ} → A → Option A → A
value_or a none = a
value_or a (some b) = b

-- a test of the value behind a pointer that is not nil
abbrev pub holds {ℓ} : {A : Type ℓ} → (A → Bool) → Option A → Bool
holds p none = false
holds p (some a) = p a

abbrev pub differ : Bool → Bool → Bool
differ true b = not b
differ false b = b

-- the `switch` of `validateLifecycle`
unfoldable pub state_disagrees : RefreshSessionState → Bool → Bool → Bool
state_disagrees active has_replacement has_revocation = has_replacement || has_revocation
state_disagrees expired has_replacement has_revocation = has_replacement || has_revocation
state_disagrees replaced has_replacement has_revocation = not has_replacement || has_revocation
state_disagrees revoked has_replacement has_revocation = not has_revocation
state_disagrees other has_replacement has_revocation = false

unfoldable pub validate_lifecycle : RefreshSessionData → IdentityOutcome (Unit {0})
validate_lifecycle fields = do
  fail_if (holds is_zero fields.replacement_id) invalid_replacement
  fail_if (holds (λ r. r == fields.id) fields.replacement_id) invalid_replacement
  fail_if (differ (present fields.replacement_id) (present fields.replaced_at))
      invalid_refresh_session
  fail_if (holds (λ t. before t fields.created_at) fields.replaced_at) invalid_refresh_session
  fail_if (differ (not (present fields.revoked_at)) (is_empty fields.revocation_reason))
      invalid_revocation
  fail_if
      (holds
        (λ t.
          before t fields.created_at
          || is_blank fields.revocation_reason
          || ltb 128 (length fields.revocation_reason))
        fields.revoked_at)
      invalid_revocation
  fail_if
      (state_disagrees fields.state (present fields.replacement_id || present fields.replaced_at)
        (present fields.revoked_at || not (is_empty fields.revocation_reason)))
      invalid_refresh_session

-- The session with the fields of the data, an absent one as the zero value.
unfoldable pub session_of : RefreshSessionData → RefreshSession
session_of fields = record {
  id = fields.id;
  family_id = fields.family_id;
  user_id = fields.user_id;
  token_digest = fields.token_digest;
  state = fields.state;
  replacement_id = value_or 0 fields.replacement_id;
  has_replacement_id = present fields.replacement_id;
  created_at = fields.created_at;
  replaced_at = value_or zero_time fields.replaced_at;
  has_replaced_at = present fields.replaced_at;
  idle_expires_at = fields.idle_expires_at;
  absolute_expires_at = fields.absolute_expires_at;
  revoked_at = value_or zero_time fields.revoked_at;
  has_revoked_at = present fields.revoked_at;
  revocation_reason = fields.revocation_reason;
  network_identity_hash = fields.network_identity_hash;
  user_agent = fields.user_agent;
}

unfoldable pub bad_identity : RefreshSessionData → Bool
bad_identity fields =
    is_zero fields.id
    || is_zero fields.family_id
    || is_zero fields.user_id
    || digest_is_zero fields.token_digest

unfoldable pub bad_times : RefreshSessionData → Bool
bad_times fields =
    is_zero_time fields.created_at
    || not (after fields.idle_expires_at fields.created_at)
    || not (after fields.absolute_expires_at fields.created_at)
    || after fields.idle_expires_at fields.absolute_expires_at

unfoldable pub bad_client : RefreshSessionData → Bool
bad_client fields =
    ltb 128 (length fields.network_identity_hash)
    || ltb 512 (length fields.user_agent)
    || (not (is_empty fields.network_identity_hash) && is_blank fields.network_identity_hash)
    || (not (is_empty fields.user_agent) && is_blank fields.user_agent)

unfoldable pub new_refresh_session : RefreshSessionData → IdentityOutcome RefreshSession
new_refresh_session fields = do
  fail_if (bad_identity fields) invalid_refresh_session
  _ ← check_session_state fields.state
  fail_if (bad_times fields) invalid_refresh_session
  fail_if (bad_client fields) invalid_refresh_session
  validate_lifecycle fields
  ok (session_of fields)
