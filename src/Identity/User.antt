-- ===== src/Identity/User.antt =====
-- backend/internal/identity/domain/user.go and principal.go. The normalized email is a text, empty
-- in the zero value.
use ai_portfolio_research_as.Prelude.{
  ◌≡◌, ◌≢◌, ◌≤◌, arith, Bool, true, false, ◌||◌, Option, none, some, ok, err, ◌>>=◌, ◌>>◌, fail_if,
  if◌then◌else◌,
}
use ai_portfolio_research_as.Prelude.Time.{Instant, zero_time, is_zero_time, before}
use ai_portfolio_research_as.Text.{Bytes, codes, is_empty, equal}
use ai_portfolio_research_as.Transaction.Value.{Uuid, is_zero}
use ai_portfolio_research_as.Identity.Credential.{PasswordHash, hash_is_zero}
use ai_portfolio_research_as.Identity.Errors.{
  IdentityOutcome, invalid_account_status, invalid_user, unauthenticated,
}

-- `unknown_status` is any text that is neither constant.
pub data AccountStatus : Type 0 where
  enabled disabled unknown_status : AccountStatus

unfoldable pub account_status_of_text : Bytes → AccountStatus
account_status_of_text value =
    if equal value (codes "active")
    then enabled
    else if equal value (codes "disabled")
    then disabled
    else unknown_status

-- `ParseAccountStatus`
abbrev pub check_account_status : AccountStatus → IdentityOutcome AccountStatus
check_account_status unknown_status = err invalid_account_status
check_account_status status = ok status

pub record User : Type 0 where
  pub id : Uuid
  pub email : Bytes
  pub password_hash : PasswordHash
  pub status : AccountStatus
  pub created_at : Instant
  pub updated_at : Instant
  pub disabled_at : Instant
  pub has_disabled_at : Bool

-- the two tests of the time of disabling
unfoldable pub bad_disabling : AccountStatus → Option Instant → Instant → Bool
bad_disabling enabled none created_at = false
bad_disabling enabled (some _) created_at = true
bad_disabling disabled none created_at = true
bad_disabling disabled (some t) created_at = before t created_at
bad_disabling unknown_status t created_at = false

abbrev disabling_time : Option Instant → Instant
disabling_time none = zero_time
disabling_time (some t) = t

abbrev disabling_given : Option Instant → Bool
disabling_given none = false
disabling_given (some _) = true

unfoldable pub new_user :
    Uuid
    → Bytes
    → PasswordHash
    → AccountStatus
    → Instant
    → Instant
    → Option Instant
    → IdentityOutcome User
new_user id email password_hash status created_at updated_at disabled_at = do
  fail_if
      (is_zero id
        || is_empty email
        || hash_is_zero password_hash
        || is_zero_time created_at
        || before updated_at created_at)
      invalid_user
  _ ← check_account_status status
  fail_if (bad_disabling status disabled_at created_at) invalid_user
  ok (record {
    id = id;
    email = email;
    password_hash = password_hash;
    status = status;
    created_at = created_at;
    updated_at = updated_at;
    disabled_at = disabling_time disabled_at;
    has_disabled_at = disabling_given disabled_at;
  })

unfoldable pub new_active_user : Uuid → Bytes → PasswordHash → Instant → IdentityOutcome User
new_active_user id email password_hash created_at =
    new_user id email password_hash enabled created_at created_at none

-- `NewPrincipal`, on the identifier of the user
abbrev pub new_principal : Uuid → IdentityOutcome Uuid
new_principal user_id = if is_zero user_id then err unauthenticated else ok user_id

-- The invariant of a user.
record IsUser (u : User) : Type 0 where
  identified : u.id ≢ 0
  addressed : is_empty u.email ≡ false
  hashed : is_empty u.password_hash.encoded ≡ false
  known : u.status ≢ unknown_status
  in_order : u.created_at ≤ u.updated_at
  open_while_active : u.status ≡ enabled → u.has_disabled_at ≡ false
  closed_when_disabled :
      u.status ≡ disabled → (u.has_disabled_at ≡ true) × (u.created_at ≤ u.disabled_at)

-- A user that NewUser makes is identified, has an email and a password hash, was not updated
-- before its creation, and has a disabling time, not before its creation, exactly in the disabled
-- state.
new_user-IsUser :
    (id : Uuid) (email : Bytes) (hash : PasswordHash) (status : AccountStatus)
    (created_at updated_at : Instant) (disabled_at : Option Instant) (u : User)
    → new_user id email hash status created_at updated_at disabled_at ≡ ok u
    → IsUser u
unfolding new_user bad_disabling
new_user-IsUser id email hash status created_at updated_at disabled_at u h = ground arith
