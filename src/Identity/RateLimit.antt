-- ===== src/Identity/RateLimit.antt =====
-- backend/internal/identity/infrastructure/ratelimit/postgres.go, with the keys of
-- backend/internal/identity/application/security.go. The table of events is a port.
pub mod Bounded
use ai_portfolio_research_as.Prelude.{
  ℕ, ◌+◌, ◌-◌, Bool, true, false, not, ◌||◌, List, [], ◌∷◌, Result, ok, err, fail_if, leb, length,
  ◌==◌, if◌then◌else◌,
}
use ai_portfolio_research_as.Prelude.Int.{ℤ, pos, ◌-ℤ◌, ltb_ℤ}
use ai_portfolio_research_as.Prelude.Time.{Instant, is_zero_time}
use ai_portfolio_research_as.Prelude.Actions.{Action, lift, pure, reads, rename_error, ◌>>=◌, ◌>>◌}
use ai_portfolio_research_as.Prelude.Transactions.{Bracket, bracketed}
use ai_portfolio_research_as.Text.{Bytes}
use ai_portfolio_research_as.Identity.Service.{
  RateLimitPolicy, login_email_failure, login_ip_attempt, registration_ip_attempt,
  refresh_family_attempt, RateLimitResult,
}

-- an error of the store: of its context, or any other with its number
pub data StoreError : Type 0 where
  context_done : StoreError
  failed : ℕ → StoreError

pub data LimitError : Type 0 where
  invalid_key interrupted unavailable : LimitError

pub record RateLimitKey : Type 0 where
  pub value : Bytes
  pub valid : Bool

unfoldable pub new_rate_limit_key : Bytes → Result LimitError RateLimitKey
new_rate_limit_key value =
    if not (length value == 32)
    then err invalid_key
    else ok (record { value = value; valid = true })

abbrev pub key_is_zero : RateLimitKey → Bool
key_is_zero key = not key.valid

-- `policyDefinitions`: the limit, and the window in nanoseconds. A policy that is not in it, which
-- `Check` refuses as an invalid key, is not among the constructors.
unfoldable pub limit_of_policy : RateLimitPolicy → ℕ
limit_of_policy login_email_failure = 5
limit_of_policy login_ip_attempt = 30
limit_of_policy registration_ip_attempt = 5
limit_of_policy refresh_family_attempt = 20

unfoldable pub window_of_policy : RateLimitPolicy → ℕ
window_of_policy login_email_failure = 900000000000
window_of_policy login_ip_attempt = 900000000000
window_of_policy registration_ip_attempt = 3600000000000
window_of_policy refresh_family_attempt = 900000000000

pub record LimitEvent : Type 0 where
  pub policy : RateLimitPolicy
  pub derived_key : Bytes
  pub occurred_at : Instant
  pub expires_at : Instant

-- The operations on the table, under the version of the policies. `lock` takes the advisory lock.
pub record EventPorts (S : Type 0) : Type 0 where
  pub lock : RateLimitPolicy → Bytes → S → Result StoreError (Unit {0})
  pub delete_expired : RateLimitPolicy → Bytes → Instant → Action S StoreError (Unit {0})
  pub count_active : RateLimitPolicy → Bytes → Instant → S → Result StoreError ℕ
  pub earliest_expiry : RateLimitPolicy → Bytes → Instant → S → Result StoreError Instant
  pub insert : LimitEvent → Action S StoreError (Unit {0})
  pub clear_failures : Bytes → Action S StoreError (Unit {0})
  pub cleanup : Instant → Action S StoreError ℕ
  pub bracket : Bracket S StoreError

unfoldable pub safe_store_error : StoreError → LimitError
safe_store_error context_done = interrupted
safe_store_error (failed _) = unavailable

abbrev pub max_duration : ℤ → ℤ → ℤ
max_duration left right = if ltb_ℤ right left then left else right

-- an error of the store, as it is reported
abbrev pub safely : {S A : Type 0} → Action S StoreError A → Action S LimitError A
safely call s = let (r, s') = call s in (rename_error safe_store_error r, s')

unfoldable pub event_of : RateLimitPolicy → Bytes → Instant → LimitEvent
event_of policy key now = record {
  policy = policy;
  derived_key = key;
  occurred_at = now;
  expires_at = now + window_of_policy policy;
}

module _ {S : Type 0} (ports : EventPorts S) where
  -- the refusal, until the earliest of the events expires
  unfoldable pub refuse_attempt :
      RateLimitPolicy → Bytes → Instant → Action S StoreError RateLimitResult
  refuse_attempt policy key now = do
    earliest ← reads (ports.earliest_expiry policy key now)
    pure (record {
      allowed = false;
      remaining = pos 0;
      retry_after = max_duration (pos earliest -ℤ pos now) (pos 1000000000);
    })

  unfoldable pub allow_attempt :
      RateLimitPolicy → Bytes → Instant → ℕ → Action S StoreError RateLimitResult
  allow_attempt policy key now count = do
    ports.insert (event_of policy key now)
    pure (record {
      allowed = true;
      remaining = pos (limit_of_policy policy - count - 1);
      retry_after = pos 0;
    })

  unfoldable pub check_within :
      RateLimitPolicy → Bytes → Instant → Action S StoreError RateLimitResult
  check_within policy key now = do
    reads (ports.lock policy key)
    ports.delete_expired policy key now
    count ← reads (ports.count_active policy key now)
    (if leb (limit_of_policy policy) count
        then refuse_attempt policy key now
        else allow_attempt policy key now count)

  unfoldable pub check :
      RateLimitPolicy → RateLimitKey → Instant → Action S LimitError RateLimitResult
  check policy key now = do
    lift (fail_if (key_is_zero key || is_zero_time now) invalid_key)
    safely (bracketed ports.bracket (check_within policy key.value now))

  unfoldable pub reset_within : Bytes → Action S StoreError (Unit {0})
  reset_within key = do reads (ports.lock login_email_failure key); ports.clear_failures key

  unfoldable pub reset_login_email_failures : RateLimitKey → Action S LimitError (Unit {0})
  reset_login_email_failures key = do
    lift (fail_if (key_is_zero key) invalid_key)
    safely (bracketed ports.bracket (reset_within key.value))

  unfoldable pub cleanup_expired : Instant → Action S LimitError ℕ
  cleanup_expired now = do lift (fail_if (is_zero_time now) unavailable); safely (ports.cleanup now)
