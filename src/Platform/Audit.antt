-- ===== src/Platform/Audit.antt =====
-- backend/internal/platform/audit/audit.go: the records of the audit evidence. A nil reference is
-- `none`.
use ai_portfolio_research_as.Prelude.{
  ◌≡◌, ◌≢◌, arith, Bool, true, false, not, ◌||◌, Option, none, some, Result, ok, fail_if,
}
use ai_portfolio_research_as.Prelude.Time.{Instant, is_zero_time}
use ai_portfolio_research_as.Text.{Bytes}
use ai_portfolio_research_as.Transaction.Value.{Uuid, is_zero}
use ai_portfolio_research_as.Platform.Outbox.{matches_correlation_id}

pub data AuditError : Type 0 where
  invalid_record : AuditError

-- `unknown_action` is any text that is none of the ten constants.
pub data Action : Type 0 where
  create_success create_failure idempotent_replay idempotency_conflict : Action
  correction_initiated correction_completed correction_rejected : Action
  reversal_created replacement_created ownership_rejection unknown_action : Action

pub data AuditResult : Type 0 where
  success failure unknown_result : AuditResult

pub data Severity : Type 0 where
  info warning high unknown_severity : Severity

-- `Record`, a word of the language here
pub record AuditRecord : Type 0 where
  pub event_id : Uuid
  pub occurred_at : Instant
  pub action : Action
  pub result : AuditResult
  pub severity : Severity
  pub actor_user_id : Option Uuid
  pub correlation_id : Bytes
  pub portfolio_id : Option Uuid
  pub transaction_id : Option Uuid
  pub correction_id : Option Uuid

unfoldable pub allowed_action : Action → Bool
allowed_action unknown_action = false
allowed_action _ = true

unfoldable pub allowed_result : AuditResult → Bool
allowed_result success = true
allowed_result failure = true
allowed_result unknown_result = false

abbrev pub is_success : AuditResult → Bool
is_success success = true
is_success _ = false

abbrev pub is_failure : AuditResult → Bool
is_failure failure = true
is_failure _ = false

unfoldable pub allowed_action_result : Action → AuditResult → Bool
allowed_action_result create_success result = is_success result
allowed_action_result idempotent_replay result = is_success result
allowed_action_result correction_initiated result = is_success result
allowed_action_result correction_completed result = is_success result
allowed_action_result reversal_created result = is_success result
allowed_action_result replacement_created result = is_success result
allowed_action_result create_failure result = is_failure result
allowed_action_result idempotency_conflict result = is_failure result
allowed_action_result correction_rejected result = is_failure result
allowed_action_result ownership_rejection result = is_failure result
allowed_action_result unknown_action result = false

unfoldable pub allowed_severity : Severity → Bool
allowed_severity unknown_severity = false
allowed_severity _ = true

-- a reference that is there and zero
abbrev pub is_zero_reference : Option Uuid → Bool
is_zero_reference none = false
is_zero_reference (some id) = is_zero id

unfoldable pub validate_record : AuditRecord → Result AuditError (Unit {0})
validate_record r =
    fail_if
      (is_zero r.event_id
        || is_zero_time r.occurred_at
        || not (allowed_action r.action)
        || not (allowed_result r.result)
        || not (allowed_action_result r.action r.result)
        || not (allowed_severity r.severity)
        || not (matches_correlation_id r.correlation_id)
        || is_zero_reference r.actor_user_id
        || is_zero_reference r.portfolio_id
        || is_zero_reference r.transaction_id
        || is_zero_reference r.correction_id)
      invalid_record

-- the result that each action has
unfoldable pub result_of : Action → AuditResult
result_of create_failure = failure
result_of idempotency_conflict = failure
result_of correction_rejected = failure
result_of ownership_rejection = failure
result_of unknown_action = unknown_result
result_of _ = success

action_result :
    (action : Action) (result : AuditResult)
    → allowed_action_result action result ≡ true
    → result ≡ result_of action
unfolding allowed_action_result result_of
action_result action result h = ground arith

known_action : (action : Action) → allowed_action action ≡ true → action ≢ unknown_action
unfolding allowed_action
known_action action h = ground arith

known_severity : (s : Severity) → allowed_severity s ≡ true → s ≢ unknown_severity
unfolding allowed_severity
known_severity s h = ground arith

record_facts :
    (r : AuditRecord)
    → validate_record r ≡ ok tt
    → (r.event_id ≢ 0)
      × (allowed_action r.action ≡ true)
      × (allowed_action_result r.action r.result ≡ true)
      × (allowed_severity r.severity ≡ true)
      × (matches_correlation_id r.correlation_id ≡ true)
      × (r.actor_user_id ≢ some 0)
      × (r.portfolio_id ≢ some 0)
      × (r.transaction_id ≢ some 0)
      × (r.correction_id ≢ some 0)
unfolding validate_record
record_facts r h = ground arith

-- A record that Validate accepts has a nonzero identifier, a known action with the one result of
-- that action, a known severity, and no reference that is there and zero.
pub validate_record_lem :
    (r : AuditRecord)
    → validate_record r ≡ ok tt
    → (r.event_id ≢ 0)
      × (r.action ≢ unknown_action)
      × (r.result ≡ result_of r.action)
      × (r.severity ≢ unknown_severity)
      × (r.actor_user_id ≢ some 0)
      × (r.portfolio_id ≢ some 0)
      × (r.transaction_id ≢ some 0)
      × (r.correction_id ≢ some 0)
validate_record_lem r h =
    let (id, action, result, severity, _, actor, portfolio, transaction, correction) =
      record_facts r h in
    (
      id,
      known_action r.action action,
      action_result r.action r.result result,
      known_severity r.severity severity,
      actor,
      portfolio,
      transaction,
      correction,
    )
