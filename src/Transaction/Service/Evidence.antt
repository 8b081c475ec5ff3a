-- ===== src/Transaction/Service/Evidence.antt =====
-- `now`, `newTransactionID`, `appendAudit` and `appendEvent` of
-- backend/internal/transaction/application/service.go.
use ai_portfolio_research_as.Prelude.{
  ℕ, ◌-◌, ◌%◌, Bool, List, Option, none, some, ok, if◌then◌else◌,
}
use ai_portfolio_research_as.Prelude.Int.{pos}
use ai_portfolio_research_as.Prelude.Time.{Instant, utc}
use ai_portfolio_research_as.Prelude.Actions.{Action, lift, rename_error, ◌>>=◌}
use ai_portfolio_research_as.Text.{Bytes, codes}
use ai_portfolio_research_as.Platform.Audit.{
  AuditRecord, Action as AuditAction, success, failure, info, warning,
}
use ai_portfolio_research_as.Platform.Outbox.{Event, Reference}
use ai_portfolio_research_as.Transaction.Value.{Uuid, is_zero, new_transaction_id}
use ai_portfolio_research_as.Transaction.Service.{ServiceError, persistence, domain_failure}
use ai_portfolio_research_as.Transaction.Service.Ports.{Ports}

-- a zero identifier as a nil pointer
abbrev pub optional_id : Uuid → Option Uuid
optional_id id = if is_zero id then none else some id

-- the record of `appendAudit`
unfoldable pub audit_record :
    Uuid → Instant → Uuid → Uuid → Uuid → Uuid → Bytes → AuditAction → Bool → AuditRecord
audit_record event_id at principal portfolio_id transaction_id correction_id correlation action
      succeeded =
    record {
      event_id = event_id;
      occurred_at = at;
      action = action;
      result = if succeeded then success else failure;
      severity = if succeeded then info else warning;
      actor_user_id = some principal;
      correlation_id = correlation;
      portfolio_id = optional_id portfolio_id;
      transaction_id = optional_id transaction_id;
      correction_id = optional_id correction_id;
    }

-- the event of `appendEvent`
unfoldable pub service_event : Uuid → Instant → Uuid → Bytes → Bytes → List Reference → Event
service_event id at portfolio_id correlation event_type references = record {
  id = id;
  event_type = event_type;
  version = pos 1;
  aggregate_type = codes "portfolio";
  aggregate_id = portfolio_id;
  portfolio_id = portfolio_id;
  occurred_at = at;
  correlation_id = correlation;
  payload = record { schema_version = pos 1; references = references };
  next_attempt_at = at;
}

-- `Truncate(time.Microsecond)`
abbrev pub truncate : Instant → Instant
truncate t = t - t % 1000

-- a failure of a port as `ErrPersistence`
abbrev pub or_persistence : {S A : Type 0} → Action S ℕ A → Action S ServiceError A
or_persistence call s = let (r, s') = call s in (rename_error (λ _. persistence) r, s')

module _ {S : Type 0} (ports : Ports S) where
  unfoldable pub service_now : Action S ServiceError Instant
  service_now s = let (t, s') = ports.now s in (ok (truncate (utc t)), s')

  unfoldable pub next_id : Action S ServiceError Uuid
  next_id = or_persistence ports.new_id

  unfoldable pub next_transaction_id : Action S ServiceError Uuid
  next_transaction_id = next_id >>= λ id. lift (rename_error domain_failure (new_transaction_id id))

  -- `appendAudit`, into the store of the call
  unfoldable pub append_audit_to :
      (AuditRecord → Action S ℕ (Unit {0}))
      → Uuid
      → Uuid
      → Uuid
      → Uuid
      → Bytes
      → AuditAction
      → Bool
      → Action S ServiceError (Unit {0})
  append_audit_to store principal portfolio_id transaction_id correction_id correlation action
        succeeded =
      next_id >>= λ id. service_now >>= λ at. or_persistence (
        store (
          audit_record id at principal portfolio_id transaction_id correction_id correlation action
            succeeded))

  unfoldable pub append_event_for :
      Uuid → Bytes → Bytes → List Reference → Action S ServiceError (Unit {0})
  append_event_for portfolio_id correlation event_type references = next_id >>= λ id.
      service_now >>= λ at.
      or_persistence
        (ports.append_event (service_event id at portfolio_id correlation event_type references))
