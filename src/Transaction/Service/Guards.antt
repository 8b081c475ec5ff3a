-- ===== src/Transaction/Service/Guards.antt =====
-- `owned`, `isRejection` and the branches of `execute` that only read, of
-- backend/internal/transaction/application/service.go, and `resolveCommand` of command.go.
use ai_portfolio_research_as.Prelude.{
  Bool, true, false, not, ◌||◌, Option, none, some, Result, ok, err, ◌==◌, if◌then◌else◌,
}
use ai_portfolio_research_as.Prelude.Time.{Instant}
use ai_portfolio_research_as.Prelude.Actions.{Action, lift, reads, rename_error, ◌>>=◌}
use ai_portfolio_research_as.Text.{Bytes}
use ai_portfolio_research_as.Platform.Audit.{
  Action as AuditAction, create_failure, idempotency_conflict as conflict_recorded,
  correction_rejected, ownership_rejection,
}
use ai_portfolio_research_as.Platform.Outbox.{Reference}
use ai_portfolio_research_as.Portfolio.Record.{Portfolio}
use ai_portfolio_research_as.Transaction.Errors.{
  DomainError, invalid_transaction_kind, invalid_transaction_fields, invalid_currency,
  invalid_effective_at, asset_financially_ineligible, transaction_not_correctable,
  transaction_already_corrected, insufficient_ordered_quantity,
}
use ai_portfolio_research_as.Transaction.Value.{Uuid, is_zero, no_asset, AssetSnapshot}
use ai_portfolio_research_as.Transaction.Fact.{Transaction}
use ai_portfolio_research_as.Transaction.Command.{Command}
use ai_portfolio_research_as.Transaction.Correction.{CorrectionFacts}
use ai_portfolio_research_as.Transaction.Service.{
  ServiceError, CommandInput, command_of, context_of, snapshot_of, unauthenticated,
  portfolio_not_found, asset_not_found, idempotency_conflict, persistence, domain_failure, foreign,
}
use ai_portfolio_research_as.Transaction.Service.Ports.{
  Ports, Scope, create_scope, correct_scope, Recorded, ReadError, absent, unreadable,
}

-- the domain's errors among `isRejection`'s
unfoldable pub is_rejected_input : DomainError → Bool
is_rejected_input invalid_transaction_kind = true
is_rejected_input invalid_transaction_fields = true
is_rejected_input invalid_currency = true
is_rejected_input invalid_effective_at = true
is_rejected_input asset_financially_ineligible = true
is_rejected_input transaction_not_correctable = true
is_rejected_input transaction_already_corrected = true
is_rejected_input insufficient_ordered_quantity = true
is_rejected_input _ = false

-- `isRejection`
unfoldable pub is_rejection : ServiceError → Bool
is_rejection unauthenticated = false
is_rejection persistence = false
is_rejection (foreign _) = false
is_rejection (domain_failure e) = is_rejected_input e
is_rejection _ = true

-- the action of the record of a rejection
unfoldable pub rejection_action : Bool → ServiceError → AuditAction
rejection_action correction portfolio_not_found = ownership_rejection
rejection_action correction idempotency_conflict = conflict_recorded
rejection_action correction _ = if correction then correction_rejected else create_failure

abbrev pub read_error : ServiceError → ReadError → ServiceError
read_error missing absent = missing
read_error missing (unreadable e) = foreign e

abbrev pub scope_of : Bool → Scope
scope_of correction = if correction then correct_scope else create_scope

-- the reference of an event
abbrev pub reference : Bytes → Uuid → Reference
reference role id = record { role = role; id = id }

-- the answer of the portfolio's reader, as `owned` returns it
unfoldable pub owner_checked :
    Uuid → Uuid → Result ReadError Portfolio → Result ServiceError Portfolio
owner_checked principal id (err e) = err (read_error portfolio_not_found e)
owner_checked principal id (ok p) =
    if not (p.id == id) || not (p.owner_id == principal) then err portfolio_not_found else ok p

-- the facts and the correction that a command has recorded
abbrev pub created : Transaction → Recorded
created t = record { transaction = t; correction = none }

abbrev pub corrected : CorrectionFacts → Recorded
corrected facts = record { transaction = facts.replacement_fact; correction = some facts }

module _ {S : Type 0} (ports : Ports S) where
  unfoldable pub owned : Uuid → Uuid → S → Result ServiceError Portfolio
  owned principal id s =
      if is_zero principal
      then err unauthenticated
      else if is_zero id
      then err portfolio_not_found
      else owner_checked principal id (ports.get_portfolio principal id s)

  -- the first `if` of `resolveCommand`
  unfoldable pub resolve_asset : Uuid → CommandInput → S → Result ServiceError AssetSnapshot
  resolve_asset principal input s =
      let found =
        rename_error (read_error asset_not_found) (ports.get_asset principal input.asset_id s) in
      let resolved : Result ServiceError AssetSnapshot = elim found [
        | err e ↦ err e
        | ok item ↦ snapshot_of input item
      ] in
      if is_zero input.asset_id then ok no_asset else resolved

  unfoldable pub resolve_command : Uuid → CommandInput → Instant → Action S ServiceError Command
  resolve_command principal input now = do
    snapshot ← reads (resolve_asset principal input)
    lift (rename_error domain_failure (command_of input.kind input snapshot (context_of input now)))

  -- the correction of an earlier call, if it made one
  unfoldable pub earlier_correction : Uuid → Uuid → S → Result ServiceError (Option CorrectionFacts)
  earlier_correction portfolio_id id s =
      let found = ports.find_correction portfolio_id id s in
      if is_zero id then ok none else elim found [ ok facts ↦ ok (some facts) | err e ↦ err e ]
