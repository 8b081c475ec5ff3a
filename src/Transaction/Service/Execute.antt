-- ===== src/Transaction/Service/Execute.antt =====
-- `execute`, `Create` and `Correct` of backend/internal/transaction/application/service.go, and
-- `Get` of history.go, over the ports; `WithinTransaction` of
-- backend/internal/transaction/infrastructure/database/transactor.go.
use ai_portfolio_research_as.Prelude.{
  ℕ, Bool, true, false, not, ◌&&◌, Option, none, some, Result, ok, err, fail_if, ◌==◌,
  if◌then◌else◌,
}
use ai_portfolio_research_as.Prelude.Time.{Instant}
use ai_portfolio_research_as.Prelude.Transactions.{Bracket, bracketed}
use ai_portfolio_research_as.Prelude.Actions.{Action, lift, pure, reads, rename_error, ◌>>=◌, ◌>>◌}
use ai_portfolio_research_as.Text.{Bytes}
use ai_portfolio_research_as.Platform.Audit.{idempotent_replay}
use ai_portfolio_research_as.Platform.Outbox.{matches_correlation_id}
use ai_portfolio_research_as.Portfolio.Record.{Portfolio, is_archived}
use ai_portfolio_research_as.Transaction.Value.{Uuid, is_zero}
use ai_portfolio_research_as.Transaction.Fact.{Transaction}
use ai_portfolio_research_as.Transaction.Correction.{Correction}
use ai_portfolio_research_as.Transaction.Service.{
  ServiceError, CommandInput, CommandMetadata, matches_key, normalize, unauthenticated,
  transaction_not_found, portfolio_is_archived, invalid_input, invalid_idempotency_key,
  idempotency_conflict, persistence, domain_failure,
}
use ai_portfolio_research_as.Transaction.Service.Ports.{Ports, Recorded, Idempotency}
use ai_portfolio_research_as.Transaction.Service.Evidence.{service_now, append_audit_to}
use ai_portfolio_research_as.Transaction.Service.Guards.{
  is_rejection, rejection_action, scope_of, owned, resolve_command, earlier_correction,
}
use ai_portfolio_research_as.Transaction.Service.Record.{record_fact, record_correction}

-- The error of `execute`: one that cannot be recorded is `persistence`.
unfoldable pub rejected :
    {S : Type 0}
    → ServiceError
    → Result ServiceError (Unit {0}) × S
    → Result ServiceError Recorded × S
rejected e (ok _, s) = (err e, s)
rejected e (err _, s) = (err persistence, s)

module _ {S : Type 0} (ports : Ports S) where
  -- a key that was used before: its result is read again
  unfoldable pub replay_result :
      Uuid → Uuid → Bytes → ℕ → Idempotency → Action S ServiceError Recorded
  replay_result principal portfolio_id correlation digest previous = do
    lift (fail_if (not (previous.fingerprint == digest)) idempotency_conflict)
    fact ← reads (ports.get portfolio_id previous.primary_id)
    facts ← reads (earlier_correction ports portfolio_id previous.correction_id)
    append_audit_to ports ports.append_audit principal portfolio_id fact.state.id
        previous.correction_id correlation idempotent_replay true
    pure (record { transaction = fact; correction = facts })

  -- a key that is new: the command is recorded, and the key completed
  unfoldable pub record_command :
      Uuid
      → Portfolio
      → Uuid
      → Uuid
      → CommandInput
      → CommandMetadata
      → Bool
      → ℕ
      → Instant
      → Action S ServiceError Recorded
  record_command principal p portfolio_id target input metadata correction digest now = do
    lift (fail_if (is_archived p) portfolio_is_archived)
    command ← resolve_command ports principal input now
    sequences ← ports.allocate portfolio_id correction
    created_at ← service_now ports
    result ←
        (if correction
          then record_correction ports principal portfolio_id target metadata.correlation_id command
              sequences.0 sequences.1 created_at
          else record_fact ports principal portfolio_id metadata.correlation_id command sequences.0
              created_at)
    completed_at ← service_now ports
    ports.complete portfolio_id (scope_of correction) metadata.idempotency_key digest target result
        completed_at
    pure result

  unfoldable pub replay_or_record :
      Uuid
      → Portfolio
      → Uuid
      → Uuid
      → CommandInput
      → CommandMetadata
      → Bool
      → ℕ
      → Instant
      → Option Idempotency
      → Action S ServiceError Recorded
  replay_or_record principal p portfolio_id target input metadata correction digest now none =
      record_command principal p portfolio_id target input metadata correction digest now
  replay_or_record principal p portfolio_id target input metadata correction digest now
        (some previous) =
      replay_result principal portfolio_id metadata.correlation_id digest previous

  -- the function that `execute` runs within a transaction
  unfoldable pub execute_within :
      Uuid → Uuid → Uuid → CommandInput → CommandMetadata → Bool → Action S ServiceError Recorded
  execute_within principal portfolio_id target input metadata correction = do
    p ← reads (owned ports principal portfolio_id)
    lift (fail_if (correction && is_zero target) transaction_not_found)
    lift (fail_if (not (matches_key metadata.idempotency_key)) invalid_idempotency_key)
    now ← service_now ports
    normalized ← lift (rename_error domain_failure (normalize input now))
    reads (ports.lock_key portfolio_id (scope_of correction) metadata.idempotency_key)
    at ← service_now ports
    previous ← ports.idempotency portfolio_id (scope_of correction) metadata.idempotency_key at
    replay_or_record principal p portfolio_id target normalized metadata correction
        (ports.digest (scope_of correction) target normalized) now previous

  abbrev pub bracket : Bracket S ServiceError
  bracket = record { begin = ports.begin; commit = ports.commit; rollback = ports.rollback }

  unfoldable pub within_transaction :
      {A : Type 0} → Action S ServiceError A → Action S ServiceError A
  within_transaction body = bracketed bracket body

  -- the record of a rejection, appended after the rollback
  unfoldable pub append_rejection_of :
      Uuid → Uuid → Uuid → Bytes → Bool → ServiceError → Action S ServiceError (Unit {0})
  append_rejection_of principal portfolio_id target correlation correction e =
      append_audit_to ports ports.append_rejection principal portfolio_id target 0 correlation
        (rejection_action correction e) false

  unfoldable pub report :
      Uuid
      → Uuid
      → Uuid
      → Bytes
      → Bool
      → Result ServiceError Recorded × S
      → Result ServiceError Recorded × S
  report principal portfolio_id target correlation correction (ok result, s) = (ok result, s)
  report principal portfolio_id target correlation correction (err e, s) =
      let recorded =
        rejected e (append_rejection_of principal portfolio_id target correlation correction e s) in
      if is_rejection e then recorded else (err e, s)

  unfoldable pub execute :
      Uuid → Uuid → Uuid → CommandInput → CommandMetadata → Bool → Action S ServiceError Recorded
  execute principal portfolio_id target input metadata correction s =
      if is_zero principal
      then (err unauthenticated, s)
      else if not (matches_correlation_id metadata.correlation_id)
      then (err invalid_input, s)
      else report principal portfolio_id target metadata.correlation_id correction (
          within_transaction
            (execute_within principal portfolio_id target input metadata correction) s)

  unfoldable pub create :
      Uuid → Uuid → CommandInput → CommandMetadata → Action S ServiceError Recorded
  create principal portfolio_id input metadata =
      execute principal portfolio_id 0 input metadata false

  unfoldable pub correct :
      Uuid → Uuid → Uuid → CommandInput → CommandMetadata → Action S ServiceError Recorded
  correct principal portfolio_id original replacement metadata =
      execute principal portfolio_id original replacement metadata true

  unfoldable pub get_within :
      Uuid → Uuid → Uuid → Action S ServiceError (Transaction × Option Correction)
  get_within principal portfolio_id id = do
    _ ← reads (owned ports principal portfolio_id)
    lift (fail_if (is_zero id) transaction_not_found)
    fact ← reads (ports.get portfolio_id id)
    direct ← reads (ports.direct_correction portfolio_id id)
    pure (fact, direct)

  -- `Get` of history.go
  unfoldable pub get : Uuid → Uuid → Uuid → Action S ServiceError (Transaction × Option Correction)
  get principal portfolio_id id = within_transaction (get_within principal portfolio_id id)
