-- ===== src/Tests/Service.antt =====
-- Runs of backend/internal/transaction/application/service.go over the store in memory.
use mathlib.Core.List.Perm
use ai_portfolio_research_as.Prelude.{
  ◌≡◌, ◌≢◌, refl, arith, ℕ, Bool, true, false, List, [], ◌∷◌, ◌++◌, Option, none, some, Result, ok,
  err, inl, inr, is_ok, All, arith,
}
use ai_portfolio_research_as.Prelude.Int.{ℤ, pos}
use ai_portfolio_research_as.Text.{codes}
use ai_portfolio_research_as.Portfolio.Record.{Portfolio}
use ai_portfolio_research_as.Transaction.Decimal.{no_decimal}
use ai_portfolio_research_as.Transaction.Kind.{buy, sell}
use ai_portfolio_research_as.Transaction.Value.{Uuid, currency_usd, no_text}
use ai_portfolio_research_as.Transaction.Fact.{Transaction}
use ai_portfolio_research_as.Transaction.Replay.Ledger.{replay_ledger_iff}
use ai_portfolio_research_as.Transaction.Correction.{Correction}
use ai_portfolio_research_as.Transaction.Service.{
  overdrawn, ServiceError, CommandInput, CommandMetadata,
}
use ai_portfolio_research_as.Transaction.Service.Guards.{created}
use ai_portfolio_research_as.Transaction.Replay.{LedgerViolation, replay_ledger}
use ai_portfolio_research_as.Transaction.Decimal.Arithmetic.{
  IsCanonical, decimal_from_scaled-IsCanonical,
}
use ai_portfolio_research_as.Transaction.Service.Ports.{Recorded, Idempotency, create_scope}
use ai_portfolio_research_as.Transaction.Service.Execute.{execute, get}
use ai_portfolio_research_as.Transaction.Service.Inputs.{IsGivenQuantity}
use ai_portfolio_research_as.Transaction.Service.Consistency.{LedgerStep, IsConsistent}
use ai_portfolio_research_as.Transaction.Service.Atomicity.{execute-atomic}
use ai_portfolio_research_as.Transaction.Service.Invariant.{
  Request, after_create, after_creates, create-LedgerStep, creates-IsConsistent,
}
use ai_portfolio_research_as.Transaction.Service.Authority.{Owns, execute-Owns, get-Owns}
use ai_portfolio_research_as.Transaction.Service.Repeated.{Replays, execute-repeated}
use ai_portfolio_research_as.Tests.Data.{bought, ten, price, no_fee, monday, tuesday, decimal}
use ai_portfolio_research_as.Tests.Memory.{
  Memory, memory_ports, memory_rows, memory-IsLawful, rows_of, memory_keys, memory-IsKeyStore,
}

abbrev empty_store : Memory
empty_store = record { facts = []; clock = tuesday; next = 21; keys = [] }

abbrev full_store : Memory
full_store = record { facts = bought ∷ []; clock = tuesday; next = 21; keys = [] }

abbrev purchase : CommandInput
purchase = record {
  kind = buy;
  asset_id = 7;
  quantity = ten;
  unit_price = price;
  fee_paid = no_fee;
  amount = no_decimal;
  currency = currency_usd;
  effective_at = monday;
  note = no_text;
  external_reference = no_text;
}

abbrev sale : CommandInput
sale = record purchase { kind = sell; quantity = decimal (codes "16") }

abbrev metadata : CommandMetadata
metadata = record { idempotency_key = codes "order-0000000001"; correlation_id = codes "request-1" }

abbrev order : Request
order = record { principal = 2; portfolio_id = 1; input = purchase; metadata = metadata }

-- the fact of the purchase, and the store behind it
abbrev purchased : Transaction
purchased = record { state = record bought.state { id = 23; portfolio_sequence = pos 21 } }

abbrev later_store : Memory
later_store = record {
  facts = purchased ∷ [];
  clock = tuesday;
  next = 26;
  keys =
      (metadata.idempotency_key, record { fingerprint = 5; primary_id = 23; correction_id = 0 })
      ∷ [];
}

abbrev shortage : LedgerViolation
shortage = record {
  transaction_id = 23;
  portfolio_sequence = pos 21;
  candidate = true;
  later_existing = false;
  negative_quantity = decimal (codes "-6");
}

abbrev stored : Idempotency
stored = record { fingerprint = 5; primary_id = 11; correction_id = 0 }

-- a store with the key of the purchase
abbrev repeated_store : Memory
repeated_store = record full_store { keys = (metadata.idempotency_key, stored) ∷ [] }

-- The runs, computed.
service_runs :
    (execute memory_ports 2 1 0 purchase metadata false empty_store
      ≡ (ok (created purchased), later_store))
    × (execute memory_ports 2 1 0 sale metadata false full_store
        ≡ (err (overdrawn shortage), record full_store { next = 25 }))
    × (get memory_ports 2 1 11 full_store ≡ (ok (bought, none), full_store))
    × (execute memory_ports 2 1 0 purchase metadata false repeated_store
        ≡ (ok (created bought), record repeated_store { next = 22 }))
    × IsCanonical ten
    × (replay_ledger [] [] ≡ ok tt)
    × (memory_keys repeated_store 1 create_scope metadata.idempotency_key tuesday ≡ some stored)
unfolding ai_portfolio_research_as.Text.equal ai_portfolio_research_as.Text.all_digits
    ai_portfolio_research_as.Text.split ai_portfolio_research_as.Text.trim_right
    ai_portfolio_research_as.Tests.Memory.rows_of ai_portfolio_research_as.Tests.Memory.find_stored
    ai_portfolio_research_as.Tests.Memory.reads_back
    ai_portfolio_research_as.Tests.Memory.is_readable
    ai_portfolio_research_as.Tests.Memory.readable_rows
    ai_portfolio_research_as.Tests.Memory.find_key
    ai_portfolio_research_as.Transaction.History.bad_history
    ai_portfolio_research_as.Transaction.History.first_facts
    ai_portfolio_research_as.Transaction.History.next_position
    ai_portfolio_research_as.Transaction.History.attach
    ai_portfolio_research_as.Transaction.History.page_of
    ai_portfolio_research_as.Transaction.History.list_history
    ai_portfolio_research_as.Transaction.Service.matches_key
    ai_portfolio_research_as.Transaction.Service.with_default_fee
    ai_portfolio_research_as.Transaction.Service.normalize_fields
    ai_portfolio_research_as.Transaction.Service.normalize
    ai_portfolio_research_as.Transaction.Service.command_of
    ai_portfolio_research_as.Transaction.Service.snapshot_of
    ai_portfolio_research_as.Transaction.Command.validated_context
    ai_portfolio_research_as.Transaction.Command.new_trade_command
    ai_portfolio_research_as.Transaction.Command.new_dividend_command
    ai_portfolio_research_as.Transaction.Command.new_cash_command
    ai_portfolio_research_as.Transaction.Command.command_shape
    ai_portfolio_research_as.Transaction.Command.command_is_valid
    ai_portfolio_research_as.Transaction.Command.command_state
    ai_portfolio_research_as.Transaction.Command.new_transaction_from_command
    ai_portfolio_research_as.Transaction.Kind.kind_of_text
    ai_portfolio_research_as.Transaction.Kind.parse_kind
    ai_portfolio_research_as.Transaction.Correction.rehydrate_correction
    ai_portfolio_research_as.Transaction.Correction.validate_correction_target
    ai_portfolio_research_as.Transaction.Correction.reversal_state
    ai_portfolio_research_as.Transaction.Correction.replacement_state
    ai_portfolio_research_as.Transaction.Correction.bad_input
    ai_portfolio_research_as.Transaction.Correction.build_facts
    ai_portfolio_research_as.Transaction.Correction.build_correction
    ai_portfolio_research_as.Transaction.Decimal.parse_parts
    ai_portfolio_research_as.Transaction.Decimal.parse_decimal
    ai_portfolio_research_as.Transaction.Decimal.parse_positive_decimal
    ai_portfolio_research_as.Transaction.Decimal.parse_non_negative_decimal
    ai_portfolio_research_as.Transaction.Decimal.is_valid
    ai_portfolio_research_as.Transaction.Decimal.is_positive
    ai_portfolio_research_as.Transaction.Decimal.is_non_negative
    ai_portfolio_research_as.Transaction.Decimal.units
    ai_portfolio_research_as.Transaction.Decimal.scaled
    ai_portfolio_research_as.Transaction.Decimal.magnitude_text
    ai_portfolio_research_as.Transaction.Decimal.decimal_from_scaled
    ai_portfolio_research_as.Transaction.Decimal.add
    ai_portfolio_research_as.Transaction.Decimal.sub
    ai_portfolio_research_as.Transaction.Decimal.compare_decimals
    ai_portfolio_research_as.Transaction.Value.parse_currency
    ai_portfolio_research_as.Transaction.Value.new_optional_text
    ai_portfolio_research_as.Transaction.Value.new_note
    ai_portfolio_research_as.Transaction.Value.new_external_reference
    ai_portfolio_research_as.Transaction.Value.validate_effective_at
    ai_portfolio_research_as.Transaction.Value.is_listed
    ai_portfolio_research_as.Transaction.Value.new_asset_snapshot
    ai_portfolio_research_as.Transaction.Value.asset_is_valid
    ai_portfolio_research_as.Transaction.Value.same_asset
    ai_portfolio_research_as.Transaction.Fact.validate_optional
    ai_portfolio_research_as.Transaction.Fact.bad_header
    ai_portfolio_research_as.Transaction.Fact.bad_asset
    ai_portfolio_research_as.Transaction.Fact.refers_to_itself
    ai_portfolio_research_as.Transaction.Fact.bad_links
    ai_portfolio_research_as.Transaction.Fact.is_trade
    ai_portfolio_research_as.Transaction.Fact.is_asset_cash
    ai_portfolio_research_as.Transaction.Fact.is_portfolio_cash
    ai_portfolio_research_as.Transaction.Fact.has_shape
    ai_portfolio_research_as.Transaction.Fact.rehydrate_transaction
    ai_portfolio_research_as.Transaction.Replay.has_id
    ai_portfolio_research_as.Transaction.Replay.has_sequence
    ai_portfolio_research_as.Transaction.Replay.find_fact
    ai_portfolio_research_as.Transaction.Replay.has_key
    ai_portfolio_research_as.Transaction.Replay.check_facts
    ai_portfolio_research_as.Transaction.Replay.same_financial_dimensions
    ai_portfolio_research_as.Transaction.Replay.reverses
    ai_portfolio_research_as.Transaction.Replay.check_reversals
    ai_portfolio_research_as.Transaction.Replay.precedes
    ai_portfolio_research_as.Transaction.Replay.insert_fact
    ai_portfolio_research_as.Transaction.Replay.sort_facts
    ai_portfolio_research_as.Transaction.Replay.find_balance
    ai_portfolio_research_as.Transaction.Replay.next_balance
    ai_portfolio_research_as.Transaction.Replay.zero_decimal
    ai_portfolio_research_as.Transaction.Replay.balance_or_zero
    ai_portfolio_research_as.Transaction.Replay.settle
    ai_portfolio_research_as.Transaction.Replay.replay_fact
    ai_portfolio_research_as.Transaction.Replay.replay_facts
    ai_portfolio_research_as.Transaction.Replay.ids_of
    ai_portfolio_research_as.Transaction.Replay.replay_ledger
    ai_portfolio_research_as.Transaction.Service.Record.record_fact
    ai_portfolio_research_as.Transaction.Service.Record.audit_correction
    ai_portfolio_research_as.Transaction.Service.Record.record_correction
    ai_portfolio_research_as.Transaction.Service.Guards.is_rejected_input
    ai_portfolio_research_as.Transaction.Service.Guards.is_rejection
    ai_portfolio_research_as.Transaction.Service.Guards.rejection_action
    ai_portfolio_research_as.Transaction.Service.Guards.owner_checked
    ai_portfolio_research_as.Transaction.Service.Guards.owned
    ai_portfolio_research_as.Transaction.Service.Guards.resolve_asset
    ai_portfolio_research_as.Transaction.Service.Guards.resolve_command
    ai_portfolio_research_as.Transaction.Service.Guards.earlier_correction
    ai_portfolio_research_as.Transaction.Service.Evidence.audit_record
    ai_portfolio_research_as.Transaction.Service.Evidence.service_event
    ai_portfolio_research_as.Transaction.Service.Evidence.service_now
    ai_portfolio_research_as.Transaction.Service.Evidence.next_id
    ai_portfolio_research_as.Transaction.Service.Evidence.next_transaction_id
    ai_portfolio_research_as.Transaction.Service.Evidence.append_audit_to
    ai_portfolio_research_as.Transaction.Service.Evidence.append_event_for
    ai_portfolio_research_as.Transaction.Service.Ledger.with_originals
    ai_portfolio_research_as.Transaction.Service.Ledger.ledger_result
    ai_portfolio_research_as.Transaction.Service.Ledger.gather
    ai_portfolio_research_as.Transaction.Service.Ledger.validate_replay
    ai_portfolio_research_as.Transaction.Service.Execute.rejected
    ai_portfolio_research_as.Transaction.Service.Execute.replay_result
    ai_portfolio_research_as.Transaction.Service.Execute.record_command
    ai_portfolio_research_as.Transaction.Service.Execute.replay_or_record
    ai_portfolio_research_as.Transaction.Service.Execute.execute_within
    ai_portfolio_research_as.Transaction.Service.Execute.within_transaction
    ai_portfolio_research_as.Transaction.Service.Execute.append_rejection_of
    ai_portfolio_research_as.Transaction.Service.Execute.report
    ai_portfolio_research_as.Transaction.Service.Execute.execute
    ai_portfolio_research_as.Transaction.Service.Execute.create
    ai_portfolio_research_as.Transaction.Service.Execute.correct
    ai_portfolio_research_as.Transaction.Service.Execute.get_within
    ai_portfolio_research_as.Transaction.Service.Execute.get
    ai_portfolio_research_as.Transaction.Decimal.Arithmetic.Stands
    ai_portfolio_research_as.Transaction.Replay.Round.Holds
    ai_portfolio_research_as.Platform.Outbox.all_bytes
    ai_portfolio_research_as.Platform.Outbox.is_name
    ai_portfolio_research_as.Platform.Outbox.all_names
    ai_portfolio_research_as.Platform.Outbox.matches_event_type
    ai_portfolio_research_as.Platform.Outbox.matches_correlation_id
    ai_portfolio_research_as.Platform.Outbox.validate_references
    ai_portfolio_research_as.Platform.Outbox.validate_payload
    ai_portfolio_research_as.Platform.Outbox.validate_event
    ai_portfolio_research_as.Platform.Outbox.validate_claim_request
    ai_portfolio_research_as.Platform.Outbox.validate_failure_code
    ai_portfolio_research_as.Platform.Outbox.validate_consumer_name
    ai_portfolio_research_as.Prelude.Actions.◌>>=◌ ai_portfolio_research_as.Prelude.Int.◌+ℤ◌
    ai_portfolio_research_as.Prelude.Int.◌-ℤ◌ ai_portfolio_research_as.Prelude.Time.zero_time
    ai_portfolio_research_as.Prelude.Transactions.committed
    ai_portfolio_research_as.Prelude.Transactions.transaction_end
    ai_portfolio_research_as.Prelude.Transactions.begun
    ai_portfolio_research_as.Prelude.Transactions.bracketed
    ai_portfolio_research_as.Text.Digits.value ai_portfolio_research_as.Text.Digits.unsigned
    ai_portfolio_research_as.Text.Digits.digits ai_portfolio_research_as.Text.Digits.numeral
    ai_portfolio_research_as.Text.Blank.is_blank ai_portfolio_research_as.Text.Utf8.valid_string
    ai_portfolio_research_as.Text.Utf8.rune_count
    ai_portfolio_research_as.Portfolio.Record.parse_base_currency
    ai_portfolio_research_as.Portfolio.Record.portfolio_status_of_text
    ai_portfolio_research_as.Portfolio.Record.bad_archive
    ai_portfolio_research_as.Portfolio.Record.rehydrate_portfolio
    ai_portfolio_research_as.Portfolio.Record.new_portfolio
    ai_portfolio_research_as.Portfolio.Record.rename
    ai_portfolio_research_as.Portfolio.Record.archive
service_runs =
    (refl, refl, refl, refl, decimal_from_scaled-IsCanonical (pos 10000000000000), refl, refl)

given_quantity : IsGivenQuantity ten
given_quantity v = service_runs.4

empty-IsConsistent : (q a : Uuid) → IsConsistent (memory_rows empty_store q a)
unfolding rows_of
empty-IsConsistent q a =
    let (ledger, covered) = (replay_ledger_iff [] [] tt).0 service_runs.5 in
    ([], Perm.refl [], ledger, covered)

create-LedgerStep_example :
    LedgerStep 1
      (memory_rows empty_store)
      (memory_rows (after_create memory_ports order empty_store))
create-LedgerStep_example =
    create-LedgerStep memory_ports memory_rows memory-IsLawful order empty_store given_quantity

creates-IsConsistent_example :
    IsConsistent (memory_rows (after_creates memory_ports (order ∷ []) empty_store) 1 7)
creates-IsConsistent_example =
    creates-IsConsistent memory_ports memory_rows memory-IsLawful (order ∷ []) empty_store
      (given_quantity, tt) empty-IsConsistent 1 7

execute-atomic_example : memory_rows (record full_store { next = 25 }) ≡ memory_rows full_store
execute-atomic_example =
    execute-atomic memory_ports 2 1 0 sale metadata false memory_rows memory-IsLawful full_store
      (record full_store { next = 25 }) (overdrawn shortage) service_runs.1

execute-Owns_example : Owns memory_ports 2 1 empty_store
execute-Owns_example =
    execute-Owns memory_ports 2 1 0 purchase metadata false empty_store later_store
      (created purchased) service_runs.0

get-Owns_example :
    Owns memory_ports 2 1 full_store
    × (memory_ports.get 1 11 full_store ≡ ok bought)
    × (memory_ports.direct_correction 1 11 full_store ≡ ok none)
    × (full_store ≡ full_store)
get-Owns_example = get-Owns memory_ports 2 1 11 full_store full_store bought none service_runs.2

execute-repeated_example :
    (memory_rows (record repeated_store { next = 22 }) ≡ memory_rows repeated_store)
    × ((r : Recorded)
        → ◌≡◌ {A = Result ServiceError Recorded} (ok (created bought)) (ok r)
        → Replays memory_ports 2 1 0 purchase metadata false stored repeated_store r)
execute-repeated_example =
    execute-repeated memory_ports 2 1 0 purchase metadata false memory_rows memory-IsLawful
      memory_keys memory-IsKeyStore stored repeated_store (record repeated_store { next = 22 })
      (ok (created bought)) service_runs.6 service_runs.3
