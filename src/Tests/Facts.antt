-- ===== src/Tests/Facts.antt =====
-- Runs of backend/internal/transaction/domain/transaction.go, command.go and correction.go.
use ai_portfolio_research_as.Prelude.{
  ◌≡◌, ◌≢◌, refl, arith, true, false, [], ◌∷◌, ok, err, is_ok, some,
}
use ai_portfolio_research_as.Prelude.Int.{pos, ◌+ℤ◌}
use ai_portfolio_research_as.Text.{codes}
use ai_portfolio_research_as.Transaction.Kind.{buy}
use ai_portfolio_research_as.Transaction.Value.{no_text}
use ai_portfolio_research_as.Transaction.Fact.{Transaction, rehydrate_transaction}
use ai_portfolio_research_as.Transaction.Fact.Rehydrated.{IsFact, accepted-IsFact}
use ai_portfolio_research_as.Transaction.Command.{
  Command, new_buy_command, command_is_valid, command_state, new_transaction_from_command,
}
use ai_portfolio_research_as.Transaction.Command.Accepted.{
  IsBuilt, bought, IsStamp, new_transaction-valid,
}
use ai_portfolio_research_as.Transaction.Correction.{
  CorrectionInput, CorrectionFacts, Correction, build_correction, reversal_state, replacement_state,
}
use ai_portfolio_research_as.Transaction.Correction.Built.{
  IsCorrectionOf, build_correction-IsCorrectionOf, build_correction-delta,
}
use ai_portfolio_research_as.Transaction.Replay.{find_fact}
use ai_portfolio_research_as.Transaction.Replay.Positions.{delta}
use ai_portfolio_research_as.Tests.Data as Data
use ai_portfolio_research_as.Tests.Data.{ten, price, no_fee, share, context, monday, tuesday}

abbrev order : Command
order = record {
  kind = buy;
  asset = share;
  has_asset = true;
  quantity = ten;
  unit_price = price;
  fee_paid = no_fee;
  amount = record { canonical = [] };
  currency = codes "USD";
  effective_at = monday;
  note = no_text;
  external_reference = no_text;
}

abbrev input : CorrectionInput
input = record {
  original = Data.bought;
  has_direct_correction = false;
  replacement = order;
  correction_id = 31;
  reversal_id = 32;
  replacement_id = 33;
  actor = 2;
  reversal_sequence = pos 13;
  replacement_sequence = pos 14;
  created_at = tuesday;
}

abbrev facts : CorrectionFacts
unfolding reversal_state replacement_state command_state
facts = record {
  reversal_fact = record { state = reversal_state input };
  replacement_fact = record {
    state =
        replacement_state input (record { state = command_state 33 1 2 (pos 14) tuesday order });
  };
  relationship = record {
    id = 31;
    portfolio_id = 1;
    original = 11;
    reversal_id = 32;
    replacement = 33;
    actor = 2;
    created_at = tuesday;
  };
}

-- The runs, computed.
runs :
    (IsBuilt order)
    × (IsStamp 21 1 2 (pos 13) tuesday order.effective_at)
    × (rehydrate_transaction Data.bought.state ≡ ok Data.bought)
    × (build_correction input ≡ ok facts)
    × (is_ok (rehydrate_transaction Data.bought.state) ≡ true)
    × (find_fact 11 (Data.bought ∷ []) ≡ some Data.bought)
unfolding ai_portfolio_research_as.Prelude.Int.◌+ℤ◌ ai_portfolio_research_as.Prelude.Int.◌-ℤ◌
    ai_portfolio_research_as.Prelude.Time.zero_time ai_portfolio_research_as.Text.Blank.is_blank
    ai_portfolio_research_as.Text.Digits.digits ai_portfolio_research_as.Text.Digits.numeral
    ai_portfolio_research_as.Text.Digits.unsigned ai_portfolio_research_as.Text.Digits.value
    ai_portfolio_research_as.Text.Utf8.rune_count ai_portfolio_research_as.Text.Utf8.valid_string
    ai_portfolio_research_as.Text.all_digits ai_portfolio_research_as.Text.equal
    ai_portfolio_research_as.Text.split ai_portfolio_research_as.Text.trim_right
    ai_portfolio_research_as.Transaction.Command.command_is_valid
    ai_portfolio_research_as.Transaction.Command.command_shape
    ai_portfolio_research_as.Transaction.Command.command_state
    ai_portfolio_research_as.Transaction.Command.new_cash_command
    ai_portfolio_research_as.Transaction.Command.new_dividend_command
    ai_portfolio_research_as.Transaction.Command.new_trade_command
    ai_portfolio_research_as.Transaction.Command.new_transaction_from_command
    ai_portfolio_research_as.Transaction.Command.validated_context
    ai_portfolio_research_as.Transaction.Correction.bad_input
    ai_portfolio_research_as.Transaction.Correction.build_correction
    ai_portfolio_research_as.Transaction.Correction.build_facts
    ai_portfolio_research_as.Transaction.Correction.rehydrate_correction
    ai_portfolio_research_as.Transaction.Correction.replacement_state
    ai_portfolio_research_as.Transaction.Correction.reversal_state
    ai_portfolio_research_as.Transaction.Correction.validate_correction_target
    ai_portfolio_research_as.Transaction.Decimal.Arithmetic.Stands
    ai_portfolio_research_as.Transaction.Decimal.add
    ai_portfolio_research_as.Transaction.Decimal.compare_decimals
    ai_portfolio_research_as.Transaction.Decimal.decimal_from_scaled
    ai_portfolio_research_as.Transaction.Decimal.is_non_negative
    ai_portfolio_research_as.Transaction.Decimal.is_positive
    ai_portfolio_research_as.Transaction.Decimal.is_valid
    ai_portfolio_research_as.Transaction.Decimal.magnitude_text
    ai_portfolio_research_as.Transaction.Decimal.parse_decimal
    ai_portfolio_research_as.Transaction.Decimal.parse_non_negative_decimal
    ai_portfolio_research_as.Transaction.Decimal.parse_parts
    ai_portfolio_research_as.Transaction.Decimal.parse_positive_decimal
    ai_portfolio_research_as.Transaction.Decimal.scaled
    ai_portfolio_research_as.Transaction.Decimal.sub
    ai_portfolio_research_as.Transaction.Decimal.units
    ai_portfolio_research_as.Transaction.Fact.bad_asset
    ai_portfolio_research_as.Transaction.Fact.bad_header
    ai_portfolio_research_as.Transaction.Fact.bad_links
    ai_portfolio_research_as.Transaction.Fact.has_shape
    ai_portfolio_research_as.Transaction.Fact.is_asset_cash
    ai_portfolio_research_as.Transaction.Fact.is_portfolio_cash
    ai_portfolio_research_as.Transaction.Fact.is_trade
    ai_portfolio_research_as.Transaction.Fact.refers_to_itself
    ai_portfolio_research_as.Transaction.Fact.rehydrate_transaction
    ai_portfolio_research_as.Transaction.Fact.validate_optional
    ai_portfolio_research_as.Transaction.Kind.kind_of_text
    ai_portfolio_research_as.Transaction.Kind.parse_kind
    ai_portfolio_research_as.Transaction.Replay.Round.Holds
    ai_portfolio_research_as.Transaction.Replay.balance_or_zero
    ai_portfolio_research_as.Transaction.Replay.check_facts
    ai_portfolio_research_as.Transaction.Replay.check_reversals
    ai_portfolio_research_as.Transaction.Replay.find_balance
    ai_portfolio_research_as.Transaction.Replay.find_fact
    ai_portfolio_research_as.Transaction.Replay.has_id
    ai_portfolio_research_as.Transaction.Replay.has_key
    ai_portfolio_research_as.Transaction.Replay.has_sequence
    ai_portfolio_research_as.Transaction.Replay.ids_of
    ai_portfolio_research_as.Transaction.Replay.insert_fact
    ai_portfolio_research_as.Transaction.Replay.next_balance
    ai_portfolio_research_as.Transaction.Replay.precedes
    ai_portfolio_research_as.Transaction.Replay.replay_fact
    ai_portfolio_research_as.Transaction.Replay.replay_facts
    ai_portfolio_research_as.Transaction.Replay.replay_ledger
    ai_portfolio_research_as.Transaction.Replay.reverses
    ai_portfolio_research_as.Transaction.Replay.same_financial_dimensions
    ai_portfolio_research_as.Transaction.Replay.settle
    ai_portfolio_research_as.Transaction.Replay.sort_facts
    ai_portfolio_research_as.Transaction.Replay.zero_decimal
    ai_portfolio_research_as.Transaction.Value.asset_is_valid
    ai_portfolio_research_as.Transaction.Value.is_listed
    ai_portfolio_research_as.Transaction.Value.new_asset_snapshot
    ai_portfolio_research_as.Transaction.Value.new_external_reference
    ai_portfolio_research_as.Transaction.Value.new_note
    ai_portfolio_research_as.Transaction.Value.new_optional_text
    ai_portfolio_research_as.Transaction.Value.parse_currency
    ai_portfolio_research_as.Transaction.Value.same_asset
    ai_portfolio_research_as.Transaction.Value.validate_effective_at
runs = (
  bought share ten price no_fee context refl,
  record {
    identified = ground arith;
    in_portfolio = ground arith;
    by_actor = ground arith;
    sequenced = ground arith;
    at_time = refl;
    whole = refl;
    in_order = ground arith;
  },
  refl,
  refl,
  refl,
  refl,
)

order-IsBuilt : IsBuilt order
order-IsBuilt = runs.0

stamp : IsStamp 21 1 2 (pos 13) tuesday order.effective_at
stamp = runs.1

new_transaction-valid_example :
    new_transaction_from_command 21 1 2 (pos 13) tuesday order
    ≡ ok (record { state = command_state 21 1 2 (pos 13) tuesday order })
new_transaction-valid_example =
    new_transaction-valid 21 1 2 (pos 13) tuesday order order-IsBuilt stamp

read_back : rehydrate_transaction Data.bought.state ≡ ok Data.bought
read_back = runs.2

accepted-IsFact_example : IsFact Data.bought.state
accepted-IsFact_example = accepted-IsFact Data.bought.state Data.bought read_back

corrected : build_correction input ≡ ok facts
corrected = runs.3

build_correction-IsCorrectionOf_example : IsCorrectionOf input facts
build_correction-IsCorrectionOf_example = build_correction-IsCorrectionOf input facts corrected

original_valid : is_ok (rehydrate_transaction Data.bought.state) ≡ true
original_valid = runs.4

original_found : find_fact 11 (Data.bought ∷ []) ≡ some Data.bought
original_found = runs.5

build_correction-delta_example :
    delta (Data.bought ∷ []) (1, 7) facts.reversal_fact
      +ℤ delta (Data.bought ∷ []) (1, 7) Data.bought
    ≡ pos 0
build_correction-delta_example =
    build_correction-delta input facts (Data.bought ∷ []) (1, 7) corrected original_valid
      original_found
