-- ===== src/Transaction/Command.antt =====
-- backend/internal/transaction/domain/command.go: the facts that a user may ask for.
pub mod Accepted
use ai_portfolio_research_as.Prelude.{
  Bool, true, false, not, ◌&&◌, ◌||◌, ok, err, ◌>>=◌, ◌>>◌, fail_if, is_ok, if◌then◌else◌,
}
use ai_portfolio_research_as.Prelude.Int.{ℤ}
use ai_portfolio_research_as.Prelude.Time.{Instant, is_zero_time, is_submicrosecond}
use ai_portfolio_research_as.Text.{equal}
use ai_portfolio_research_as.Transaction.Errors.{
  Outcome, invalid_currency, invalid_transaction_fields,
}
use ai_portfolio_research_as.Transaction.Kind.{
  Kind, buy, sell, dividend, deposit, withdrawal, fee, is_public_creatable,
}
use ai_portfolio_research_as.Transaction.Value.{
  Uuid, Currency, currency_usd, OptionalText, AssetSnapshot, no_asset, asset_is_valid,
  validate_effective_at,
}
use ai_portfolio_research_as.Transaction.Decimal.{
  Decimal, no_decimal, is_valid, is_positive, is_non_negative,
}
use ai_portfolio_research_as.Transaction.Fact.{
  TransactionState, Transaction, validate_optional, rehydrate_transaction,
}

pub record Command : Type 0 where
  pub kind : Kind
  pub asset : AssetSnapshot
  pub has_asset : Bool
  pub quantity : Decimal
  pub unit_price : Decimal
  pub fee_paid : Decimal
  pub amount : Decimal
  pub currency : Currency
  pub effective_at : Instant
  pub note : OptionalText
  pub external_reference : OptionalText

pub record CommandContext : Type 0 where
  pub currency : Currency
  pub effective_at : Instant
  pub now : Instant
  pub note : OptionalText
  pub external_reference : OptionalText

unfoldable pub validated_context : CommandContext → Outcome Instant
validated_context context = do
  fail_if (not (equal context.currency currency_usd)) invalid_currency
  validate_optional context.note context.external_reference
  validate_effective_at context.effective_at context.now

unfoldable pub new_trade_command :
    Kind → AssetSnapshot → Decimal → Decimal → Decimal → CommandContext → Outcome Command
new_trade_command kind asset quantity unit_price fee_paid context = do
  fail_if
      (not (asset_is_valid asset)
        || not (is_positive quantity)
        || not (is_positive unit_price)
        || not (is_non_negative fee_paid))
      invalid_transaction_fields
  effective_at ← validated_context context
  ok (record {
    kind = kind;
    asset = asset;
    has_asset = true;
    quantity = quantity;
    unit_price = unit_price;
    fee_paid = fee_paid;
    amount = no_decimal;
    currency = context.currency;
    effective_at = effective_at;
    note = context.note;
    external_reference = context.external_reference;
  })

abbrev pub new_buy_command :
    AssetSnapshot → Decimal → Decimal → Decimal → CommandContext → Outcome Command
new_buy_command = new_trade_command buy

abbrev pub new_sell_command :
    AssetSnapshot → Decimal → Decimal → Decimal → CommandContext → Outcome Command
new_sell_command = new_trade_command sell

unfoldable pub new_dividend_command : AssetSnapshot → Decimal → CommandContext → Outcome Command
new_dividend_command asset amount context = do
  fail_if (not (asset_is_valid asset) || not (is_positive amount)) invalid_transaction_fields
  effective_at ← validated_context context
  ok (record {
    kind = dividend;
    asset = asset;
    has_asset = true;
    quantity = no_decimal;
    unit_price = no_decimal;
    fee_paid = no_decimal;
    amount = amount;
    currency = context.currency;
    effective_at = effective_at;
    note = context.note;
    external_reference = context.external_reference;
  })

unfoldable pub new_cash_command : Kind → Decimal → CommandContext → Outcome Command
new_cash_command kind amount context = do
  fail_if (not (is_positive amount)) invalid_transaction_fields
  effective_at ← validated_context context
  ok (record {
    kind = kind;
    asset = no_asset;
    has_asset = false;
    quantity = no_decimal;
    unit_price = no_decimal;
    fee_paid = no_decimal;
    amount = amount;
    currency = context.currency;
    effective_at = effective_at;
    note = context.note;
    external_reference = context.external_reference;
  })

abbrev pub new_deposit_command : Decimal → CommandContext → Outcome Command
new_deposit_command = new_cash_command deposit

abbrev pub new_withdrawal_command : Decimal → CommandContext → Outcome Command
new_withdrawal_command = new_cash_command withdrawal

abbrev pub new_fee_command : Decimal → CommandContext → Outcome Command
new_fee_command = new_cash_command fee

abbrev pub no_trade_fields : Command → Bool
no_trade_fields c =
    not (is_valid c.quantity) && not (is_valid c.unit_price) && not (is_valid c.fee_paid)

abbrev pub trade_shape : Command → Bool
trade_shape c =
    c.has_asset
    && asset_is_valid c.asset
    && is_positive c.quantity
    && is_positive c.unit_price
    && is_non_negative c.fee_paid
    && not (is_valid c.amount)

-- the last `switch` of `IsValid`
unfoldable pub command_shape : Kind → Command → Bool
command_shape buy c = trade_shape c
command_shape sell c = trade_shape c
command_shape dividend c =
    c.has_asset && asset_is_valid c.asset && is_positive c.amount && no_trade_fields c
command_shape _ c = not c.has_asset && is_positive c.amount && no_trade_fields c

unfoldable pub command_is_valid : Command → Bool
command_is_valid c =
    if not (is_public_creatable c.kind)
      || not (equal c.currency currency_usd)
      || is_zero_time c.effective_at
      || is_submicrosecond c.effective_at
      || not (is_ok (validate_optional c.note c.external_reference))
    then false
    else command_shape c.kind c

-- the state that `NewTransactionFromCommand` of transaction.go fills in
unfoldable pub command_state : Uuid → Uuid → Uuid → ℤ → Instant → Command → TransactionState
command_state id portfolio_id actor sequence created_at command = record {
  id = id;
  portfolio_id = portfolio_id;
  created_by = actor;
  kind = command.kind;
  asset = command.asset;
  has_asset = command.has_asset;
  quantity = command.quantity;
  unit_price = command.unit_price;
  fee_paid = command.fee_paid;
  amount = command.amount;
  currency = command.currency;
  effective_at = command.effective_at;
  portfolio_sequence = sequence;
  note = command.note;
  external_reference = command.external_reference;
  reversal_of = 0;
  correction_of = 0;
  originating_correction = 0;
  created_at = created_at;
}

unfoldable pub new_transaction_from_command :
    Uuid → Uuid → Uuid → ℤ → Instant → Command → Outcome Transaction
new_transaction_from_command id portfolio_id actor sequence created_at command = do
  fail_if (not (command_is_valid command)) invalid_transaction_fields
  rehydrate_transaction (command_state id portfolio_id actor sequence created_at command)
