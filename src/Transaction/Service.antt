-- ===== src/Transaction/Service.antt =====
-- backend/internal/transaction/application/ports.go and command.go: the commands of the transaction
-- service, and the ports that it calls. A principal is its user identifier, 0 when nobody is
-- authenticated.
pub mod Ports
pub mod Ledger
pub mod Evidence
pub mod Guards
pub mod Record
pub mod Execute
pub mod Keeps
pub mod Recorded
pub mod Inputs
pub mod Refinement
pub mod Atomicity
pub mod Invariant
pub mod Consistency
pub mod Authority
pub mod Repeated
use ai_portfolio_research_as.Prelude.{
  ℕ, ◌-◌, ◌%◌, Bool, true, false, not, ◌&&◌, ◌||◌, List, [], ◌∷◌, Option, none, some, Result, ok,
  err, ◌>>=◌, ◌>>◌, fail_if, leb, ltb, length, ◌==◌, if◌then◌else◌,
}
use ai_portfolio_research_as.Prelude.Int.{ℤ}
use ai_portfolio_research_as.Prelude.Time.{Instant}
use ai_portfolio_research_as.Prelude.Actions.{rename_error}
use ai_portfolio_research_as.Text.{Bytes, codes, equal, is_digit}
use ai_portfolio_research_as.Platform.Outbox.{is_lower, all_bytes}
use ai_portfolio_research_as.Asset.{Asset, AssetType, equity, etf, crypto, unknown_type}
use ai_portfolio_research_as.Transaction.Errors.{
  DomainError, Outcome, invalid_transaction_kind, invalid_currency, invalid_transaction_fields,
}
use ai_portfolio_research_as.Transaction.Kind.{
  Kind, buy, sell, dividend, deposit, withdrawal, fee, reversal, unknown, is_public_creatable,
}
use ai_portfolio_research_as.Transaction.Value.{
  Uuid, is_zero, Currency, currency_usd, OptionalText, AssetSnapshot, no_asset, new_asset_snapshot,
  validate_effective_at, new_note, new_external_reference,
}
use ai_portfolio_research_as.Transaction.Decimal.{
  Decimal, is_valid, is_positive, is_non_negative, parse_non_negative_decimal, no_decimal,
}
use ai_portfolio_research_as.Transaction.Command.{
  Command, CommandContext, new_buy_command, new_sell_command, new_dividend_command,
  new_deposit_command, new_withdrawal_command, new_fee_command,
}
use ai_portfolio_research_as.Transaction.Replay.{LedgerViolation, zero_decimal}

-- `overdrawn` is a `*LedgerViolation`; `foreign` is an error of a port that the service passes on,
-- with its number.
pub data ServiceError : Type 0 where
  unauthenticated portfolio_not_found transaction_not_found portfolio_is_archived : ServiceError
  asset_not_found invalid_input invalid_idempotency_key idempotency_conflict : ServiceError
  invalid_backdated_ledger persistence : ServiceError
  domain_failure : DomainError → ServiceError
  overdrawn : LedgerViolation → ServiceError
  foreign : ℕ → ServiceError

pub record CommandInput : Type 0 where
  pub kind : Kind
  pub asset_id : Uuid
  pub quantity : Decimal
  pub unit_price : Decimal
  pub fee_paid : Decimal
  pub amount : Decimal
  pub currency : Currency
  pub effective_at : Instant
  pub note : OptionalText
  pub external_reference : OptionalText

pub record CommandMetadata : Type 0 where
  pub idempotency_key : Bytes
  pub correlation_id : Bytes

-- `[A-Za-z0-9]`
abbrev pub is_letter_or_digit : ℕ → Bool
is_letter_or_digit c = is_lower c || (leb 65 c && leb c 90) || is_digit c

-- `[A-Za-z0-9._~-]`
abbrev pub is_key_byte : ℕ → Bool
is_key_byte c = is_letter_or_digit c || c == b'.' || c == b'_' || c == b'~' || c == b'-'

-- `keyPattern`: 16 to 128 bytes
unfoldable pub matches_key : Bytes → Bool
unfolding all_bytes
matches_key [] = false
matches_key (c ∷ s) =
    is_letter_or_digit c && all_bytes is_key_byte s && leb 15 (length s) && leb (length s) 127

-- the fee of a trade that gives none
unfoldable pub with_default_fee : CommandInput → CommandInput
with_default_fee input =
    if is_valid input.fee_paid then input else record input { fee_paid = zero_decimal }

abbrev pub has_trade_fields : CommandInput → Bool
has_trade_fields input =
    is_valid input.quantity || is_valid input.unit_price || is_valid input.fee_paid

abbrev pub normalize_trade : CommandInput → Outcome CommandInput
normalize_trade input = do
  fail_if
      (is_zero input.asset_id
        || not (is_positive input.quantity)
        || not (is_positive input.unit_price)
        || not (is_non_negative input.fee_paid)
        || is_valid input.amount)
      invalid_transaction_fields
  ok input

-- the `switch` of `normalize`
unfoldable pub normalize_fields : Kind → CommandInput → Outcome CommandInput
normalize_fields buy input = normalize_trade (with_default_fee input)
normalize_fields sell input = normalize_trade (with_default_fee input)
normalize_fields dividend input = do
  fail_if (is_zero input.asset_id || not (is_positive input.amount) || has_trade_fields input)
      invalid_transaction_fields
  ok input
normalize_fields _ input = do
  fail_if (not (is_zero input.asset_id) || not (is_positive input.amount) || has_trade_fields input)
      invalid_transaction_fields
  ok input

abbrev pub check_text : (Bytes → Outcome OptionalText) → OptionalText → Outcome (Unit {0})
check_text check text = if text.present then (check text.value >>= λ _. ok tt) else ok tt

unfoldable pub normalize : CommandInput → Instant → Outcome CommandInput
normalize input now = do
  fail_if (not (is_public_creatable input.kind)) invalid_transaction_kind
  fail_if (not (equal input.currency currency_usd)) invalid_currency
  effective ← validate_effective_at input.effective_at now
  check_text new_note input.note
  check_text new_external_reference input.external_reference
  normalize_fields input.kind (record input { effective_at = effective })

-- the text of the type of an asset
abbrev pub asset_type_text : AssetType → Bytes
asset_type_text equity = codes "EQUITY"
asset_type_text etf = codes "ETF"
asset_type_text crypto = codes "CRYPTO"
asset_type_text unknown_type = []

-- the context of the constructors of commands
abbrev pub context_of : CommandInput → Instant → CommandContext
context_of input now = record {
  currency = input.currency;
  effective_at = input.effective_at;
  now = now;
  note = input.note;
  external_reference = input.external_reference;
}

-- the last `switch` of `resolveCommand`
unfoldable pub command_of : Kind → CommandInput → AssetSnapshot → CommandContext → Outcome Command
command_of buy input snapshot c =
    new_buy_command snapshot input.quantity input.unit_price input.fee_paid c
command_of sell input snapshot c =
    new_sell_command snapshot input.quantity input.unit_price input.fee_paid c
command_of dividend input snapshot c = new_dividend_command snapshot input.amount c
command_of deposit input snapshot c = new_deposit_command input.amount c
command_of withdrawal input snapshot c = new_withdrawal_command input.amount c
command_of fee input snapshot c = new_fee_command input.amount c
command_of _ input snapshot c = err invalid_transaction_kind

-- the snapshot of the asset that was read
unfoldable pub snapshot_of : CommandInput → Asset → Result ServiceError AssetSnapshot
snapshot_of input item = do
  fail_if (not (item.id == input.asset_id)) asset_not_found
  rename_error domain_failure
      (new_asset_snapshot item.id (asset_type_text item.asset_type) item.exchange item.currency)
