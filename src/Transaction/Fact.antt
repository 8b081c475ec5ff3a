-- ===== src/Transaction/Fact.antt =====
-- backend/internal/transaction/domain/transaction.go: the immutable facts of the ledger.
pub mod Amounts
pub mod Rehydrated
use ai_portfolio_research_as.Prelude.{
  Bool, true, false, not, ◌&&◌, ◌||◌, ok, err, ◌>>=◌, ◌>>◌, fail_if, is_ok, ◌==◌, if◌then◌else◌,
}
use ai_portfolio_research_as.Prelude.Int.{ℤ, pos, leb_ℤ}
use ai_portfolio_research_as.Prelude.Time.{Instant, is_zero_time, is_submicrosecond, after, utc}
use ai_portfolio_research_as.Text.{equal}
use ai_portfolio_research_as.Transaction.Errors.{Outcome, invalid_transaction}
use ai_portfolio_research_as.Transaction.Kind.{
  Kind, buy, sell, dividend, deposit, withdrawal, fee, reversal, unknown, check_kind, is_reversal,
}
use ai_portfolio_research_as.Transaction.Value.{
  Uuid, is_zero, Currency, currency_usd, OptionalText, new_note, new_external_reference,
  AssetSnapshot, asset_is_valid,
}
use ai_portfolio_research_as.Transaction.Decimal.{Decimal, is_valid, is_positive, is_non_negative}

-- `TransactionState`; the sequence is an int64.
pub record TransactionState : Type 0 where
  pub id : Uuid
  pub portfolio_id : Uuid
  pub created_by : Uuid
  pub kind : Kind
  pub asset : AssetSnapshot
  pub has_asset : Bool
  pub quantity : Decimal
  pub unit_price : Decimal
  pub fee_paid : Decimal
  pub amount : Decimal
  pub currency : Currency
  pub effective_at : Instant
  pub portfolio_sequence : ℤ
  pub note : OptionalText
  pub external_reference : OptionalText
  pub reversal_of : Uuid
  pub correction_of : Uuid
  pub originating_correction : Uuid
  pub created_at : Instant

pub record Transaction : Type 0 where
  pub state : TransactionState

-- `validateOptional` of command.go
unfoldable pub validate_optional : OptionalText → OptionalText → Outcome (Unit {0})
validate_optional note reference = do
  if note.present then (new_note note.value >>= λ _. ok tt) else ok tt
  if reference.present then (new_external_reference reference.value >>= λ _. ok tt) else ok tt

-- the first `if` of `RehydrateTransaction`
unfoldable pub bad_header : TransactionState → Bool
bad_header s =
    is_zero s.id
    || is_zero s.portfolio_id
    || is_zero s.created_by
    || leb_ℤ s.portfolio_sequence (pos 0)
    || is_zero_time s.created_at
    || is_submicrosecond s.created_at
    || is_zero_time s.effective_at
    || is_submicrosecond s.effective_at
    || after s.effective_at s.created_at
    || not (equal s.currency currency_usd)
    || not (is_ok (validate_optional s.note s.external_reference))

-- a snapshot that is there and not eligible, or eligible and not there
unfoldable pub bad_asset : TransactionState → Bool
bad_asset s =
    (s.has_asset && not (asset_is_valid s.asset)) || (not s.has_asset && asset_is_valid s.asset)

unfoldable pub refers_to_itself : TransactionState → Bool
refers_to_itself s =
    (not (is_zero s.reversal_of) && s.reversal_of == s.id)
    || (not (is_zero s.correction_of) && s.correction_of == s.id)

abbrev same_bool : Bool → Bool → Bool
same_bool true b = b
same_bool false b = not b

-- the links of a reversal, and of any other fact
unfoldable pub bad_links : TransactionState → Bool
bad_links s =
    if is_reversal s.kind
    then is_zero s.reversal_of
      || not (is_zero s.correction_of)
      || is_zero s.originating_correction
      || s.note.present
      || s.external_reference.present
    else not (is_zero s.reversal_of)
      || not (same_bool (is_zero s.correction_of) (is_zero s.originating_correction))

unfoldable pub is_trade : TransactionState → Bool
is_trade s =
    s.has_asset
    && is_positive s.quantity
    && is_positive s.unit_price
    && is_non_negative s.fee_paid
    && not (is_valid s.amount)

abbrev no_trade_fields : TransactionState → Bool
no_trade_fields s =
    not (is_valid s.quantity) && not (is_valid s.unit_price) && not (is_valid s.fee_paid)

unfoldable pub is_asset_cash : TransactionState → Bool
is_asset_cash s = s.has_asset && is_positive s.amount && no_trade_fields s

unfoldable pub is_portfolio_cash : TransactionState → Bool
is_portfolio_cash s = not s.has_asset && is_positive s.amount && no_trade_fields s

-- the last `switch`
unfoldable pub has_shape : Kind → TransactionState → Bool
has_shape buy s = is_trade s
has_shape sell s = is_trade s
has_shape dividend s = is_asset_cash s
has_shape deposit s = is_portfolio_cash s
has_shape withdrawal s = is_portfolio_cash s
has_shape fee s = is_portfolio_cash s
has_shape reversal s = is_trade s || is_asset_cash s || is_portfolio_cash s
has_shape unknown s = true

unfoldable pub rehydrate_transaction : TransactionState → Outcome Transaction
rehydrate_transaction s = do
  fail_if (bad_header s) invalid_transaction
  fail_if (not (is_ok (check_kind s.kind))) invalid_transaction
  fail_if (bad_asset s) invalid_transaction
  fail_if (refers_to_itself s) invalid_transaction
  fail_if (bad_links s) invalid_transaction
  fail_if (not (has_shape s.kind s)) invalid_transaction
  ok (record {
    state = record s { effective_at = utc s.effective_at; created_at = utc s.created_at };
  })

-- the accessors of an optional field: its value, and whether it is there
abbrev pub asset_of : Transaction → AssetSnapshot × Bool
asset_of t = (t.state.asset, t.state.has_asset)

abbrev pub quantity_of : Transaction → Decimal × Bool
quantity_of t = (t.state.quantity, is_valid t.state.quantity)

abbrev pub unit_price_of : Transaction → Decimal × Bool
unit_price_of t = (t.state.unit_price, is_valid t.state.unit_price)

abbrev pub fee_of : Transaction → Decimal × Bool
fee_of t = (t.state.fee_paid, is_valid t.state.fee_paid)

abbrev pub amount_of : Transaction → Decimal × Bool
amount_of t = (t.state.amount, is_valid t.state.amount)
