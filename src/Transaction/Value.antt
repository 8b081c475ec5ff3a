-- ===== src/Transaction/Value.antt =====
-- backend/internal/transaction/domain/value.go and identifiers.go. A UUID is its 128-bit number,
-- the nil UUID 0; the text form of an identifier belongs to the UUID package.
use ai_portfolio_research_as.Prelude.{
  ℕ, Bool, true, false, not, ◌&&◌, ◌||◌, [], ok, err, ◌>>◌, fail_if, is_ok, ltb, ◌==◌,
  if◌then◌else◌,
}
use ai_portfolio_research_as.Prelude.Time.{Instant, is_zero_time, is_submicrosecond, after, utc}
use ai_portfolio_research_as.Text.{Bytes, codes, equal}
use ai_portfolio_research_as.Text.Utf8.{valid_string, rune_count}
use ai_portfolio_research_as.Transaction.Errors.{
  Outcome, invalid_transaction_id, invalid_correction_id, invalid_transaction_fields,
  invalid_currency, invalid_effective_at, asset_financially_ineligible,
}

abbrev pub Uuid : Type 0
Uuid = ℕ

-- `IsZero` of every identifier
abbrev pub is_zero : Uuid → Bool
is_zero id = id == 0

abbrev pub new_transaction_id : Uuid → Outcome Uuid
new_transaction_id value = if is_zero value then err invalid_transaction_id else ok value

abbrev pub new_correction_id : Uuid → Outcome Uuid
new_correction_id value = if is_zero value then err invalid_correction_id else ok value

abbrev pub Currency : Type 0
Currency = Bytes

abbrev pub currency_usd : Currency
currency_usd = codes "USD"

unfoldable pub parse_currency : Bytes → Outcome Currency
unfolding equal
parse_currency value = if equal value currency_usd then ok currency_usd else err invalid_currency

-- Absent text is distinct from a text that was given and is empty.
pub record OptionalText : Type 0 where
  pub value : Bytes
  pub present : Bool

abbrev pub no_text : OptionalText
no_text = record { value = []; present = false }

unfoldable pub new_optional_text : Bytes → ℕ → Outcome OptionalText
unfolding valid_string rune_count
new_optional_text value max =
    if not (valid_string value) || ltb max (rune_count value)
    then err invalid_transaction_fields
    else ok (record { value = value; present = true })

unfoldable pub new_note : Bytes → Outcome OptionalText
unfolding new_optional_text
new_note value = new_optional_text value 2000

unfoldable pub new_external_reference : Bytes → Outcome OptionalText
unfolding new_optional_text
new_external_reference value = new_optional_text value 256

-- An instant that has come, in whole microseconds.
unfoldable pub validate_effective_at : Instant → Instant → Outcome Instant
validate_effective_at value now =
    if is_zero_time value || is_zero_time now || is_submicrosecond value || after value now
    then err invalid_effective_at
    else ok (utc value)

pub record AssetSnapshot : Type 0 where
  pub id : Uuid
  pub asset_type : Bytes
  pub exchange : Bytes
  pub currency : Currency

abbrev pub no_asset : AssetSnapshot
no_asset = record { id = 0; asset_type = []; exchange = []; currency = [] }

-- the cases of the `switch` on the exchange
unfoldable pub is_listed : Bytes → Bool
unfolding equal
is_listed exchange =
    equal exchange (codes "NYSE")
    || equal exchange (codes "NASDAQ")
    || equal exchange (codes "NYSEARCA")
    || equal exchange (codes "AMEX")

unfoldable pub new_asset_snapshot : Uuid → Bytes → Bytes → Currency → Outcome AssetSnapshot
unfolding is_listed
new_asset_snapshot id asset_type exchange currency = do
  fail_if
      (is_zero id
        || (not (equal asset_type (codes "EQUITY")) && not (equal asset_type (codes "ETF")))
        || not (equal currency currency_usd))
      asset_financially_ineligible
  fail_if (not (is_listed exchange)) asset_financially_ineligible
  ok (record { id = id; asset_type = asset_type; exchange = exchange; currency = currency })

unfoldable pub asset_is_valid : AssetSnapshot → Bool
asset_is_valid asset =
    is_ok (new_asset_snapshot asset.id asset.asset_type asset.exchange asset.currency)

-- `==` on two snapshots
unfoldable pub same_asset : AssetSnapshot → AssetSnapshot → Bool
unfolding equal
same_asset a b =
    a.id == b.id
    && equal a.asset_type b.asset_type
    && equal a.exchange b.exchange
    && equal a.currency b.currency
