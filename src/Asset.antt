-- ===== src/Asset.antt =====
-- backend/internal/asset/domain/asset.go: the reference metadata of an asset. Its edges are trimmed
-- of the same white space as those of the name of a portfolio.
pub mod Service
pub mod Cursor
use ai_portfolio_research_as.Prelude.{
  ◌≡◌, ◌≢◌, ◌≤◌, arith, Bool, true, false, not, ◌&&◌, ◌||◌, ℕ, Result, ok, err, ◌>>=◌, ◌>>◌,
  fail_if, leb, if◌then◌else◌,
}
use ai_portfolio_research_as.Prelude.Time.{Instant, is_zero_time, before}
use ai_portfolio_research_as.Text.{Bytes, codes, is_empty, equal}
use ai_portfolio_research_as.Text.Equality.{equal→eq}
use ai_portfolio_research_as.Text.Utf8.{valid_string, rune_count}
use ai_portfolio_research_as.Transaction.Value.{Uuid, is_zero, Currency, currency_usd}
use ai_portfolio_research_as.Portfolio.Name.{trim_edge_whitespace}

pub data AssetError : Type 0 where
  invalid_asset_id invalid_asset_type invalid_asset_currency invalid_asset : AssetError

-- `unknown_type` is any text that is none of the three constants.
pub data AssetType : Type 0 where
  equity etf crypto unknown_type : AssetType

unfoldable pub asset_type_of_text : Bytes → AssetType
asset_type_of_text value =
    if equal value (codes "EQUITY")
    then equity
    else if equal value (codes "ETF")
    then etf
    else if equal value (codes "CRYPTO")
    then crypto
    else unknown_type

-- `ParseAssetType`
abbrev pub check_asset_type : AssetType → Result AssetError AssetType
check_asset_type unknown_type = err invalid_asset_type
check_asset_type asset_type = ok asset_type

-- `ParseCurrency`
unfoldable pub parse_asset_currency : Bytes → Result AssetError Currency
parse_asset_currency value =
    if equal value currency_usd then ok currency_usd else err invalid_asset_currency

abbrev pub new_asset_id : Uuid → Result AssetError Uuid
new_asset_id value = if is_zero value then err invalid_asset_id else ok value

pub record Asset : Type 0 where
  pub id : Uuid
  pub symbol : Bytes
  pub name : Bytes
  pub asset_type : AssetType
  pub exchange : Bytes
  pub currency : Currency
  pub normalized_symbol : Bytes
  pub normalized_exchange : Bytes
  pub created_at : Instant
  pub updated_at : Instant

unfoldable pub valid_trimmed_display : Bytes → ℕ → Bool
valid_trimmed_display value maximum =
    valid_string value
    && not (is_empty value)
    && equal value (trim_edge_whitespace value)
    && leb (rune_count value) maximum

unfoldable pub valid_display_name : Bytes → Bool
valid_display_name value =
    valid_string value && not (is_empty (trim_edge_whitespace value)) && leb (rune_count value) 256

-- the first `if` of `RehydrateAsset`
unfoldable pub bad_asset_fields : Asset → Bool
bad_asset_fields a =
    is_zero a.id
    || not (valid_trimmed_display a.symbol 64)
    || not (valid_display_name a.name)
    || not (valid_trimmed_display a.exchange 64)
    || is_empty a.normalized_symbol
    || is_empty a.normalized_exchange
    || is_zero_time a.created_at
    || is_zero_time a.updated_at
    || before a.updated_at a.created_at

-- the last `if`
unfoldable pub bad_crypto : AssetType → Bytes → Bytes → Bool
bad_crypto crypto exchange normalized_exchange =
    not (equal exchange (codes "CRYPTO")) || not (equal normalized_exchange (codes "CRYPTO"))
bad_crypto _ exchange normalized_exchange = false

-- The arguments of `RehydrateAsset` are the fields of the asset that it returns.
unfoldable pub rehydrate_asset : Asset → Result AssetError Asset
rehydrate_asset a = do
  fail_if (bad_asset_fields a) invalid_asset
  _ ← check_asset_type a.asset_type
  _ ← parse_asset_currency a.currency
  fail_if (bad_crypto a.asset_type a.exchange a.normalized_exchange) invalid_asset
  ok a

-- The invariant of an asset.
pub record IsAsset (a : Asset) : Type 0 where
  pub identified : a.id ≢ 0
  pub symbol_trimmed : a.symbol ≡ trim_edge_whitespace a.symbol
  pub symbol_short : rune_count a.symbol ≤ 64
  pub exchange_trimmed : a.exchange ≡ trim_edge_whitespace a.exchange
  pub exchange_short : rune_count a.exchange ≤ 64
  pub name_short : rune_count a.name ≤ 256
  pub in_order : a.created_at ≤ a.updated_at
  pub known : a.asset_type ≢ unknown_type
  pub in_dollars : equal a.currency currency_usd ≡ true
  pub crypto_exchange :
      a.asset_type ≡ crypto
      → (equal a.exchange (codes "CRYPTO") ≡ true)
        × (equal a.normalized_exchange (codes "CRYPTO") ≡ true)

trimmed_facts :
    (s : Bytes) (n : ℕ)
    → valid_trimmed_display s n ≡ true
    → (equal s (trim_edge_whitespace s) ≡ true) × (rune_count s ≤ n)
unfolding valid_trimmed_display
trimmed_facts s n h = ground arith

name_facts : (s : Bytes) → valid_display_name s ≡ true → rune_count s ≤ 256
unfolding valid_display_name
name_facts s h = ground arith

field_facts :
    (a : Asset)
    → bad_asset_fields a ≡ false
    → (a.id ≢ 0)
      × (valid_trimmed_display a.symbol 64 ≡ true)
      × (valid_display_name a.name ≡ true)
      × (valid_trimmed_display a.exchange 64 ≡ true)
      × (a.created_at ≤ a.updated_at)
unfolding bad_asset_fields
field_facts a h = ground arith

-- An asset that RehydrateAsset returns has the fields that were read: a nonzero identifier, a
-- symbol and an exchange without white space at the edges and of at most 64 characters, a name of
-- at most 256, times in order, a known type, the dollar as currency, and the exchange CRYPTO for
-- the type CRYPTO.
pub rehydrate_asset-IsAsset : (a b : Asset) → rehydrate_asset a ≡ ok b → (b ≡ a) × IsAsset a
unfolding rehydrate_asset bad_crypto parse_asset_currency
rehydrate_asset-IsAsset a b h =
    let (id, symbol, name, exchange, order) = field_facts a (ground arith) in
    let (symbol_same, symbol_short) = trimmed_facts a.symbol 64 symbol in
    let (exchange_same, exchange_short) = trimmed_facts a.exchange 64 exchange in
    (
      ground arith,
      record {
        identified = id;
        symbol_trimmed = equal→eq a.symbol (trim_edge_whitespace a.symbol) symbol_same;
        symbol_short = symbol_short;
        exchange_trimmed = equal→eq a.exchange (trim_edge_whitespace a.exchange) exchange_same;
        exchange_short = exchange_short;
        name_short = name_facts a.name name;
        in_order = order;
        known = ground arith;
        in_dollars = ground arith;
        crypto_exchange = λ e. ground (arith, e);
      },
    )
