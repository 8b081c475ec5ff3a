-- ===== src/Tests/Data.antt =====
-- Facts, commands, sessions and portfolios for the tests.
use ai_portfolio_research_as.Prelude.{ℕ, true}
use ai_portfolio_research_as.Prelude.Int.{pos}
use ai_portfolio_research_as.Prelude.Time.{Instant}
use ai_portfolio_research_as.Text.{Bytes, codes}
use ai_portfolio_research_as.Transaction.Kind.{Kind, buy, sell}
use ai_portfolio_research_as.Transaction.Decimal.{Decimal, no_decimal}
use ai_portfolio_research_as.Transaction.Value.{AssetSnapshot, currency_usd, no_text}
use ai_portfolio_research_as.Transaction.Fact.{Transaction}
use ai_portfolio_research_as.Transaction.Command.{CommandContext}

abbrev pub decimal : Bytes → Decimal
decimal s = record { canonical = s }

abbrev pub ten : Decimal
ten = decimal (codes "10")

abbrev pub four : Decimal
four = decimal (codes "4")

abbrev pub price : Decimal
price = decimal (codes "12.5")

abbrev pub no_fee : Decimal
no_fee = decimal (codes "0")

abbrev pub monday : Instant
monday = 9223372036854775807000000000

abbrev pub tuesday : Instant
tuesday = 9223372036941175807000000000

abbrev pub share : AssetSnapshot
share = record {
  id = 7;
  asset_type = codes "EQUITY";
  exchange = codes "NASDAQ";
  currency = currency_usd;
}

abbrev pub trade : ℕ → Kind → Decimal → Instant → Transaction
trade id kind quantity at = record {
  state = record {
    id = id;
    portfolio_id = 1;
    created_by = 2;
    kind = kind;
    asset = share;
    has_asset = true;
    quantity = quantity;
    unit_price = price;
    fee_paid = no_fee;
    amount = no_decimal;
    currency = currency_usd;
    effective_at = at;
    portfolio_sequence = pos id;
    note = no_text;
    external_reference = no_text;
    reversal_of = 0;
    correction_of = 0;
    originating_correction = 0;
    created_at = tuesday;
  };
}

abbrev pub bought : Transaction
bought = trade 11 buy ten monday

abbrev pub sold : Transaction
sold = trade 12 sell four tuesday

abbrev pub oversold : Transaction
oversold = trade 12 sell (decimal (codes "16")) tuesday

abbrev pub context : CommandContext
context = record {
  currency = currency_usd;
  effective_at = monday;
  now = tuesday;
  note = no_text;
  external_reference = no_text;
}
