-- ===== src/Tests/Portfolios.antt =====
-- Runs of backend/internal/portfolio/domain/name.go and portfolio.go.
use ai_portfolio_research_as.Prelude.{
  ◌≡◌, ◌≢◌, refl, arith, true, false, [], ◌∷◌, ◌++◌, ok, err, some, none, All,
}
use ai_portfolio_research_as.Prelude.Time.{Instant, zero_time}
use ai_portfolio_research_as.Text.{Bytes, codes}
use ai_portfolio_research_as.Transaction.Value.{currency_usd}
use ai_portfolio_research_as.Portfolio.Name.{
  PortfolioName, new_portfolio_name, trim_edge_whitespace, trim_edge_whitespace-split, IsSpace,
  starts_bare, ends_bare, portfolio_archived,
}
use ai_portfolio_research_as.Portfolio.Record.{
  Portfolio, IsPortfolio, active, archived, rehydrate_portfolio, rename, archive,
  rehydrate-IsPortfolio, rename-IsPortfolio,
}
use ai_portfolio_research_as.Tests.Data.{monday, tuesday}

abbrev name : PortfolioName
name = record { value = codes "Core  holdings" }

abbrev portfolio : Portfolio
portfolio = record {
  id = 1;
  owner_id = 2;
  name = name;
  base_currency = currency_usd;
  status = active;
  archived_at = 9223371966579724800000000000;
  has_archived_at = false;
  created_at = monday;
  updated_at = monday;
}

abbrev other_name : PortfolioName
other_name = record { value = codes "Growth" }

abbrev renamed : Portfolio
renamed = record portfolio { name = other_name; updated_at = tuesday }

abbrev shelved : Portfolio
shelved = record portfolio {
  status = archived;
  archived_at = tuesday;
  has_archived_at = true;
  updated_at = tuesday;
}

-- The runs, computed.
runs :
    (new_portfolio_name (codes "  Core  holdings ") ≡ ok name)
    × (rehydrate_portfolio 1 2 name currency_usd active none monday monday ≡ ok portfolio)
    × (rename portfolio other_name tuesday ≡ ok renamed)
    × (archive portfolio tuesday ≡ ok shelved)
unfolding ai_portfolio_research_as.Portfolio.Name.new_portfolio_name
    ai_portfolio_research_as.Portfolio.Name.trim_edge_whitespace
    ai_portfolio_research_as.Portfolio.Name.trim_end
    ai_portfolio_research_as.Portfolio.Name.trim_start
    ai_portfolio_research_as.Portfolio.Record.archive
    ai_portfolio_research_as.Portfolio.Record.bad_archive
    ai_portfolio_research_as.Portfolio.Record.new_portfolio
    ai_portfolio_research_as.Portfolio.Record.parse_base_currency
    ai_portfolio_research_as.Portfolio.Record.portfolio_status_of_text
    ai_portfolio_research_as.Portfolio.Record.rehydrate_portfolio
    ai_portfolio_research_as.Portfolio.Record.rename ai_portfolio_research_as.Prelude.Int.◌+ℤ◌
    ai_portfolio_research_as.Prelude.Int.◌-ℤ◌ ai_portfolio_research_as.Prelude.Time.zero_time
    ai_portfolio_research_as.Text.Blank.is_blank ai_portfolio_research_as.Text.Digits.digits
    ai_portfolio_research_as.Text.Digits.numeral ai_portfolio_research_as.Text.Digits.unsigned
    ai_portfolio_research_as.Text.Digits.value ai_portfolio_research_as.Text.Utf8.rune_count
    ai_portfolio_research_as.Text.Utf8.valid_string ai_portfolio_research_as.Text.all_digits
    ai_portfolio_research_as.Text.equal ai_portfolio_research_as.Text.split
    ai_portfolio_research_as.Text.trim_right
runs = (refl, refl, refl, refl)

named : new_portfolio_name (codes "  Core  holdings ") ≡ ok name
named = runs.0

opened : rehydrate_portfolio 1 2 name currency_usd active none monday monday ≡ ok portfolio
opened = runs.1

rehydrate-IsPortfolio_example : IsPortfolio portfolio
rehydrate-IsPortfolio_example =
    rehydrate-IsPortfolio 1 2 name currency_usd active none monday monday portfolio opened

renames : rename portfolio other_name tuesday ≡ ok renamed
renames = runs.2

portfolio-IsPortfolio : IsPortfolio portfolio
portfolio-IsPortfolio =
    rehydrate-IsPortfolio 1 2 name currency_usd active none monday monday portfolio opened

rename-IsPortfolio_example :
    IsPortfolio renamed
    × (portfolio.status ≡ active)
    × (renamed ≡ record portfolio { name = other_name; updated_at = tuesday })
rename-IsPortfolio_example =
    rename-IsPortfolio portfolio renamed other_name tuesday portfolio-IsPortfolio renames
