-- ===== src/Tests/Shelves.antt =====
-- Runs of backend/internal/portfolio/application/service.go over a store of one portfolio.
use ai_portfolio_research_as.Prelude.{
  ◌≡◌, ◌≢◌, refl, ap, sym, ◌∙◌, arith, ℕ, Bool, true, false, ◌&&◌, List, [], ◌∷◌, Result, ok, err,
  ◌==◌, if◌then◌else◌,
}
use ai_portfolio_research_as.Prelude.Time.{Instant}
use ai_portfolio_research_as.Transaction.Value.{Uuid}
use ai_portfolio_research_as.Portfolio.Record.{Portfolio, archived, is_archived}
use ai_portfolio_research_as.Portfolio.Service.{
  PortfolioServiceError, portfolio_not_found, PortfolioPorts, archive_portfolio,
}
use ai_portfolio_research_as.Portfolio.Service.Owned.{ReturnsOwned, archive_portfolio-archived}
use ai_portfolio_research_as.Tests.Data.{tuesday}
use ai_portfolio_research_as.Tests.Memory.{home}

abbrev shelved_at : Instant → Portfolio → Portfolio
shelved_at at p = record p {
  status = archived;
  archived_at = at;
  has_archived_at = true;
  updated_at = at;
}

-- the portfolio, if it is the one that is asked for
unfoldable owned_by : Uuid → Uuid → Portfolio → Result PortfolioServiceError Portfolio
owned_by owner id p = if p.id == id && p.owner_id == owner then ok p else err portfolio_not_found

abbrev shelf_ports : PortfolioPorts Portfolio
shelf_ports = record {
  now = λ s. (tuesday, s);
  new_id = λ s. (ok 9, s);
  store = λ p s. (ok p, p);
  find_owned = λ owner id s. owned_by owner id s;
  list_owned = λ owner status s. ok (s ∷ []);
  update_active_name = λ owner id name at s. (owned_by owner id s, s);
  archive_active = λ owner id at s. (owned_by owner id (shelved_at at s), shelved_at at s);
}

owned_by-ok :
    (owner id : Uuid) (q p : Portfolio)
    → owned_by owner id q ≡ ok p
    → (q ≡ p) × (p.id ≡ id) × (p.owner_id ≡ owner)
unfolding owned_by
owned_by-ok owner id q p h = ground arith

shelf-ReturnsOwned : ReturnsOwned shelf_ports
shelf-ReturnsOwned = record {
  find_owned-owned = λ owner id s p h. let (_, a, b) = owned_by-ok owner id s p h in (a, b);
  archive_active-archived = λ owner id at s s' p h.
      let (same, a, b) =
        owned_by-ok owner id (shelved_at at s) p
          (ap (λ (x : Result PortfolioServiceError Portfolio × Portfolio). x.0) h) in
      (a, b, ap is_archived (sym same));
}

-- The run, computed.
shelf_runs :
    archive_portfolio shelf_ports 2 1 home ≡ (ok (shelved_at tuesday home), shelved_at tuesday home)
unfolding ai_portfolio_research_as.Text.equal ai_portfolio_research_as.Text.all_digits
    ai_portfolio_research_as.Text.split ai_portfolio_research_as.Text.trim_right
    ai_portfolio_research_as.Tests.Shelves.owned_by ai_portfolio_research_as.Prelude.Actions.◌>>=◌
    ai_portfolio_research_as.Prelude.Int.◌+ℤ◌ ai_portfolio_research_as.Prelude.Int.◌-ℤ◌
    ai_portfolio_research_as.Prelude.Time.zero_time
    ai_portfolio_research_as.Prelude.Transactions.committed
    ai_portfolio_research_as.Prelude.Transactions.transaction_end
    ai_portfolio_research_as.Prelude.Transactions.begun
    ai_portfolio_research_as.Prelude.Transactions.bracketed
    ai_portfolio_research_as.Text.Digits.value ai_portfolio_research_as.Text.Digits.unsigned
    ai_portfolio_research_as.Text.Digits.digits ai_portfolio_research_as.Text.Digits.numeral
    ai_portfolio_research_as.Text.Blank.is_blank ai_portfolio_research_as.Text.Utf8.valid_string
    ai_portfolio_research_as.Text.Utf8.rune_count
    ai_portfolio_research_as.Portfolio.Service.owner_from_principal
    ai_portfolio_research_as.Portfolio.Service.not_updated
    ai_portfolio_research_as.Portfolio.Service.not_archived
    ai_portfolio_research_as.Portfolio.Service.clock_now
    ai_portfolio_research_as.Portfolio.Service.next_portfolio_id
    ai_portfolio_research_as.Portfolio.Service.or_explained
    ai_portfolio_research_as.Portfolio.Service.create_portfolio
    ai_portfolio_research_as.Portfolio.Service.list_portfolios
    ai_portfolio_research_as.Portfolio.Service.get_portfolio
    ai_portfolio_research_as.Portfolio.Service.update_portfolio
    ai_portfolio_research_as.Portfolio.Service.archive_portfolio
    ai_portfolio_research_as.Portfolio.Name.trim_start
    ai_portfolio_research_as.Portfolio.Name.trim_end
    ai_portfolio_research_as.Portfolio.Name.trim_edge_whitespace
    ai_portfolio_research_as.Portfolio.Name.new_portfolio_name
    ai_portfolio_research_as.Portfolio.Record.parse_base_currency
    ai_portfolio_research_as.Portfolio.Record.portfolio_status_of_text
    ai_portfolio_research_as.Portfolio.Record.bad_archive
    ai_portfolio_research_as.Portfolio.Record.rehydrate_portfolio
    ai_portfolio_research_as.Portfolio.Record.new_portfolio
    ai_portfolio_research_as.Portfolio.Record.rename
    ai_portfolio_research_as.Portfolio.Record.archive
shelf_runs = refl

archive_portfolio-archived_example :
    (◌≢◌ {A = Uuid} 2 0)
    × ((shelved_at tuesday home).id ≡ 1)
    × ((shelved_at tuesday home).owner_id ≡ 2)
    × (is_archived (shelved_at tuesday home) ≡ true)
archive_portfolio-archived_example =
    archive_portfolio-archived shelf_ports shelf-ReturnsOwned 2 1 home (shelved_at tuesday home)
      (shelved_at tuesday home) shelf_runs
