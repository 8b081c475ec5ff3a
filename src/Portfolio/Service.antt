-- ===== src/Portfolio/Service.antt =====
-- backend/internal/portfolio/application/service.go, ports.go and errors.go: portfolios of an
-- authenticated owner, over the repository. A principal is its user identifier, 0 when nobody is
-- authenticated.
pub mod Owned
use ai_portfolio_research_as.Prelude.{
  ℕ, Bool, true, false, List, Result, ok, err, fail_if, if◌then◌else◌,
}
use ai_portfolio_research_as.Prelude.Time.{Instant, utc}
use ai_portfolio_research_as.Prelude.Actions.{Action, lift, pure, reads, rename_error, ◌>>=◌, ◌>>◌}
use ai_portfolio_research_as.Text.{Bytes}
use ai_portfolio_research_as.Transaction.Value.{Uuid, is_zero}
use ai_portfolio_research_as.Portfolio.Name.{PortfolioError, PortfolioName, new_portfolio_name}
use ai_portfolio_research_as.Portfolio.Record.{
  Portfolio, PortfolioStatus, parse_base_currency, check_portfolio_status, new_portfolio,
  is_archived,
}

-- `store_failure` is any other error of the repository, with its number.
pub data PortfolioServiceError : Type 0 where
  unauthenticated invalid_portfolio_input portfolio_not_found : PortfolioServiceError
  portfolio_is_archived persistence_conflict service_unavailable : PortfolioServiceError
  store_failure : ℕ → PortfolioServiceError

pub record PortfolioPorts (S : Type 0) : Type 0 where
  pub now : S → Instant × S
  pub new_id : Action S ℕ Uuid
  pub store : Portfolio → Action S PortfolioServiceError Portfolio
  pub find_owned : Uuid → Uuid → S → Result PortfolioServiceError Portfolio
  pub list_owned : Uuid → PortfolioStatus → S → Result PortfolioServiceError (List Portfolio)
  pub update_active_name :
      Uuid → Uuid → PortfolioName → Instant → Action S PortfolioServiceError Portfolio
  pub archive_active : Uuid → Uuid → Instant → Action S PortfolioServiceError Portfolio

-- `ownerFromPrincipal`
unfoldable pub owner_from_principal : Uuid → Result PortfolioServiceError Uuid
owner_from_principal principal = if is_zero principal then err unauthenticated else ok principal

abbrev pub as_input : {A : Type 0} → Result PortfolioError A → Result PortfolioServiceError A
as_input = rename_error (λ _. invalid_portfolio_input)

-- the last part of `UpdatePortfolio`, on the portfolio that no update has found
unfoldable pub not_updated :
    Result PortfolioServiceError Portfolio → Result PortfolioServiceError Portfolio
not_updated (err e) = err e
not_updated (ok existing) =
    if is_archived existing then err portfolio_is_archived else err persistence_conflict

-- the last part of `ArchivePortfolio`
unfoldable pub not_archived :
    Result PortfolioServiceError Portfolio → Result PortfolioServiceError Portfolio
not_archived (err e) = err e
not_archived (ok existing) = if is_archived existing then ok existing else err persistence_conflict

module _ {S : Type 0} (ports : PortfolioPorts S) where
  unfoldable pub clock_now : Action S PortfolioServiceError Instant
  clock_now s = let (t, s') = ports.now s in (ok (utc t), s')

  unfoldable pub next_portfolio_id : Action S PortfolioServiceError Uuid
  next_portfolio_id s =
      let (r, s') = ports.new_id s in (rename_error (λ _. service_unavailable) r, s')

  -- a change that finds no active portfolio is explained by the portfolio that is there
  unfoldable pub or_explained :
      (Result PortfolioServiceError Portfolio → Result PortfolioServiceError Portfolio)
      → Uuid
      → Uuid
      → Result PortfolioServiceError Portfolio
      → Action S PortfolioServiceError Portfolio
  or_explained explain owner id (err portfolio_not_found) s =
      (explain (ports.find_owned owner id s), s)
  or_explained explain owner id r s = (r, s)

  abbrev pub explained :
      (Result PortfolioServiceError Portfolio → Result PortfolioServiceError Portfolio)
      → Uuid
      → Uuid
      → Action S PortfolioServiceError Portfolio
      → Action S PortfolioServiceError Portfolio
  explained explain owner id change s = let (r, s') = change s in or_explained explain owner id r s'

  unfoldable pub create_portfolio : Uuid → Bytes → Bytes → Action S PortfolioServiceError Portfolio
  create_portfolio principal raw_name raw_currency = do
    owner ← lift (owner_from_principal principal)
    name ← lift (as_input (new_portfolio_name raw_name))
    currency ← lift (as_input (parse_base_currency raw_currency))
    id ← next_portfolio_id
    now ← clock_now
    portfolio ← lift (as_input (new_portfolio id owner name currency now))
    ports.store portfolio

  unfoldable pub list_portfolios :
      Uuid → PortfolioStatus → Action S PortfolioServiceError (List Portfolio)
  list_portfolios principal status = do
    owner ← lift (owner_from_principal principal)
    _ ← lift (as_input (check_portfolio_status status))
    reads (ports.list_owned owner status)

  unfoldable pub get_portfolio : Uuid → Uuid → Action S PortfolioServiceError Portfolio
  get_portfolio principal id = do
    owner ← lift (owner_from_principal principal)
    lift (fail_if (is_zero id) invalid_portfolio_input)
    reads (ports.find_owned owner id)

  unfoldable pub update_portfolio : Uuid → Uuid → Bytes → Action S PortfolioServiceError Portfolio
  update_portfolio principal id raw_name = do
    owner ← lift (owner_from_principal principal)
    lift (fail_if (is_zero id) invalid_portfolio_input)
    name ← lift (as_input (new_portfolio_name raw_name))
    now ← clock_now
    explained not_updated owner id (ports.update_active_name owner id name now)

  unfoldable pub archive_portfolio : Uuid → Uuid → Action S PortfolioServiceError Portfolio
  archive_portfolio principal id = do
    owner ← lift (owner_from_principal principal)
    lift (fail_if (is_zero id) invalid_portfolio_input)
    now ← clock_now
    explained not_archived owner id (ports.archive_active owner id now)
