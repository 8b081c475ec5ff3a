-- ===== src/Portfolio/Record.antt =====
-- backend/internal/portfolio/domain/portfolio.go and identifiers.go: a portfolio and its changes.
use ai_portfolio_research_as.Prelude.{
  ◌≡◌, ◌≢◌, ◌≤◌, arith, Bool, true, false, not, ◌||◌, Option, none, some, Result, ok, err, ◌>>=◌,
  ◌>>◌, fail_if, if◌then◌else◌,
}
use ai_portfolio_research_as.Prelude.Time.{Instant, zero_time, is_zero_time, before, after}
use ai_portfolio_research_as.Text.{Bytes, codes, is_empty, equal}
use ai_portfolio_research_as.Transaction.Value.{Uuid, is_zero, Currency, currency_usd}
use ai_portfolio_research_as.Portfolio.Name.{
  PortfolioError, PortfolioName, name_is_zero, invalid_base_currency, invalid_portfolio_status,
  invalid_portfolio, portfolio_archived,
}

unfoldable pub parse_base_currency : Bytes → Result PortfolioError Currency
parse_base_currency value =
    if equal value currency_usd then ok currency_usd else err invalid_base_currency

-- `other_status` is any text that is neither constant.
pub data PortfolioStatus : Type 0 where
  active archived other_status : PortfolioStatus

unfoldable pub portfolio_status_of_text : Bytes → PortfolioStatus
portfolio_status_of_text value =
    if equal value (codes "ACTIVE")
    then active
    else if equal value (codes "ARCHIVED")
    then archived
    else other_status

-- `ParsePortfolioStatus`
abbrev pub check_portfolio_status : PortfolioStatus → Result PortfolioError PortfolioStatus
check_portfolio_status other_status = err invalid_portfolio_status
check_portfolio_status status = ok status

pub record Portfolio : Type 0 where
  pub id : Uuid
  pub owner_id : Uuid
  pub name : PortfolioName
  pub base_currency : Currency
  pub status : PortfolioStatus
  pub archived_at : Instant
  pub has_archived_at : Bool
  pub created_at : Instant
  pub updated_at : Instant

-- the two tests of the time of archiving
unfoldable pub bad_archive : PortfolioStatus → Option Instant → Instant → Instant → Bool
bad_archive active none created updated = false
bad_archive active (some _) created updated = true
bad_archive archived none created updated = true
bad_archive archived (some t) created updated = before t created || after t updated
bad_archive other_status at created updated = false

abbrev pub archive_time : Option Instant → Instant
archive_time none = zero_time
archive_time (some t) = t

abbrev pub archive_given : Option Instant → Bool
archive_given none = false
archive_given (some _) = true

unfoldable pub rehydrate_portfolio :
    Uuid
    → Uuid
    → PortfolioName
    → Currency
    → PortfolioStatus
    → Option Instant
    → Instant
    → Instant
    → Result PortfolioError Portfolio
rehydrate_portfolio id owner_id name base_currency status archived_at created_at updated_at = do
  fail_if
      (is_zero id
        || is_zero owner_id
        || name_is_zero name
        || is_zero_time created_at
        || is_zero_time updated_at
        || before updated_at created_at)
      invalid_portfolio
  _ ← parse_base_currency base_currency
  _ ← check_portfolio_status status
  fail_if (bad_archive status archived_at created_at updated_at) invalid_portfolio
  ok (record {
    id = id;
    owner_id = owner_id;
    name = name;
    base_currency = base_currency;
    status = status;
    archived_at = archive_time archived_at;
    has_archived_at = archive_given archived_at;
    created_at = created_at;
    updated_at = updated_at;
  })

unfoldable pub new_portfolio :
    Uuid → Uuid → PortfolioName → Currency → Instant → Result PortfolioError Portfolio
new_portfolio id owner_id name base_currency created_at =
    rehydrate_portfolio id owner_id name base_currency active none created_at created_at

abbrev pub is_archived : Portfolio → Bool
is_archived p = elim p.status [ archived ↦ true | _ ↦ false ]

abbrev pub is_active : Portfolio → Bool
is_active p = elim p.status [ active ↦ true | _ ↦ false ]

unfoldable pub rename : Portfolio → PortfolioName → Instant → Result PortfolioError Portfolio
rename p name updated_at = do
  fail_if (is_archived p) portfolio_archived
  fail_if
      (not (is_active p)
        || name_is_zero name
        || is_zero_time updated_at
        || before updated_at p.updated_at)
      invalid_portfolio
  ok (record p { name = name; updated_at = updated_at })

unfoldable pub archive : Portfolio → Instant → Result PortfolioError Portfolio
archive p archived_at =
    if is_archived p
    then ok p
    else fail_if (not (is_active p) || is_zero_time archived_at || before archived_at p.updated_at)
        invalid_portfolio
      >> ok (record p {
        status = archived;
        archived_at = archived_at;
        has_archived_at = true;
        updated_at = archived_at;
      })

-- The invariant that every portfolio keeps.
pub record IsPortfolio (p : Portfolio) : Type 0 where
  pub identified : p.id ≢ 0
  pub owned : p.owner_id ≢ 0
  pub named : is_empty p.name.value ≡ false
  pub in_dollars : equal p.base_currency currency_usd ≡ true
  pub known : p.status ≢ other_status
  pub in_order : p.created_at ≤ p.updated_at
  pub open_while_active : p.status ≡ active → p.has_archived_at ≡ false
  pub closed_when_archived :
      p.status ≡ archived
      → (p.has_archived_at ≡ true) × (p.created_at ≤ p.archived_at) × (p.archived_at ≤ p.updated_at)

-- A portfolio that RehydratePortfolio returns is identified, owned, named and in dollars, and has
-- an archiving time, between its creation and its update, exactly in the archived state.
pub rehydrate-IsPortfolio :
    (id owner_id : Uuid) (name : PortfolioName) (currency : Currency) (status : PortfolioStatus)
    (archived_at : Option Instant) (created_at updated_at : Instant) (p : Portfolio)
    → rehydrate_portfolio id owner_id name currency status archived_at created_at updated_at ≡ ok p
    → IsPortfolio p
unfolding rehydrate_portfolio bad_archive parse_base_currency
rehydrate-IsPortfolio id owner_id name currency status archived_at created_at updated_at p h =
    ground arith

-- A successful Rename was asked of an active portfolio, keeps the invariant, and changes the name
-- and the time of the update alone.
pub rename-IsPortfolio :
    (p q : Portfolio) (name : PortfolioName) (at : Instant)
    → IsPortfolio p
    → rename p name at ≡ ok q
    → IsPortfolio q × (p.status ≡ active) × (q ≡ record p { name = name; updated_at = at })
unfolding rename
rename-IsPortfolio p q name at i h = ground (arith, i)

-- A successful Archive keeps the invariant and yields an archived portfolio, which every later
-- Rename refuses and every later Archive gives back as it is.
archive-IsPortfolio :
    (p q : Portfolio) (at : Instant)
    → IsPortfolio p
    → archive p at ≡ ok q
    → IsPortfolio q
      × (q.status ≡ archived)
      × ((name : PortfolioName) (later : Instant) → rename q name later ≡ err portfolio_archived)
      × ((later : Instant) → archive q later ≡ ok q)
unfolding archive rename
archive-IsPortfolio p q at i h = ground (arith, i)
