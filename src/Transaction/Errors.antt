-- ===== src/Transaction/Errors.antt =====
-- backend/internal/transaction/domain/errors.go.
use ai_portfolio_research_as.Prelude.{Result}

-- `nil_pointer` stands for the run-time panic of a method call on a nil `*big.Int`.
pub data DomainError : Type 0 where
  invalid_transaction_id invalid_correction_id invalid_transaction_kind : DomainError
  invalid_transaction_fields invalid_decimal invalid_currency invalid_effective_at : DomainError
  asset_financially_ineligible invalid_transaction transaction_not_correctable : DomainError
  transaction_already_corrected invalid_correction invalid_ledger : DomainError
  insufficient_ordered_quantity : DomainError
  nil_pointer : DomainError

pub DomainError-discrete : Discrete DomainError
DomainError-discrete = hlevel

abbrev pub Outcome : Type 0 → Type 0
Outcome A = Result DomainError A
