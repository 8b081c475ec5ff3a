-- ===== src/Transaction.antt =====
-- The ledger of a portfolio: backend/internal/transaction/domain.
pub mod Errors
pub mod Decimal
pub mod Kind
pub mod Value
pub mod Fact
pub mod Command
pub mod Correction
pub mod Replay
pub mod History
pub mod Service
