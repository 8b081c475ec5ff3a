-- ===== src/Tests.antt =====
-- Concrete inputs of the modelled code, and the theorems at them.
mod Ledger
mod Facts
mod Sessions
mod Platform
mod Portfolios
mod Records
mod Service
mod Accounts
mod Limits
mod Shelves
mod Catalog
mod Proxies
mod Cursors
pub mod Data
pub mod Memory
