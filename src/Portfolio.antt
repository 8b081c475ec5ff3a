-- ===== src/Portfolio.antt =====
-- backend/internal/portfolio: the portfolios of a user.
pub mod Name
pub mod Record
pub mod Service
