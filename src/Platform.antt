-- ===== src/Platform.antt =====
-- backend/internal/platform: the outbox and the worker that delivers it.
pub mod Outbox
pub mod Audit
pub mod Delivery
