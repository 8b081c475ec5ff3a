-- ===== src/Lib.antt =====
-- The domain core of the portfolio research backend (backend/internal): an exact-decimal ledger
-- of immutable facts, the refresh sessions of its users, their portfolios, and the outbox worker.
--
-- Prelude, Text: shared tests, lists, results, signed integers and instants; Go strings as bytes.
-- Transaction/Decimal: transaction/domain/decimal.go. A decimal is its canonical text, and its
--   specification is the integer number of units of 10^-12. Kind, Value, Fact, Command: kind.go,
--   value.go, identifiers.go, transaction.go and command.go beside it. Command makes a command, and
--   Fact checks what becomes of it.
-- Transaction/Correction: correction.go; a correction is a reversal and a replacement.
-- Transaction/Service: transaction/application/service.go, command.go, ports.go and Get of
--   history.go. Ports is the interface to the store with its laws; Guards, Ledger, Evidence, Record
--   and Execute are the methods, with Prelude/Actions as the chain of calls and
--   Prelude/Transactions as the transaction around it. Consistency is the specification of the
--   table of facts, Keeps, Recorded, Inputs, Refinement and Atomicity relate the methods to it,
--   Invariant, Authority and Repeated state what they promise. Tests/Memory is a store that keeps
--   the laws.
-- Transaction/History: the pages of transaction/application/history.go, as the function that List
--   runs within its transaction.
-- Transaction/Replay: replay.go; the facts are checked, sorted and replayed, with decimals as
--   balances. Positions is the specification, with integers as holdings; Round and Stream relate
--   the loop to it, Checks describes the first two loops, Ledger the whole.
-- Identity: identity/domain/credential.go, identifiers.go and refresh_session.go. Operations has
--   the methods of a session, Lifecycle, Rotation and Revocation what they establish.
-- Identity/Service: identity/application/operations.go with the types beside it. Ports is the
--   interface to everything the service calls, Requests its helpers and the transaction, Access and
--   Refreshing its methods; Steps inverts their chains, Stored follows the table of sessions,
--   Granted and Rotated say to whom a session is granted, Revoked when a family of sessions ends.
--   Tests/Accounts is a store in memory.
-- Identity/RateLimit: identity/infrastructure/ratelimit/postgres.go over the table of its events.
-- Identity/Network: identity/infrastructure/network/resolver.go with the functions of net/netip as
--   a parameter; Sources says which address of a request it answers.
-- Portfolio: portfolio/domain/name.go and portfolio.go; Portfolio/Service:
--   portfolio/application/service.go, and Owned whose portfolios it returns.
-- Asset: asset/domain/asset.go; Asset/Service: asset/application/service.go, and Pages its pages;
--   User of Identity: user.go and principal.go.
-- Asset/Cursor: asset/transport/http/cursor.go with JSON, base 64 and the text of a UUID as a
--   parameter; Reading says which cursors are read back.
-- Platform: platform/audit/audit.go, platform/outbox/outbox.go and platform/worker/delivery.go. A
--   delivery is the list of its calls; the answers of publisher, store, clock, context and jitter
--   are parameters.
-- Tests: runs at concrete inputs.
--
-- All recursions are structural, so no fuel bounds a run, except that `digits` of Text/Digits
-- takes one step more than the number, which has fewer digits than that. A UUID is its 128-bit
-- number. The fingerprint of a command, a SHA-256 of a JSON text, is a port. Calls of the service
-- follow each other: the row lock that a call holds on its portfolio is taken for granted. A Go
-- map is an association list. `sort.Slice` of the library is an insertion sort here; Replay/Sorting
-- says how the two agree.
--
-- Not modelled: SQL and its generated code, HTTP handlers, configuration, cryptography,
-- lower-casing by the Unicode tables, the wrappers of persistence errors, and the web application.
pub mod Asset
pub mod Identity
pub mod Platform
pub mod Portfolio
pub mod Prelude
pub mod Tests
pub mod Text
pub mod Transaction
