-- ===== src/Transaction/Service/Ports.antt =====
-- The ports of backend/internal/transaction/application/ports.go over an unknown store. The clock
-- and the identifiers are read from the store too. What the ports promise is `IsLawful`.
use mathlib.Core.List.{Perm}
use ai_portfolio_research_as.Prelude.{
  All, ◌≡◌, ℕ, Bool, true, List, [], ◌∷◌, ◌++◌, Option, Result, ok, if◌then◌else◌, ◌&&◌,
}
use ai_portfolio_research_as.Prelude.Int.{ℤ}
use ai_portfolio_research_as.Prelude.Time.{Instant}
use ai_portfolio_research_as.Prelude.Actions.{Action}
use ai_portfolio_research_as.Text.{Bytes}
use ai_portfolio_research_as.Asset.{Asset}
use ai_portfolio_research_as.Platform.Audit.{AuditRecord}
use ai_portfolio_research_as.Platform.Outbox.{Event}
use ai_portfolio_research_as.Portfolio.Record.{Portfolio}
use ai_portfolio_research_as.Transaction.Value.{Uuid}
use ai_portfolio_research_as.Transaction.Fact.{Transaction}
use ai_portfolio_research_as.Transaction.Correction.{Correction, CorrectionFacts}
use ai_portfolio_research_as.Transaction.Replay.Positions.{HasQuantity}
use ai_portfolio_research_as.Transaction.Replay.{has_id, ids_of, key_of, same_key}
use ai_portfolio_research_as.Transaction.Service.{ServiceError, CommandInput}

-- `CreateScope` and `CorrectScope`
pub data Scope : Type 0 where
  create_scope correct_scope : Scope

-- what `Result` of the package holds
pub record Recorded : Type 0 where
  pub transaction : Transaction
  pub correction : Option CorrectionFacts

-- the fingerprint is the number of its 32 bytes
pub record Idempotency : Type 0 where
  pub fingerprint : ℕ
  pub primary_id : Uuid
  pub correction_id : Uuid

-- `absent` is each not-found or invalid-input error of the reader's package.
pub data ReadError : Type 0 where
  absent : ReadError
  unreadable : ℕ → ReadError

pub record Ports (S : Type 0) : Type 0 where
  pub now : S → Instant × S
  pub new_id : S → Result ℕ Uuid × S
  pub digest : Scope → Uuid → CommandInput → ℕ
  pub get_portfolio : Uuid → Uuid → S → Result ReadError Portfolio
  pub get_asset : Uuid → Uuid → S → Result ReadError Asset
  pub lock_key : Uuid → Scope → Bytes → S → Result ServiceError (Unit {0})
  pub idempotency : Uuid → Scope → Bytes → Instant → Action S ServiceError (Option Idempotency)
  pub complete :
      Uuid → Scope → Bytes → ℕ → Uuid → Recorded → Instant → Action S ServiceError (Unit {0})
  pub allocate : Uuid → Bool → Action S ServiceError (ℤ × ℤ)
  pub replay : Uuid → Uuid → S → Result ServiceError (List Transaction)
  pub get : Uuid → Uuid → S → Result ServiceError Transaction
  pub direct_correction : Uuid → Uuid → S → Result ServiceError (Option Correction)
  pub find_correction : Uuid → Uuid → S → Result ServiceError CorrectionFacts
  pub insert : Transaction → Action S ServiceError (Unit {0})
  pub insert_correction : Correction → Action S ServiceError (Unit {0})
  pub append_audit : AuditRecord → Action S ℕ (Unit {0})
  pub append_rejection : AuditRecord → Action S ℕ (Unit {0})
  pub append_event : Event → Action S ℕ (Unit {0})
  -- `WithinTransaction`: the beginning and the end of a transaction, and the store that a rollback
  -- leaves of the store before it and the store at its end
  pub begin : S → Result ServiceError (Unit {0})
  pub commit : S → Result ServiceError (Unit {0})
  pub rollback : S → S → S

-- the table of facts, by portfolio and asset
abbrev pub Rows : Type 0 → Type 0
Rows S = S → Uuid → Uuid → List Transaction

-- the rows of an asset with a new fact
abbrev pub with_row : Transaction → Uuid → Uuid → List Transaction → List Transaction
with_row t portfolio_id asset_id rows =
    if t.state.has_asset && same_key (portfolio_id, asset_id) (key_of t)
    then rows ++ (t ∷ [])
    else rows

-- What the service relies on: facts are inserted and never changed, a replay reads all facts of an
-- asset with their canonical quantities, a fact that is read and has an asset is among them, and a
-- rollback undoes the rest.
pub record IsLawful {S : Type 0} (ports : Ports S) (rows : Rows S) : Type 0 where
  pub now-rows : (s : S) → rows (ports.now s).1 ≡ rows s
  pub new_id-rows : (s : S) → rows (ports.new_id s).1 ≡ rows s
  pub idempotency-rows :
      (p : Uuid) (c : Scope) (k : Bytes) (at : Instant) (s : S)
      → rows (ports.idempotency p c k at s).1 ≡ rows s
  pub complete-rows :
      (p : Uuid) (c : Scope) (k : Bytes) (d : ℕ) (t : Uuid) (r : Recorded) (at : Instant) (s : S)
      → rows (ports.complete p c k d t r at s).1 ≡ rows s
  pub allocate-rows : (p : Uuid) (both : Bool) (s : S) → rows (ports.allocate p both s).1 ≡ rows s
  pub insert_correction-rows :
      (c : Correction) (s : S) → rows (ports.insert_correction c s).1 ≡ rows s
  pub append_audit-rows : (r : AuditRecord) (s : S) → rows (ports.append_audit r s).1 ≡ rows s
  pub append_rejection-rows :
      (r : AuditRecord) (s : S) → rows (ports.append_rejection r s).1 ≡ rows s
  pub append_event-rows : (e : Event) (s : S) → rows (ports.append_event e s).1 ≡ rows s
  pub rollback-rows : (s s' : S) → rows (ports.rollback s s') ≡ rows s
  pub insert-rows :
      (t : Transaction) (s s' : S)
      → ports.insert t s ≡ (ok tt, s')
      → (p a : Uuid) → Perm (rows s' p a) (with_row t p a (rows s p a))
  pub replay-rows :
      (p a : Uuid) (s : S) (ts : List Transaction)
      → ports.replay p a s ≡ ok ts
      → Perm (rows s p a) ts
  pub replay-quantities :
      (p a : Uuid) (s : S) (ts : List Transaction) → ports.replay p a s ≡ ok ts → All HasQuantity ts
  pub get-portfolio :
      (p id : Uuid) (s : S) (t : Transaction)
      → ports.get p id s ≡ ok t
      → (t.state.id ≡ id) × (t.state.portfolio_id ≡ p)
  pub get-replay :
      (p id : Uuid) (s : S) (t : Transaction) (ts : List Transaction)
      → ports.get p id s ≡ ok t
      → t.state.has_asset ≡ true
      → ports.replay p t.state.asset.id s ≡ ok ts
      → has_id id (ids_of ts) ≡ true
