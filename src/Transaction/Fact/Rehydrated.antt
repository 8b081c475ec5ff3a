-- ===== src/Transaction/Fact/Rehydrated.antt =====
-- What `RehydrateTransaction` of backend/internal/transaction/domain/transaction.go lets through.
use mathlib.Core.Path.{subst}
use ai_portfolio_research_as.Prelude.{
  sym, ◌≡◌, ◌≢◌, ◌≤◌, ◌⊎◌, refl, arith, true, false, ok, is_ok, ap,
}
use ai_portfolio_research_as.Prelude.Int.{pos, ◌≤ℤ◌}
use ai_portfolio_research_as.Text.{equal}
use ai_portfolio_research_as.Transaction.Kind.{
  Kind, is_reversal, is_public_creatable, unknown, check_kind,
}
use ai_portfolio_research_as.Transaction.Value.{currency_usd, asset_is_valid}
use ai_portfolio_research_as.Transaction.Fact.Amounts.{HasAmountsOf, amounts_facts}
use ai_portfolio_research_as.Transaction.Fact.{
  TransactionState, Transaction, rehydrate_transaction, has_shape, bad_header, bad_asset,
  refers_to_itself, bad_links,
}

-- The fact that comes back is the state that went in.
pub rehydrate-state :
    (s : TransactionState) (t : Transaction) → rehydrate_transaction s ≡ ok t → t.state ≡ s
unfolding rehydrate_transaction
rehydrate-state s t h = ground arith

-- The identity, the times and the links of an accepted fact.
pub record IsFact (s : TransactionState) : Type 0 where
  pub identified : s.id ≢ 0
  pub in_portfolio : s.portfolio_id ≢ 0
  pub created : s.created_by ≢ 0
  pub sequenced : pos 1 ≤ℤ s.portfolio_sequence
  pub in_order : s.effective_at ≤ s.created_at
  pub in_dollars : equal s.currency currency_usd ≡ true
  pub known : s.kind ≢ unknown
  pub asset_if_present : s.has_asset ≡ asset_is_valid s.asset
  pub not_own_reversal : s.reversal_of ≢ s.id
  pub not_own_correction : s.correction_of ≢ s.id
  pub reversal_links :
      is_reversal s.kind ≡ true
      → (s.reversal_of ≢ 0)
        × (s.correction_of ≡ 0)
        × (s.originating_correction ≢ 0)
        × (s.note.present ≡ false)
        × (s.external_reference.present ≡ false)
  pub other_links :
      is_reversal s.kind ≡ false
      → (s.reversal_of ≡ 0)
        × (((s.correction_of ≡ 0) × (s.originating_correction ≡ 0))
            ⊎ ((s.correction_of ≢ 0) × (s.originating_correction ≢ 0)))
  pub amounts : HasAmountsOf s.kind s

header_facts :
    (s : TransactionState)
    → bad_header s ≡ false
    → (s.id ≢ 0)
      × (s.portfolio_id ≢ 0)
      × (s.created_by ≢ 0)
      × (pos 1 ≤ℤ s.portfolio_sequence)
      × (s.effective_at ≤ s.created_at)
      × (equal s.currency currency_usd ≡ true)
unfolding bad_header
header_facts s h = ground arith

asset_facts : (s : TransactionState) → bad_asset s ≡ false → s.has_asset ≡ asset_is_valid s.asset
unfolding bad_asset
asset_facts s h = ground arith

own_facts :
    (s : TransactionState)
    → refers_to_itself s ≡ false
    → s.id ≢ 0
    → (s.reversal_of ≢ s.id) × (s.correction_of ≢ s.id)
unfolding refers_to_itself
own_facts s h n = ground arith

reversal_facts :
    (s : TransactionState)
    → bad_links s ≡ false
    → is_reversal s.kind ≡ true
    → (s.reversal_of ≢ 0)
      × (s.correction_of ≡ 0)
      × (s.originating_correction ≢ 0)
      × (s.note.present ≡ false)
      × (s.external_reference.present ≡ false)
unfolding bad_links
reversal_facts s h r = let k = rw r at h in ground arith

other_facts :
    (s : TransactionState)
    → bad_links s ≡ false
    → is_reversal s.kind ≡ false
    → (s.reversal_of ≡ 0)
      × (((s.correction_of ≡ 0) × (s.originating_correction ≡ 0))
          ⊎ ((s.correction_of ≢ 0) × (s.originating_correction ≢ 0)))
unfolding bad_links
other_facts s h r = let k = rw r at h in ground arith

guards :
    (s : TransactionState)
    → is_ok (rehydrate_transaction s) ≡ true
    → (bad_header s ≡ false)
      × (is_ok (check_kind s.kind) ≡ true)
      × (bad_asset s ≡ false)
      × (refers_to_itself s ≡ false)
      × (bad_links s ≡ false)
      × (has_shape s.kind s ≡ true)
unfolding rehydrate_transaction
guards s h = ground arith

known_facts : (kind : Kind) → is_ok (check_kind kind) ≡ true → kind ≢ unknown
known_facts kind h = ground arith

-- An accepted fact is identified, sequenced, in order and in dollars, has an eligible asset or none,
-- is not its own reversal or correction, and has the links and the amounts of its kind.
pub rehydrate-IsFact : (s : TransactionState) → is_ok (rehydrate_transaction s) ≡ true → IsFact s
rehydrate-IsFact s h =
    let (header, kind, asset, own, links, shape) = guards s h in
    let (id, portfolio, created, sequence, order, dollars) = header_facts s header in
    let (reversal_other, correction_other) = own_facts s own id in
    record {
      identified = id;
      in_portfolio = portfolio;
      created = created;
      sequenced = sequence;
      in_order = order;
      in_dollars = dollars;
      known = known_facts s.kind kind;
      asset_if_present = asset_facts s asset;
      not_own_reversal = reversal_other;
      not_own_correction = correction_other;
      reversal_links = reversal_facts s links;
      other_links = other_facts s links;
      amounts = amounts_facts s.kind s (known_facts s.kind kind) shape;
    }

public_kind : (kind : Kind) → is_public_creatable kind ≡ true → is_ok (check_kind kind) ≡ true
public_kind kind h = ground arith

-- A state that passes every guard comes back as a fact.
pub rehydrate-passed :
    (s : TransactionState)
    → bad_header s ≡ false
    → is_public_creatable s.kind ≡ true
    → bad_asset s ≡ false
    → refers_to_itself s ≡ false
    → bad_links s ≡ false
    → has_shape s.kind s ≡ true
    → rehydrate_transaction s ≡ ok (record { state = s })
unfolding rehydrate_transaction
rehydrate-passed s header kind asset own links shape =
    rw header (rw (public_kind s.kind kind) (rw asset (rw own (rw links (rw shape refl)))))

-- A fact that RehydrateTransaction returns is identified, sequenced, in order and in dollars, has
-- an eligible asset or none, is not its own reversal or correction, and has the links and the
-- amounts of its kind: a trade a quantity and a price that stand for numbers above zero and fees
-- of at least zero, cash an amount above zero, and neither of them the fields of the other.
pub accepted-IsFact :
    (s : TransactionState) (t : Transaction) → rehydrate_transaction s ≡ ok t → IsFact t.state
accepted-IsFact s t h = subst IsFact (sym (rehydrate-state s t h)) (rehydrate-IsFact s (ap is_ok h))
