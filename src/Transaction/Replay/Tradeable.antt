-- ===== src/Transaction/Replay/Tradeable.antt =====
-- The kinds of the facts that move a holding in backend/internal/transaction/domain/replay.go.
use ai_portfolio_research_as.Prelude.{◌≡◌, ◌≢◌, refl, arith, true, false, is_ok}
use ai_portfolio_research_as.Transaction.Kind.{
  Kind, buy, sell, dividend, deposit, withdrawal, fee, reversal, unknown,
}
use ai_portfolio_research_as.Transaction.Decimal.{is_valid}
use ai_portfolio_research_as.Transaction.Fact.{
  TransactionState, rehydrate_transaction, has_shape, is_asset_cash, is_portfolio_cash,
}
use ai_portfolio_research_as.Transaction.Replay.Positions.{is_tradeable}

cash_has_no_quantity : (s : TransactionState) → is_asset_cash s ≡ true → is_valid s.quantity ≡ false
unfolding is_asset_cash
cash_has_no_quantity s h = ground arith

cash_has_no_asset : (s : TransactionState) → is_portfolio_cash s ≡ true → s.has_asset ≡ false
unfolding is_portfolio_cash
cash_has_no_asset s h = ground arith

-- A fact of an asset with a quantity is of a kind that the last loop handles.
pub shape_tradeable :
    (kind : Kind) (s : TransactionState)
    → has_shape kind s ≡ true
    → kind ≢ unknown
    → s.has_asset ≡ true
    → is_valid s.quantity ≡ true
    → is_tradeable kind ≡ true
unfolding has_shape
shape_tradeable buy s h n a q = refl
shape_tradeable sell s h n a q = refl
shape_tradeable reversal s h n a q = refl
shape_tradeable dividend s h n a q = cc (cash_has_no_quantity s h)
shape_tradeable deposit s h n a q = cc (cash_has_no_asset s h)
shape_tradeable withdrawal s h n a q = cc (cash_has_no_asset s h)
shape_tradeable fee s h n a q = cc (cash_has_no_asset s h)
shape_tradeable unknown s h n a q = absurd (n refl)

pub valid_shape :
    (s : TransactionState)
    → is_ok (rehydrate_transaction s) ≡ true
    → (has_shape s.kind s ≡ true) × (s.kind ≢ unknown)
unfolding rehydrate_transaction
valid_shape s h = ground arith
