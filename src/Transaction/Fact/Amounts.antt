-- ===== src/Transaction/Fact/Amounts.antt =====
-- The amounts of a fact in backend/internal/transaction/domain/transaction.go, as the numbers that
-- they stand for.
use ai_portfolio_research_as.Prelude.{
  ◌≡◌, ◌≢◌, ◌⊎◌, inl, inr, refl, arith, Bool, true, false, not, ◌||◌, [], ◌∷◌,
}
use ai_portfolio_research_as.Prelude.Int.{ℤ, pos, ◌≤ℤ◌}
use ai_portfolio_research_as.Text.{Bytes, is_empty}
use ai_portfolio_research_as.Transaction.Kind.{
  Kind, buy, sell, dividend, deposit, withdrawal, fee, reversal, unknown,
}
use ai_portfolio_research_as.Transaction.Decimal.{Decimal, is_valid, is_positive, is_non_negative}
use ai_portfolio_research_as.Transaction.Decimal.Arithmetic.{Stands, sign-Stands}
use ai_portfolio_research_as.Transaction.Fact.{
  TransactionState, has_shape, is_trade, is_asset_cash, is_portfolio_cash,
}

-- What an amount of a fact says, by the number that it stands for.
pub record IsPositiveAmount (d : Decimal) : Type 0 where
  pub present : d.canonical ≢ []
  pub above_zero : (n : ℤ) → Stands d n → pos 1 ≤ℤ n

pub record IsNonNegativeAmount (d : Decimal) : Type 0 where
  pub present : d.canonical ≢ []
  pub from_zero : (n : ℤ) → Stands d n → pos 0 ≤ℤ n

-- the fields of a trade, and those of cash that is about an asset or about the portfolio alone
pub record IsTradeFact (s : TransactionState) : Type 0 where
  pub about : s.has_asset ≡ true
  pub quantity : IsPositiveAmount s.quantity
  pub price : IsPositiveAmount s.unit_price
  pub fees : IsNonNegativeAmount s.fee_paid
  pub no_amount : s.amount.canonical ≡ []

pub record IsCashFact (about_asset : Bool) (s : TransactionState) : Type 0 where
  pub about : s.has_asset ≡ about_asset
  pub amount : IsPositiveAmount s.amount
  pub no_quantity : s.quantity.canonical ≡ []
  pub no_price : s.unit_price.canonical ≡ []
  pub no_fees : s.fee_paid.canonical ≡ []

abbrev pub HasAmountsOf : Kind → TransactionState → Type 0
HasAmountsOf buy s = IsTradeFact s
HasAmountsOf sell s = IsTradeFact s
HasAmountsOf dividend s = IsCashFact true s
HasAmountsOf deposit s = IsCashFact false s
HasAmountsOf withdrawal s = IsCashFact false s
HasAmountsOf fee s = IsCashFact false s
HasAmountsOf reversal s = IsTradeFact s ⊎ IsCashFact true s ⊎ IsCashFact false s
HasAmountsOf unknown s = ⊥

present_facts : (d : Decimal) → is_valid d ≡ true → d.canonical ≢ []
unfolding is_valid
present_facts d h e = let empty = rw e at h in cc

absent_facts : (text : Bytes) → not (not (is_empty text)) ≡ true → text ≡ []
absent_facts [] h = refl
absent_facts (c ∷ text) h = cc

positive_facts : (d : Decimal) → is_positive d ≡ true → IsPositiveAmount d
positive_facts d h = record {
  present = present_facts d (unfold is_positive in ground (arith, h));
  above_zero = λ n stands. let sign = (sign-Stands d n stands).1 in ground (arith, sign, h);
}

non_negative_facts : (d : Decimal) → is_non_negative d ≡ true → IsNonNegativeAmount d
non_negative_facts d h = record {
  present = present_facts d (unfold is_non_negative in ground (arith, h));
  from_zero = λ n stands. let sign = (sign-Stands d n stands).0 in ground (arith, sign, h);
}

trade_facts : (s : TransactionState) → is_trade s ≡ true → IsTradeFact s
unfolding is_trade is_valid
trade_facts s h = record {
  about = ground (arith, h);
  quantity = positive_facts s.quantity (ground (arith, h));
  price = positive_facts s.unit_price (ground (arith, h));
  fees = non_negative_facts s.fee_paid (ground (arith, h));
  no_amount = absent_facts s.amount.canonical (ground (arith, h));
}

asset_cash_facts : (s : TransactionState) → is_asset_cash s ≡ true → IsCashFact true s
unfolding is_asset_cash is_valid
asset_cash_facts s h = record {
  about = ground (arith, h);
  amount = positive_facts s.amount (ground (arith, h));
  no_quantity = absent_facts s.quantity.canonical (ground (arith, h));
  no_price = absent_facts s.unit_price.canonical (ground (arith, h));
  no_fees = absent_facts s.fee_paid.canonical (ground (arith, h));
}

portfolio_cash_facts : (s : TransactionState) → is_portfolio_cash s ≡ true → IsCashFact false s
unfolding is_portfolio_cash is_valid
portfolio_cash_facts s h = record {
  about = ground (arith, h);
  amount = positive_facts s.amount (ground (arith, h));
  no_quantity = absent_facts s.quantity.canonical (ground (arith, h));
  no_price = absent_facts s.unit_price.canonical (ground (arith, h));
  no_fees = absent_facts s.fee_paid.canonical (ground (arith, h));
}

one_of_three : (a b c : Bool) → (a || b || c) ≡ true → (a ≡ true) ⊎ (b ≡ true) ⊎ (c ≡ true)
one_of_three true b c h = inl refl
one_of_three false true c h = inr (inl refl)
one_of_three false false c h = inr (inr h)

pub amounts_facts :
    (kind : Kind) (s : TransactionState)
    → kind ≢ unknown
    → has_shape kind s ≡ true
    → HasAmountsOf kind s
unfolding has_shape
amounts_facts buy s k h = trade_facts s h
amounts_facts sell s k h = trade_facts s h
amounts_facts dividend s k h = asset_cash_facts s h
amounts_facts deposit s k h = portfolio_cash_facts s h
amounts_facts withdrawal s k h = portfolio_cash_facts s h
amounts_facts fee s k h = portfolio_cash_facts s h
amounts_facts reversal s k h =
    elim (one_of_three (is_trade s) (is_asset_cash s) (is_portfolio_cash s) h) [
      | inl t ↦ inl (trade_facts s t)
      | inr (inl t) ↦ inr (inl (asset_cash_facts s t))
      | inr (inr t) ↦ inr (inr (portfolio_cash_facts s t))
    ]
amounts_facts unknown s k h = absurd (k refl)
