-- ===== src/Transaction/Service/Inputs.antt =====
-- What `normalize` and `resolveCommand` of backend/internal/transaction/application/command.go make
-- of the input of a command.
use ai_portfolio_research_as.Prelude.{◌≡◌, refl, inl, inr, ◌⊎◌, arith, true, false, ok, err}
use ai_portfolio_research_as.Prelude.Time.{Instant}
use ai_portfolio_research_as.Prelude.Int.{ℤ}
use ai_portfolio_research_as.Transaction.Errors.{Outcome}
use ai_portfolio_research_as.Transaction.Kind.{
  Kind, buy, sell, dividend, deposit, withdrawal, fee, reversal, unknown,
}
use ai_portfolio_research_as.Transaction.Value.{validate_effective_at, Uuid, AssetSnapshot}
use ai_portfolio_research_as.Transaction.Decimal.{Decimal, is_valid}
use ai_portfolio_research_as.Transaction.Decimal.Arithmetic.{IsCanonical}
use ai_portfolio_research_as.Transaction.Fact.{Transaction}
use ai_portfolio_research_as.Transaction.Fact.Rehydrated.{rehydrate-state}
use ai_portfolio_research_as.Transaction.Command.{
  Command, CommandContext, new_trade_command, new_dividend_command, new_cash_command,
  new_transaction_from_command, command_state,
}
use ai_portfolio_research_as.Transaction.Service.{
  CommandInput, normalize, normalize_fields, with_default_fee, command_of,
}

-- A quantity that is absent, or one that the package's parser has made.
abbrev pub IsGivenQuantity : Decimal → Type 0
IsGivenQuantity d = is_valid d ≡ true → IsCanonical d

normalize_fields-quantity :
    (kind : Kind) (input normalized : CommandInput)
    → normalize_fields kind input ≡ ok normalized
    → normalized.quantity ≡ input.quantity
unfolding normalize_fields with_default_fee
normalize_fields-quantity buy input normalized h = ground arith
normalize_fields-quantity sell input normalized h = ground arith
normalize_fields-quantity dividend input normalized h = ground arith
normalize_fields-quantity deposit input normalized h = ground arith
normalize_fields-quantity withdrawal input normalized h = ground arith
normalize_fields-quantity fee input normalized h = ground arith
normalize_fields-quantity reversal input normalized h = ground arith
normalize_fields-quantity unknown input normalized h = ground arith

-- with the outcome of the check of the effective time
normalize-quantity-at :
    (input normalized : CommandInput) (now : Instant) (r : Outcome Instant)
    → validate_effective_at input.effective_at now ≡ r
    → normalize input now ≡ ok normalized
    → normalized.quantity ≡ input.quantity
unfolding normalize
normalize-quantity-at input normalized now (err e) checked h = ground arith
normalize-quantity-at input normalized now (ok t) checked h =
    ground
      (arith, normalize_fields-quantity input.kind (record input { effective_at = t }) normalized)

pub normalize-quantity :
    (input normalized : CommandInput) (now : Instant)
    → normalize input now ≡ ok normalized
    → normalized.quantity ≡ input.quantity
normalize-quantity input normalized now = normalize-quantity-at input normalized now _ refl

command_of-quantity :
    (kind : Kind) (input : CommandInput) (a : AssetSnapshot) (x : CommandContext) (c : Command)
    → command_of kind input a x ≡ ok c
    → (c.quantity ≡ input.quantity) ⊎ (is_valid c.quantity ≡ false)
unfolding command_of new_trade_command new_dividend_command new_cash_command is_valid
command_of-quantity buy input a x c h = inl (ground arith)
command_of-quantity sell input a x c h = inl (ground arith)
command_of-quantity dividend input a x c h = inr (ground arith)
command_of-quantity deposit input a x c h = inr (ground arith)
command_of-quantity withdrawal input a x c h = inr (ground arith)
command_of-quantity fee input a x c h = inr (ground arith)
command_of-quantity reversal input a x c h = cc
command_of-quantity unknown input a x c h = cc

pub command_of-IsGivenQuantity :
    (kind : Kind) (input : CommandInput) (a : AssetSnapshot) (x : CommandContext) (c : Command)
    → command_of kind input a x ≡ ok c
    → IsGivenQuantity input.quantity
    → IsGivenQuantity c.quantity
command_of-IsGivenQuantity kind input a x c h given =
    elim (command_of-quantity kind input a x c h) [ inl e ↦ rw e given | inr e ↦ λ v. cc ]

pub fact-state :
    (id p actor : Uuid) (sequence : ℤ) (at : Instant) (c : Command) (t : Transaction)
    → new_transaction_from_command id p actor sequence at c ≡ ok t
    → t.state ≡ command_state id p actor sequence at c
unfolding new_transaction_from_command
fact-state id p actor sequence at c t h =
    ground (arith, rehydrate-state (command_state id p actor sequence at c) t)
