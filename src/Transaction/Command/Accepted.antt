-- ===== src/Transaction/Command/Accepted.antt =====
-- Commands that the constructors of backend/internal/transaction/domain/command.go make, and the
-- facts that they become.
use ai_portfolio_research_as.Prelude.{
  ◌≡◌, ◌≢◌, ◌≤◌, ◌⊎◌, inl, inr, refl, arith, true, false, not, ok, is_ok, >>=-eq-ok, fail_if,
}
use ai_portfolio_research_as.Prelude.Int.{ℤ, pos, ◌≤ℤ◌}
use ai_portfolio_research_as.Prelude.Time.{Instant, is_zero_time, is_submicrosecond}
use ai_portfolio_research_as.Text.{equal}
use ai_portfolio_research_as.Transaction.Errors.{invalid_transaction_fields}
use ai_portfolio_research_as.Transaction.Kind.{
  Kind, buy, sell, deposit, withdrawal, fee, is_public_creatable,
}
use ai_portfolio_research_as.Transaction.Value.{
  Uuid, AssetSnapshot, no_asset, currency_usd, validate_effective_at, asset_is_valid,
  new_asset_snapshot,
}
use ai_portfolio_research_as.Transaction.Decimal.{Decimal, is_valid}
use ai_portfolio_research_as.Transaction.Fact.{
  TransactionState, Transaction, rehydrate_transaction, has_shape, is_trade, is_asset_cash,
  is_portfolio_cash, bad_header, bad_asset, refers_to_itself, bad_links, validate_optional,
}
use ai_portfolio_research_as.Transaction.Fact.Rehydrated.{rehydrate-passed, rehydrate-state}
use ai_portfolio_research_as.Transaction.Command.{
  Command, CommandContext, validated_context, new_trade_command, new_dividend_command,
  new_cash_command, new_buy_command, new_sell_command, new_deposit_command, new_withdrawal_command,
  new_fee_command, command_shape, command_is_valid, command_state, new_transaction_from_command,
}

-- A command that one of the six constructors has made.
pub data IsBuilt : Command → Type 0 where
  bought :
      {c : Command} (a : AssetSnapshot) (q p f : Decimal) (x : CommandContext)
      → new_buy_command a q p f x ≡ ok c
      → IsBuilt c
  sold :
      {c : Command} (a : AssetSnapshot) (q p f : Decimal) (x : CommandContext)
      → new_sell_command a q p f x ≡ ok c
      → IsBuilt c
  paid :
      {c : Command} (a : AssetSnapshot) (m : Decimal) (x : CommandContext)
      → new_dividend_command a m x ≡ ok c
      → IsBuilt c
  deposited :
      {c : Command} (m : Decimal) (x : CommandContext) → new_deposit_command m x ≡ ok c → IsBuilt c
  withdrawn :
      {c : Command} (m : Decimal) (x : CommandContext)
      → new_withdrawal_command m x ≡ ok c
      → IsBuilt c
  charged :
      {c : Command} (m : Decimal) (x : CommandContext) → new_fee_command m x ≡ ok c → IsBuilt c

-- the tests on the context that `IsValid` repeats
context_facts :
    (x : CommandContext) (t : Instant)
    → validated_context x ≡ ok t
    → (equal x.currency currency_usd ≡ true)
      × (is_ok (validate_optional x.note x.external_reference) ≡ true)
      × (is_zero_time t ≡ false)
      × (is_submicrosecond t ≡ false)
unfolding validated_context validate_effective_at
context_facts x t h = ground arith

module _ (kind : Kind) (a : AssetSnapshot) (q p f : Decimal) (x : CommandContext)
    (c : Command) where
  trade-context :
      new_trade_command kind a q p f x ≡ ok c → (t : Instant) × (validated_context x ≡ ok t)
  unfolding new_trade_command
  trade-context h = ground arith

  trade-is_valid :
      (t : Instant)
      → (kind ≡ buy) ⊎ (kind ≡ sell)
      → validated_context x ≡ ok t
      → new_trade_command kind a q p f x ≡ ok c
      → command_is_valid c ≡ true
  unfolding new_trade_command command_is_valid command_shape is_valid
  trade-is_valid t k e h = ground (arith, context_facts x t e)

module _ (a : AssetSnapshot) (m : Decimal) (x : CommandContext) (c : Command) where
  dividend-context :
      new_dividend_command a m x ≡ ok c → (t : Instant) × (validated_context x ≡ ok t)
  unfolding new_dividend_command
  dividend-context h = ground arith

  dividend-is_valid :
      (t : Instant)
      → validated_context x ≡ ok t
      → new_dividend_command a m x ≡ ok c
      → command_is_valid c ≡ true
  unfolding new_dividend_command command_is_valid command_shape is_valid
  dividend-is_valid t e h = ground (arith, context_facts x t e)

module _ (kind : Kind) (m : Decimal) (x : CommandContext) (c : Command) where
  cash-context : new_cash_command kind m x ≡ ok c → (t : Instant) × (validated_context x ≡ ok t)
  unfolding new_cash_command
  cash-context h = ground arith

  cash-is_valid :
      (t : Instant)
      → (kind ≡ deposit) ⊎ ((kind ≡ withdrawal) ⊎ (kind ≡ fee))
      → validated_context x ≡ ok t
      → new_cash_command kind m x ≡ ok c
      → command_is_valid c ≡ true
  unfolding new_cash_command command_is_valid command_shape is_valid
  cash-is_valid t k e h = ground (arith, context_facts x t e)

-- Every command that one of the six constructors makes passes Command.IsValid.
pub IsBuilt-is_valid : {c : Command} → IsBuilt c → command_is_valid c ≡ true
IsBuilt-is_valid {c} (bought a q p f x h) =
    let (t, e) = trade-context buy a q p f x c h in trade-is_valid buy a q p f x c t (inl refl) e h
IsBuilt-is_valid {c} (sold a q p f x h) =
    let (t, e) = trade-context sell a q p f x c h in
    trade-is_valid sell a q p f x c t (inr refl) e h
IsBuilt-is_valid {c} (paid a m x h) =
    let (t, e) = dividend-context a m x c h in dividend-is_valid a m x c t e h
IsBuilt-is_valid {c} (deposited m x h) =
    let (t, e) = cash-context deposit m x c h in cash-is_valid deposit m x c t (inl refl) e h
IsBuilt-is_valid {c} (withdrawn m x h) =
    let (t, e) = cash-context withdrawal m x c h in
    cash-is_valid withdrawal m x c t (inr (inl refl)) e h
IsBuilt-is_valid {c} (charged m x h) =
    let (t, e) = cash-context fee m x c h in cash-is_valid fee m x c t (inr (inr refl)) e h

-- What the application passes beside a command.
pub record IsStamp (id portfolio_id actor : Uuid) (sequence : ℤ) (created_at effective_at : Instant)
    : Type 0 where
  pub identified : id ≢ 0
  pub in_portfolio : portfolio_id ≢ 0
  pub by_actor : actor ≢ 0
  pub sequenced : pos 1 ≤ℤ sequence
  pub at_time : is_zero_time created_at ≡ false
  pub whole : is_submicrosecond created_at ≡ false
  pub in_order : effective_at ≤ created_at

valid_parts :
    (c : Command)
    → command_is_valid c ≡ true
    → (is_public_creatable c.kind ≡ true)
      × (equal c.currency currency_usd ≡ true)
      × (is_zero_time c.effective_at ≡ false)
      × (is_submicrosecond c.effective_at ≡ false)
      × (is_ok (validate_optional c.note c.external_reference) ≡ true)
      × (command_shape c.kind c ≡ true)
unfolding command_is_valid
valid_parts c h = ground arith

module _ (kind : Kind) (a : AssetSnapshot) (q p f : Decimal) (x : CommandContext)
    {c : Command} where
  trade-asset : new_trade_command kind a q p f x ≡ ok c → c.has_asset ≡ asset_is_valid c.asset
  unfolding new_trade_command
  trade-asset h = ground arith

module _ (a : AssetSnapshot) (m : Decimal) (x : CommandContext) {c : Command} where
  dividend-asset : new_dividend_command a m x ≡ ok c → c.has_asset ≡ asset_is_valid c.asset
  unfolding new_dividend_command
  dividend-asset h = ground arith

no_asset-is_valid : false ≡ asset_is_valid no_asset
unfolding asset_is_valid new_asset_snapshot
no_asset-is_valid = refl

module _ (kind : Kind) (m : Decimal) (x : CommandContext) {c : Command} where
  cash-asset : new_cash_command kind m x ≡ ok c → c.has_asset ≡ asset_is_valid c.asset
  unfolding new_cash_command
  cash-asset h = ground (arith, no_asset-is_valid)

-- A constructor marks the asset exactly when it is an eligible one.
IsBuilt-asset : {c : Command} → IsBuilt c → c.has_asset ≡ asset_is_valid c.asset
IsBuilt-asset (bought a q p f x h) = trade-asset buy a q p f x h
IsBuilt-asset (sold a q p f x h) = trade-asset sell a q p f x h
IsBuilt-asset (paid a m x h) = dividend-asset a m x h
IsBuilt-asset (deposited m x h) = cash-asset deposit m x h
IsBuilt-asset (withdrawn m x h) = cash-asset withdrawal m x h
IsBuilt-asset (charged m x h) = cash-asset fee m x h

module _ (id portfolio_id actor : Uuid) (sequence : ℤ) (created_at : Instant) (c : Command)
    (built : IsBuilt c) (s : IsStamp id portfolio_id actor sequence created_at c.effective_at) where
  valid : command_is_valid c ≡ true
  valid = IsBuilt-is_valid built

  stamped : TransactionState
  stamped = command_state id portfolio_id actor sequence created_at c

  header_ok : bad_header stamped ≡ false
  unfolding stamped command_state bad_header
  header_ok = ground (arith, valid_parts c valid)

  asset_ok : bad_asset stamped ≡ false
  unfolding stamped command_state bad_asset
  asset_ok = ground (arith, IsBuilt-asset built)

  links_ok : (refers_to_itself stamped ≡ false) × (bad_links stamped ≡ false)
  unfolding stamped command_state refers_to_itself bad_links
  links_ok = ground (arith, valid_parts c valid)

  shape_ok : has_shape c.kind stamped ≡ true
  unfolding stamped command_state has_shape is_trade is_asset_cash is_portfolio_cash command_shape
  shape_ok = ground (arith, valid_parts c valid)

  -- A command that one of the six constructors made becomes a fact with its content, under every
  -- nonzero identifier, portfolio and actor, positive sequence and whole-microsecond time of
  -- creation that is not before the effective time.
  pub new_transaction-valid :
      new_transaction_from_command id portfolio_id actor sequence created_at c
      ≡ ok (record { state = command_state id portfolio_id actor sequence created_at c })
  unfolding new_transaction_from_command stamped command_state
  new_transaction-valid =
      let kind = (valid_parts c valid).0 in
      let (own, links) = links_ok in
      rw valid (rehydrate-passed stamped header_ok kind asset_ok own links shape_ok)

-- A fact that a command becomes has the content of the command.
pub new_transaction-state :
    (id portfolio_id actor : Uuid) (sequence : ℤ) (created_at : Instant) (c : Command)
    (t : Transaction)
    → new_transaction_from_command id portfolio_id actor sequence created_at c ≡ ok t
    → t.state ≡ command_state id portfolio_id actor sequence created_at c
unfolding new_transaction_from_command
new_transaction-state id portfolio_id actor sequence created_at c t h =
    let (_, _, made) =
      >>=-eq-ok (fail_if (not (command_is_valid c)) invalid_transaction_fields)
        (λ _. rehydrate_transaction (command_state id portfolio_id actor sequence created_at c))
        h in
    rehydrate-state (command_state id portfolio_id actor sequence created_at c) t made
