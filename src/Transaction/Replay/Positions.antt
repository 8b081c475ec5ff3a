-- ===== src/Transaction/Replay/Positions.antt =====
-- The specification of backend/internal/transaction/domain/replay.go: what a stream of facts adds
-- to the holding of an asset in a portfolio, as an exact integer number of units.
use ai_portfolio_research_as.Prelude.{
  ◌≡◌, Bool, true, false, ◌&&◌, List, [], ◌∷◌, Option, none, some, if◌then◌else◌,
}
use ai_portfolio_research_as.Prelude.Int.{ℤ, pos, ◌+ℤ◌, ◌-ℤ◌}
use ai_portfolio_research_as.Transaction.Kind.{Kind, buy, sell, reversal}
use ai_portfolio_research_as.Transaction.Decimal.{Decimal, scaled, is_valid}
use ai_portfolio_research_as.Transaction.Decimal.Arithmetic.{IsCanonical}
use ai_portfolio_research_as.Transaction.Fact.{Transaction}
use ai_portfolio_research_as.Transaction.Replay.{StreamKey, same_key, key_of, find_fact, is_buy}

abbrev number_or_zero : Option ℤ → ℤ
number_or_zero none = pos 0
number_or_zero (some n) = n

-- The number of units of a decimal.
abbrev pub units_of : Decimal → ℤ
units_of d = number_or_zero (scaled d)

-- A buy adds, a sell takes away, and a reversal does the opposite of what it reverses.
abbrev pub signed : Kind → Bool → ℤ → ℤ
signed buy original_is_buy n = n
signed sell original_is_buy n = pos 0 -ℤ n
signed reversal true n = pos 0 -ℤ n
signed reversal false n = n
signed _ original_is_buy n = pos 0

-- Only a fact of an asset with a quantity moves a holding.
abbrev pub moves : Transaction → Bool
moves t = t.state.has_asset && is_valid t.state.quantity

module _ (by_id : List Transaction) where
  abbrev pub change : Transaction → ℤ
  change t =
      signed t.state.kind (is_buy (find_fact t.state.reversal_of by_id)) (units_of t.state.quantity)

  unfoldable pub delta : StreamKey → Transaction → ℤ
  delta k t = if moves t && same_key k (key_of t) then change t else pos 0

  -- The holding after a stream of facts.
  unfoldable pub position : StreamKey → List Transaction → ℤ
  position k [] = pos 0
  position k (t ∷ ts) = delta k t +ℤ position k ts

-- The quantities that the package's constructors make.
abbrev pub HasQuantity : Transaction → Type 0
HasQuantity t = is_valid t.state.quantity ≡ true → IsCanonical t.state.quantity

-- The kinds that carry a quantity.
abbrev pub is_tradeable : Kind → Bool
is_tradeable buy = true
is_tradeable sell = true
is_tradeable reversal = true
is_tradeable _ = false
