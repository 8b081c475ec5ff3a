-- ===== src/Tests/Ledger.antt =====
-- Runs of backend/internal/transaction/domain/replay.go and decimal.go.
use ai_portfolio_research_as.Prelude.{
  ◌≡◌, ◌≢◌, ◌↔◌, refl, ◌+◌, ◌*◌, ◌-◌, ◌^◌, ◌≤◌, arith, true, false, [], ◌∷◌, ◌++◌, ok, err, inl,
  inr, is_ok, All, ◌⊎◌, length,
}
use ai_portfolio_research_as.Prelude.Int.{ℤ, pos, negsuc, ◌+ℤ◌, ◌-ℤ◌, ltb_ℤ}
use ai_portfolio_research_as.Text.{Bytes, codes, trim_right}
use ai_portfolio_research_as.Text.Digits.{value}
use ai_portfolio_research_as.Transaction.Decimal.{
  Decimal, add, sub, point, parse_decimal, compare_decimals, is_positive, is_non_negative,
  decimal_from_scaled, scaled,
}
use ai_portfolio_research_as.Transaction.Decimal.Arithmetic.{
  IsCanonical, Stands, decimal_from_scaled-IsCanonical, scaled-decimal_from_scaled, add-Stands,
  sub-Stands, compare-zero, sign-Stands,
}
use ai_portfolio_research_as.Transaction.Decimal.Parsing.{
  Written, parse_decimal-Stands, parse_decimal_complete,
}
use ai_portfolio_research_as.Prelude.{some, not}
use ai_portfolio_research_as.Transaction.Replay.{
  replay_ledger, violation, LedgerViolation, sort_facts, ids_of,
}
use mathlib.Core.List.{Permᴰ}
use ai_portfolio_research_as.Transaction.Replay.Sorting.{IsSorted, HasDistinctIds, sort_facts_iff}
use ai_portfolio_research_as.Transaction.Replay.Checks.{IsLedger, collected}
use ai_portfolio_research_as.Transaction.Replay.Stream.{Overdrawn}
use ai_portfolio_research_as.Transaction.Replay.Ledger.{
  IsCovered, replay_ledger_iff, replay_ledger_violation,
}
use ai_portfolio_research_as.Tests.Data.{ten, four, bought, sold, oversold, decimal, price}

abbrev shortfall : LedgerViolation
shortfall = record {
  transaction_id = 12;
  portfolio_sequence = pos 12;
  candidate = true;
  later_existing = false;
  negative_quantity = decimal (codes "-6");
}

-- The runs, computed.
runs :
    (IsCanonical ten)
    × (IsCanonical (decimal (codes "16")))
    × (IsCanonical four)
    × (Stands ten (pos 10000000000000))
    × (Stands four (pos 4000000000000))
    × (replay_ledger (bought ∷ []) (sold ∷ []) ≡ ok tt)
    × (replay_ledger (bought ∷ []) (oversold ∷ []) ≡ err (violation shortfall))
    × (parse_decimal (codes "12.50") false ≡ ok price)
    × (Written (codes "12.50") (codes "12") (codes "50"))
unfolding ai_portfolio_research_as.Prelude.Int.◌+ℤ◌ ai_portfolio_research_as.Prelude.Int.◌-ℤ◌
    ai_portfolio_research_as.Prelude.Time.zero_time ai_portfolio_research_as.Text.Blank.is_blank
    ai_portfolio_research_as.Text.Digits.digits ai_portfolio_research_as.Text.Digits.numeral
    ai_portfolio_research_as.Text.Digits.unsigned ai_portfolio_research_as.Text.Digits.value
    ai_portfolio_research_as.Text.Utf8.rune_count ai_portfolio_research_as.Text.Utf8.valid_string
    ai_portfolio_research_as.Text.all_digits ai_portfolio_research_as.Text.equal
    ai_portfolio_research_as.Text.split ai_portfolio_research_as.Text.trim_right
    ai_portfolio_research_as.Transaction.Command.command_is_valid
    ai_portfolio_research_as.Transaction.Command.command_shape
    ai_portfolio_research_as.Transaction.Command.command_state
    ai_portfolio_research_as.Transaction.Command.new_cash_command
    ai_portfolio_research_as.Transaction.Command.new_dividend_command
    ai_portfolio_research_as.Transaction.Command.new_trade_command
    ai_portfolio_research_as.Transaction.Command.new_transaction_from_command
    ai_portfolio_research_as.Transaction.Command.validated_context
    ai_portfolio_research_as.Transaction.Correction.bad_input
    ai_portfolio_research_as.Transaction.Correction.build_correction
    ai_portfolio_research_as.Transaction.Correction.build_facts
    ai_portfolio_research_as.Transaction.Correction.rehydrate_correction
    ai_portfolio_research_as.Transaction.Correction.replacement_state
    ai_portfolio_research_as.Transaction.Correction.reversal_state
    ai_portfolio_research_as.Transaction.Correction.validate_correction_target
    ai_portfolio_research_as.Transaction.Decimal.Arithmetic.Stands
    ai_portfolio_research_as.Transaction.Decimal.add
    ai_portfolio_research_as.Transaction.Decimal.compare_decimals
    ai_portfolio_research_as.Transaction.Decimal.decimal_from_scaled
    ai_portfolio_research_as.Transaction.Decimal.is_non_negative
    ai_portfolio_research_as.Transaction.Decimal.is_positive
    ai_portfolio_research_as.Transaction.Decimal.is_valid
    ai_portfolio_research_as.Transaction.Decimal.magnitude_text
    ai_portfolio_research_as.Transaction.Decimal.parse_decimal
    ai_portfolio_research_as.Transaction.Decimal.parse_non_negative_decimal
    ai_portfolio_research_as.Transaction.Decimal.parse_parts
    ai_portfolio_research_as.Transaction.Decimal.parse_positive_decimal
    ai_portfolio_research_as.Transaction.Decimal.scaled
    ai_portfolio_research_as.Transaction.Decimal.sub
    ai_portfolio_research_as.Transaction.Decimal.units
    ai_portfolio_research_as.Transaction.Fact.bad_asset
    ai_portfolio_research_as.Transaction.Fact.bad_header
    ai_portfolio_research_as.Transaction.Fact.bad_links
    ai_portfolio_research_as.Transaction.Fact.has_shape
    ai_portfolio_research_as.Transaction.Fact.is_asset_cash
    ai_portfolio_research_as.Transaction.Fact.is_portfolio_cash
    ai_portfolio_research_as.Transaction.Fact.is_trade
    ai_portfolio_research_as.Transaction.Fact.refers_to_itself
    ai_portfolio_research_as.Transaction.Fact.rehydrate_transaction
    ai_portfolio_research_as.Transaction.Fact.validate_optional
    ai_portfolio_research_as.Transaction.Kind.kind_of_text
    ai_portfolio_research_as.Transaction.Kind.parse_kind
    ai_portfolio_research_as.Transaction.Replay.Round.Holds
    ai_portfolio_research_as.Transaction.Replay.balance_or_zero
    ai_portfolio_research_as.Transaction.Replay.check_facts
    ai_portfolio_research_as.Transaction.Replay.check_reversals
    ai_portfolio_research_as.Transaction.Replay.find_balance
    ai_portfolio_research_as.Transaction.Replay.find_fact
    ai_portfolio_research_as.Transaction.Replay.has_id
    ai_portfolio_research_as.Transaction.Replay.has_key
    ai_portfolio_research_as.Transaction.Replay.has_sequence
    ai_portfolio_research_as.Transaction.Replay.ids_of
    ai_portfolio_research_as.Transaction.Replay.insert_fact
    ai_portfolio_research_as.Transaction.Replay.next_balance
    ai_portfolio_research_as.Transaction.Replay.precedes
    ai_portfolio_research_as.Transaction.Replay.replay_fact
    ai_portfolio_research_as.Transaction.Replay.replay_facts
    ai_portfolio_research_as.Transaction.Replay.replay_ledger
    ai_portfolio_research_as.Transaction.Replay.reverses
    ai_portfolio_research_as.Transaction.Replay.same_financial_dimensions
    ai_portfolio_research_as.Transaction.Replay.settle
    ai_portfolio_research_as.Transaction.Replay.sort_facts
    ai_portfolio_research_as.Transaction.Replay.zero_decimal
    ai_portfolio_research_as.Transaction.Value.asset_is_valid
    ai_portfolio_research_as.Transaction.Value.is_listed
    ai_portfolio_research_as.Transaction.Value.new_asset_snapshot
    ai_portfolio_research_as.Transaction.Value.new_external_reference
    ai_portfolio_research_as.Transaction.Value.new_note
    ai_portfolio_research_as.Transaction.Value.new_optional_text
    ai_portfolio_research_as.Transaction.Value.parse_currency
    ai_portfolio_research_as.Transaction.Value.same_asset
    ai_portfolio_research_as.Transaction.Value.validate_effective_at
runs = (
  decimal_from_scaled-IsCanonical (pos 10000000000000),
  decimal_from_scaled-IsCanonical (pos 16000000000000),
  decimal_from_scaled-IsCanonical (pos 4000000000000),
  (
    (decimal_from_scaled-IsCanonical (pos 10000000000000)),
    scaled-decimal_from_scaled (pos 10000000000000),
  ),
  (
    (decimal_from_scaled-IsCanonical (pos 4000000000000)),
    scaled-decimal_from_scaled (pos 4000000000000),
  ),
  refl,
  refl,
  refl,
  (ground arith, ground arith, ground arith, refl),
)

ten-IsCanonical : IsCanonical ten
ten-IsCanonical = runs.0

sixteen-IsCanonical : IsCanonical (decimal (codes "16"))
sixteen-IsCanonical = runs.1

four-IsCanonical : IsCanonical four
four-IsCanonical = runs.2

ten-Stands : Stands ten (pos 10000000000000)
ten-Stands = runs.3

four-Stands : Stands four (pos 4000000000000)
four-Stands = runs.4

accepted : replay_ledger (bought ∷ []) (sold ∷ []) ≡ ok tt
accepted = runs.5

refused : replay_ledger (bought ∷ []) (oversold ∷ []) ≡ err (violation shortfall)
refused = runs.6

replay_ledger_iff_example :
    (replay_ledger (bought ∷ []) (sold ∷ []) ≡ ok tt)
    ↔ (IsLedger (bought ∷ sold ∷ []) × IsCovered (bought ∷ sold ∷ []))
replay_ledger_iff_example =
    replay_ledger_iff (bought ∷ []) (sold ∷ []) (λ _. ten-IsCanonical, (λ _. four-IsCanonical, tt))

replay_ledger_violation_example :
    IsLedger (bought ∷ oversold ∷ [])
    × Overdrawn
        (collected (bought ∷ oversold ∷ []) [])
        (ids_of (oversold ∷ []))
        (λ _. pos 0)
        (sort_facts (bought ∷ oversold ∷ []))
        shortfall
replay_ledger_violation_example =
    replay_ledger_violation (bought ∷ []) (oversold ∷ [])
      (λ _. ten-IsCanonical, (λ _. sixteen-IsCanonical, tt)) shortfall refused

add-Stands_example :
    (c : Decimal) × (add ten four ≡ ok c) × Stands c (pos 10000000000000 +ℤ pos 4000000000000)
add-Stands_example =
    add-Stands ten four (pos 10000000000000) (pos 4000000000000) ten-Stands four-Stands

sub-Stands_example :
    (c : Decimal) × (sub four ten ≡ ok c) × Stands c (pos 4000000000000 -ℤ pos 10000000000000)
sub-Stands_example =
    sub-Stands four ten (pos 4000000000000) (pos 10000000000000) four-Stands ten-Stands

scaled-decimal_from_scaled_example : scaled (decimal_from_scaled (negsuc 12)) ≡ some (negsuc 12)
scaled-decimal_from_scaled_example = scaled-decimal_from_scaled (negsuc 12)

read_price : parse_decimal (codes "12.50") false ≡ ok price
read_price = runs.7

parse_decimal-Stands_example :
    (w : Bytes) × (r : Bytes) × Written (codes "12.50") w r
    × Stands price (pos (value 0 (w ++ r) * 10 ^ (12 - length r)))
    × ((price.canonical ≢ b'0' ∷ []) ⊎ (false ≡ true))
parse_decimal-Stands_example = parse_decimal-Stands (codes "12.50") false price read_price

written : Written (codes "12.50") (codes "12") (codes "50")
written = runs.8

parse_decimal_complete_example :
    parse_decimal (codes "12.50") true
    ≡ ok (record { canonical = codes "12" ++ point (trim_right (codes "50") b'0') })
parse_decimal_complete_example =
    parse_decimal_complete (codes "12.50") (codes "12") (codes "50") true written (inr refl)

ids_differ : HasDistinctIds (sold ∷ bought ∷ [])
ids_differ = (((omega arith), tt), (tt, tt))

sort_facts_iff_example :
    ((bought ∷ sold ∷ []) ≡ sort_facts (sold ∷ bought ∷ []))
    ↔ (Permᴰ (bought ∷ sold ∷ []) (sold ∷ bought ∷ []) × IsSorted (bought ∷ sold ∷ []))
sort_facts_iff_example = sort_facts_iff (sold ∷ bought ∷ []) (bought ∷ sold ∷ []) ids_differ
