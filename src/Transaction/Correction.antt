-- ===== src/Transaction/Correction.antt =====
-- backend/internal/transaction/domain/correction.go: a correction replaces a fact by a reversal of
-- it and a new fact.
pub mod Built
use ai_portfolio_research_as.Prelude.{
  Bool, true, false, not, ◌||◌, ok, err, ◌>>=◌, ◌>>◌, fail_if, ◌==◌, if◌then◌else◌,
}
use ai_portfolio_research_as.Prelude.Int.{ℤ, pos, leb_ℤ}
use ai_portfolio_research_as.Prelude.Time.{Instant, is_zero_time, is_submicrosecond, utc}
use ai_portfolio_research_as.Transaction.Errors.{
  Outcome, invalid_transaction, transaction_not_correctable, transaction_already_corrected,
  invalid_correction,
}
use ai_portfolio_research_as.Transaction.Kind.{reversal, is_reversal}
use ai_portfolio_research_as.Transaction.Value.{Uuid, is_zero, no_text}
use ai_portfolio_research_as.Transaction.Fact.{TransactionState, Transaction, rehydrate_transaction}
use ai_portfolio_research_as.Transaction.Command.{
  Command, command_is_valid, new_transaction_from_command,
}

pub record Correction : Type 0 where
  pub id : Uuid
  pub portfolio_id : Uuid
  pub original : Uuid
  pub reversal_id : Uuid
  pub replacement : Uuid
  pub actor : Uuid
  pub created_at : Instant

unfoldable pub rehydrate_correction :
    Uuid → Uuid → Uuid → Uuid → Uuid → Uuid → Instant → Outcome Correction
rehydrate_correction id portfolio_id original reversal_id replacement actor created_at = do
  fail_if
      (is_zero id
        || is_zero portfolio_id
        || is_zero original
        || is_zero reversal_id
        || is_zero replacement
        || is_zero actor
        || is_zero_time created_at
        || is_submicrosecond created_at
        || original == reversal_id
        || original == replacement
        || reversal_id == replacement)
      invalid_correction
  ok (record {
    id = id;
    portfolio_id = portfolio_id;
    original = original;
    reversal_id = reversal_id;
    replacement = replacement;
    actor = actor;
    created_at = utc created_at;
  })

unfoldable pub validate_correction_target : Transaction → Bool → Outcome (Unit {0})
validate_correction_target original has_direct_correction = do
  fail_if (is_zero original.state.id) invalid_transaction
  fail_if (is_reversal original.state.kind) transaction_not_correctable
  fail_if has_direct_correction transaction_already_corrected

pub record CorrectionFacts : Type 0 where
  pub reversal_fact : Transaction
  pub replacement_fact : Transaction
  pub relationship : Correction

pub record CorrectionInput : Type 0 where
  pub original : Transaction
  pub has_direct_correction : Bool
  pub replacement : Command
  pub correction_id : Uuid
  pub reversal_id : Uuid
  pub replacement_id : Uuid
  pub actor : Uuid
  pub reversal_sequence : ℤ
  pub replacement_sequence : ℤ
  pub created_at : Instant

-- `reversalState`: the copy of the original that takes it back
unfoldable pub reversal_state : CorrectionInput → TransactionState
reversal_state input = record original {
  id = input.reversal_id;
  created_by = input.actor;
  kind = reversal;
  portfolio_sequence = input.reversal_sequence;
  note = no_text;
  external_reference = no_text;
  reversal_of = original.id;
  correction_of = 0;
  originating_correction = input.correction_id;
  created_at = input.created_at;
}
  where
    open input.original use {state as original}

-- `replacementState`: the new fact with its links
unfoldable pub replacement_state : CorrectionInput → Transaction → TransactionState
replacement_state input replacement = record replacement.state {
  correction_of = input.original.state.id;
  originating_correction = input.correction_id;
}

-- the second `if` of `BuildCorrection`
unfoldable pub bad_input : CorrectionInput → Bool
bad_input input =
    not (command_is_valid input.replacement)
    || leb_ℤ input.reversal_sequence (pos 0)
    || leb_ℤ input.replacement_sequence input.reversal_sequence
    || input.reversal_id == input.original.state.id
    || input.replacement_id == input.original.state.id

-- the rest of `BuildCorrection`
unfoldable pub build_facts : CorrectionInput → Outcome CorrectionFacts
build_facts input = do
  relationship ←
      rehydrate_correction input.correction_id input.original.state.portfolio_id
        input.original.state.id input.reversal_id input.replacement_id input.actor input.created_at
  reversal_fact ← rehydrate_transaction (reversal_state input)
  replacement ←
      new_transaction_from_command input.replacement_id input.original.state.portfolio_id
        input.actor input.replacement_sequence input.created_at input.replacement
  replacement_fact ← rehydrate_transaction (replacement_state input replacement)
  ok (record {
    reversal_fact = reversal_fact;
    replacement_fact = replacement_fact;
    relationship = relationship;
  })

unfoldable pub build_correction : CorrectionInput → Outcome CorrectionFacts
build_correction input = do
  validate_correction_target input.original input.has_direct_correction
  fail_if (bad_input input) invalid_correction
  build_facts input
