-- ===== src/Transaction/Service/Record.antt =====
-- The two branches that record facts, of `execute` in
-- backend/internal/transaction/application/service.go: a new fact, and a correction.
use ai_portfolio_research_as.Prelude.{Bool, true, false, [], ◌∷◌, Option, none, some}
use ai_portfolio_research_as.Prelude.Int.{ℤ}
use ai_portfolio_research_as.Prelude.Time.{Instant}
use ai_portfolio_research_as.Prelude.Actions.{Action, lift, pure, reads, rename_error, ◌>>=◌, ◌>>◌}
use ai_portfolio_research_as.Text.{Bytes, codes}
use ai_portfolio_research_as.Platform.Audit.{
  create_success, correction_initiated, correction_completed, reversal_created, replacement_created,
}
use ai_portfolio_research_as.Transaction.Value.{Uuid, new_correction_id}
use ai_portfolio_research_as.Transaction.Command.{Command, new_transaction_from_command}
use ai_portfolio_research_as.Transaction.Correction.{validate_correction_target, build_correction}
use ai_portfolio_research_as.Transaction.Service.{ServiceError, domain_failure}
use ai_portfolio_research_as.Transaction.Service.Ports.{Ports, Recorded}
use ai_portfolio_research_as.Transaction.Service.Ledger.{validate_replay}
use ai_portfolio_research_as.Transaction.Service.Evidence.{
  next_id, next_transaction_id, append_audit_to, append_event_for,
}
use ai_portfolio_research_as.Transaction.Service.Guards.{reference, created, corrected}

module _ {S : Type 0} (ports : Ports S) where
  -- the branch of a new fact, from the resolved command on
  unfoldable pub record_fact :
      Uuid → Uuid → Bytes → Command → ℤ → Instant → Action S ServiceError Recorded
  record_fact principal portfolio_id correlation command sequence created_at = do
    id ← next_transaction_id ports
    fact ← lift (
        rename_error domain_failure
          (new_transaction_from_command id portfolio_id principal sequence created_at command))
    reads (validate_replay ports portfolio_id (fact ∷ []) [])
    ports.insert fact
    append_audit_to ports ports.append_audit principal portfolio_id id 0 correlation create_success
        true
    append_event_for ports portfolio_id correlation (codes "transaction.recorded.v1")
        (reference (codes "transaction") id ∷ [])
    pure (created fact)

  -- the four records of a correction
  unfoldable pub audit_correction :
      Uuid → Uuid → Bytes → Uuid → Uuid → Uuid → Uuid → Action S ServiceError (Unit {0})
  audit_correction principal portfolio_id correlation target reversal_id replacement_id
        correction_id =
      do
        append_audit_to ports ports.append_audit principal portfolio_id target correction_id
            correlation correction_initiated true
        append_audit_to ports ports.append_audit principal portfolio_id reversal_id correction_id
            correlation reversal_created true
        append_audit_to ports ports.append_audit principal portfolio_id replacement_id correction_id
            correlation replacement_created true
        append_audit_to ports ports.append_audit principal portfolio_id target correction_id
            correlation correction_completed true

  abbrev pub is_present : {A : Type 0} → Option A → Bool
  is_present none = false
  is_present (some _) = true

  -- the branch of a correction, from the resolved command on
  unfoldable pub record_correction :
      Uuid → Uuid → Uuid → Bytes → Command → ℤ → ℤ → Instant → Action S ServiceError Recorded
  record_correction principal portfolio_id target correlation command first second created_at = do
    original ← reads (ports.get portfolio_id target)
    direct ← reads (ports.direct_correction portfolio_id target)
    lift (rename_error domain_failure (validate_correction_target original (is_present direct)))
    reversal_id ← next_transaction_id ports
    replacement_id ← next_transaction_id ports
    bytes ← next_id ports
    correction_id ← lift (rename_error domain_failure (new_correction_id bytes))
    facts ← lift (
        rename_error domain_failure (
          build_correction (record {
            original = original;
            has_direct_correction = false;
            replacement = command;
            correction_id = correction_id;
            reversal_id = reversal_id;
            replacement_id = replacement_id;
            actor = principal;
            reversal_sequence = first;
            replacement_sequence = second;
            created_at = created_at;
          })))
    reads (
        validate_replay ports portfolio_id (facts.reversal_fact ∷ facts.replacement_fact ∷ [])
          (original ∷ []))
    ports.insert_correction facts.relationship
    ports.insert facts.reversal_fact
    ports.insert facts.replacement_fact
    audit_correction principal portfolio_id correlation target reversal_id replacement_id
        correction_id
    append_event_for ports portfolio_id correlation (codes "transaction.corrected.v1") (
        reference (codes "original_transaction") target
        ∷ reference (codes "reversal_transaction") reversal_id
        ∷ reference (codes "replacement_transaction") replacement_id
        ∷ reference (codes "correction") correction_id
        ∷ [])
    pure (corrected facts)
