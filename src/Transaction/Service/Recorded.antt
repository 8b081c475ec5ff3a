-- ===== src/Transaction/Service/Recorded.antt =====
-- What a successful branch of `execute` in
-- backend/internal/transaction/application/service.go has done: its chain of calls, inverted.
use mathlib.Core.List.{Perm}
use mathlib.Core.Path.{subst}
use ai_portfolio_research_as.Platform.Audit.{create_success}
use ai_portfolio_research_as.Text.{codes}
use ai_portfolio_research_as.Transaction.Service.Guards.{reference}
use ai_portfolio_research_as.Transaction.Service.Evidence.{append_audit_to, append_event_for}
use ai_portfolio_research_as.Prelude.{◌≡◌, ◌∙◌, sym, ap, true, List, [], ◌∷◌, ok}
use ai_portfolio_research_as.Prelude.Int.{ℤ}
use ai_portfolio_research_as.Prelude.Time.{Instant}
use ai_portfolio_research_as.Prelude.Actions.{
  pure, rename_error, bind-eq-ok, lift-eq-ok, pure-eq-ok, ◌>>◌,
}
use ai_portfolio_research_as.Text.{Bytes}
use ai_portfolio_research_as.Transaction.Value.{Uuid}
use ai_portfolio_research_as.Transaction.Fact.{Transaction}
use ai_portfolio_research_as.Transaction.Command.{Command, new_transaction_from_command}
use ai_portfolio_research_as.Transaction.Service.{domain_failure}
use ai_portfolio_research_as.Transaction.Service.Ports.{Ports, Rows, IsLawful, with_row, Recorded}
use ai_portfolio_research_as.Transaction.Service.Ledger.{validate_replay}
use ai_portfolio_research_as.Transaction.Service.Guards.{created}
use ai_portfolio_research_as.Transaction.Service.Record.{record_fact}
use ai_portfolio_research_as.Transaction.Service.Keeps.{
  kept-bind, append_audit_to-Keeps, append_event_for-Keeps, next_transaction_id-Keeps,
}

module _ {S : Type 0} (ports : Ports S) (rows : Rows S) (law : IsLawful ports rows) where
  -- the rest of the chain, behind the insertion
  fact_evidence :
      (principal p id : Uuid) (correlation : Bytes) (fact : Transaction) (s s' : S) (r : Recorded)
      → (append_audit_to ports ports.append_audit principal p id 0 correlation create_success true
            >> (append_event_for ports p correlation
                  (codes "transaction.recorded.v1")
                  (reference (codes "transaction") id ∷ [])
                >> pure (created fact)))
          s
        ≡ (ok r, s')
      → (created fact ≡ r) × (rows s' ≡ rows s)
  fact_evidence principal p id correlation fact s s' r h =
      let (_, s1, k1, h1) = kept-bind rows _ _ _ _ _ h (
        append_audit_to-Keeps ports rows law ports.append_audit principal p id 0 correlation _ _
          law.append_audit-rows) in
      let (_, s2, k2, h2) =
        kept-bind rows _ _ _ _ _ h1 (append_event_for-Keeps ports rows law p correlation _ _) in
      let (e, same) = pure-eq-ok (created fact) s2 s' r h2 in (e, ap rows (sym same) ∙ k2 ∙ k1)

  pub record_fact-recorded :
      (principal p : Uuid) (correlation : Bytes) (command : Command) (sequence : ℤ) (at : Instant)
      (s s' : S) (r : Recorded)
      → record_fact ports principal p correlation command sequence at s ≡ (ok r, s')
      → (id : Uuid) × (fact : Transaction) × (t : S) × (created fact ≡ r)
        × (rows t ≡ rows s)
        × (rename_error domain_failure
              (new_transaction_from_command id p principal sequence at command)
            ≡ ok fact)
        × (validate_replay ports p (fact ∷ []) [] t ≡ ok tt)
        × ((q a : Uuid) → Perm (rows s' q a) (with_row fact q a (rows s q a)))
  unfolding record_fact
  record_fact-recorded principal p correlation command sequence at s s' r h =
      let (id, s1, k1, h1) =
        kept-bind rows _ _ _ _ _ h (next_transaction_id-Keeps ports rows law) in
      let (fact, s2, e2, h2) = bind-eq-ok _ _ _ _ _ h1 in
      let (_, s3, e3, h3) = bind-eq-ok _ _ _ _ _ h2 in
      let (_, s4, e4, h4) = bind-eq-ok _ _ _ _ _ h3 in
      let (built, same2) = lift-eq-ok _ s1 s2 fact e2 in
      let (valid, same3) = lift-eq-ok _ s2 s3 tt e3 in
      let (result, last) = fact_evidence principal p id correlation fact s4 s' r h4 in
      let before : rows s2 ≡ rows s = ap rows (sym same2) ∙ k1 in
      (
        id,
        fact,
        s2,
        result,
        before,
        built,
        valid,
        λ q a.
            subst
              (λ (x : Uuid → Uuid → List Transaction).
                Perm (rows s' q a) (with_row fact q a (x q a)))
              (ap rows (sym same3) ∙ before)
              (subst
                (λ (x : Uuid → Uuid → List Transaction).
                  Perm (x q a) (with_row fact q a (rows s3 q a)))
                (sym last) (law.insert-rows fact s3 s4 e4 q a)),
      )
