-- ===== src/Transaction/Service/Refinement.antt =====
-- `Create` of backend/internal/transaction/application/service.go refines the steps of the
-- specification of Transaction/Service/Consistency: its chain of calls, branch by branch.
use mathlib.Core.List.{Perm}
use mathlib.Core.List.Perm
use mathlib.Core.Path.{subst}
use ai_portfolio_research_as.Prelude.{
  ◌≡◌, refl, ◌∙◌, sym, ap, ℕ, false, Option, none, some, Result, ok,
}
use ai_portfolio_research_as.Prelude.Int.{ℤ}
use ai_portfolio_research_as.Prelude.Time.{Instant}
use ai_portfolio_research_as.Prelude.Actions.{bind-eq-ok, lift-eq-ok, pure-eq-ok, rename-eq-ok}
use ai_portfolio_research_as.Text.{Bytes}
use ai_portfolio_research_as.Portfolio.Record.{Portfolio}
use ai_portfolio_research_as.Transaction.Value.{Uuid}
use ai_portfolio_research_as.Transaction.Fact.{Transaction}
use ai_portfolio_research_as.Transaction.Command.{
  Command, command_state, new_transaction_from_command,
}
use ai_portfolio_research_as.Transaction.Replay.Positions.{HasQuantity}
use ai_portfolio_research_as.Transaction.Service.{
  ServiceError, CommandInput, CommandMetadata, domain_failure, context_of,
}
use ai_portfolio_research_as.Transaction.Service.Ports.{
  Ports, Rows, IsLawful, Recorded, Idempotency,
}
use ai_portfolio_research_as.Transaction.Service.Guards.{resolve_command}
use ai_portfolio_research_as.Transaction.Service.Record.{record_fact}
use ai_portfolio_research_as.Transaction.Service.Execute.{
  record_command, replay_or_record, execute_within,
}
use ai_portfolio_research_as.Transaction.Service.Keeps.{
  kept-bind, service_now-Keeps, resolve_command-Keeps, replay_result-Keeps,
}
use ai_portfolio_research_as.Transaction.Service.Recorded.{record_fact-recorded}
use ai_portfolio_research_as.Transaction.Service.Inputs.{
  IsGivenQuantity, normalize-quantity, command_of-IsGivenQuantity, fact-state,
}
use ai_portfolio_research_as.Transaction.Service.Consistency.{
  Table, LedgerStep, unchanged, joined, validate_replay-Fits,
}

pub LedgerStep-same : (p : Uuid) (before after : Table) → after ≡ before → LedgerStep p before after
LedgerStep-same p before after e =
    unchanged
      (λ q a. subst (λ (x : Table). Perm (x q a) (before q a)) (sym e) (Perm.refl (before q a)))

LedgerStep-between :
    (p : Uuid) {before after b a : Table}
    → b ≡ before
    → after ≡ a
    → LedgerStep p b a
    → LedgerStep p before after
LedgerStep-between p {before} {after} {b} {a} e f step =
    subst (λ (x : Table). LedgerStep p x after) e
      (subst (λ (x : Table). LedgerStep p b x) (sym f) step)

module _ {S : Type 0} (ports : Ports S) where
  resolved_quantity :
      (principal : Uuid) (input : CommandInput) (now : Instant) (s s' : S) (c : Command)
      → resolve_command ports principal input now s ≡ (ok c, s')
      → IsGivenQuantity input.quantity
      → IsGivenQuantity c.quantity
  unfolding resolve_command
  resolved_quantity principal input now s s' c h given =
      let (a, t, e, h1) = bind-eq-ok _ _ _ _ _ h in
      let (made, _) = lift-eq-ok _ t s' c h1 in
      command_of-IsGivenQuantity input.kind input a (context_of input now) c
        (rename-eq-ok domain_failure _ c made) given

  fact-HasQuantity :
      (id p actor : Uuid) (sequence : ℤ) (at : Instant) (c : Command) (t : Transaction)
      → new_transaction_from_command id p actor sequence at c ≡ ok t
      → IsGivenQuantity c.quantity
      → HasQuantity t × (t.state.portfolio_id ≡ p)
  unfolding command_state
  fact-HasQuantity id p actor sequence at c t h given =
      let e = fact-state id p actor sequence at c t h in (rw e given, ap (λ s. s.portfolio_id) e)

module _ {S : Type 0} (ports : Ports S) (rows : Rows S) (law : IsLawful ports rows) where
  record_fact-LedgerStep :
      (principal p : Uuid) (correlation : Bytes) (c : Command) (sequence : ℤ) (at : Instant)
      (s s' : S) (r : Recorded)
      → IsGivenQuantity c.quantity
      → record_fact ports principal p correlation c sequence at s ≡ (ok r, s')
      → LedgerStep p (rows s) (rows s')
  record_fact-LedgerStep principal p correlation c sequence at s s' r given h =
      let (id, t, s1, _, same, built, valid, perm) =
        record_fact-recorded ports rows law principal p correlation c sequence at s s' r h in
      let (quantity, own) =
        fact-HasQuantity ports id p principal sequence at c t
          (rename-eq-ok domain_failure _ t built) given in
      joined t own
        (λ asset. rw⁻¹ same (validate_replay-Fits ports rows law p t s1 quantity valid asset)) perm

  record_command-LedgerStep :
      (principal : Uuid) (owner : Portfolio) (p : Uuid) (input : CommandInput)
      (metadata : CommandMetadata) (digest : ℕ) (now : Instant) (s s' : S) (r : Recorded)
      → IsGivenQuantity input.quantity
      → record_command ports principal owner p 0 input metadata false digest now s ≡ (ok r, s')
      → LedgerStep p (rows s) (rows s')
  unfolding record_command
  record_command-LedgerStep principal owner p input metadata digest now s s' r given h =
      let (_, s1, k1, h1) = kept-bind rows _ _ _ _ _ h (λ s. refl) in
      let (c, s2, e2, h2) = bind-eq-ok _ _ _ _ _ h1 in
      let k2 : rows s2 ≡ rows s1 =
        sym (ap (λ (x : Result ServiceError Command × S). rows x.1) e2)
        ∙ resolve_command-Keeps ports rows law principal input now s1 in
      let (sequences, s3, k3, h3) = kept-bind rows _ _ _ _ _ h2 (law.allocate-rows p false) in
      let (at, s4, k4, h4) = kept-bind rows _ _ _ _ _ h3 (service_now-Keeps ports rows law) in
      let (result, s5, e5, h5) = bind-eq-ok _ _ _ _ _ h4 in
      let (completed, s6, k6, h6) =
        kept-bind rows _ _ _ _ _ h5 (service_now-Keeps ports rows law) in
      let (_, s7, k7, h7) =
        kept-bind rows _ _ _ _ _ h6 (law.complete-rows p _ _ digest 0 result completed) in
      let (_, last) = pure-eq-ok result s7 s' r h7 in
      LedgerStep-between p (k4 ∙ k3 ∙ k2 ∙ k1) (ap rows (sym last) ∙ k7 ∙ k6) (
        record_fact-LedgerStep principal p metadata.correlation_id c sequences.0 at s4 s5 result
          (resolved_quantity ports principal input now s1 s2 c e2 given) e5)

  replay_or_record-LedgerStep :
      (principal : Uuid) (owner : Portfolio) (p : Uuid) (input : CommandInput)
      (metadata : CommandMetadata) (digest : ℕ) (now : Instant) (previous : Option Idempotency)
      (s s' : S) (r : Recorded)
      → IsGivenQuantity input.quantity
      → replay_or_record ports principal owner p 0 input metadata false digest now previous s
        ≡ (ok r, s')
      → LedgerStep p (rows s) (rows s')
  unfolding replay_or_record
  replay_or_record-LedgerStep principal owner p input metadata digest now none s s' r given h =
      record_command-LedgerStep principal owner p input metadata digest now s s' r given h
  replay_or_record-LedgerStep principal owner p input metadata digest now (some previous) s s' r
        given h =
      LedgerStep-same p (rows s) (rows s') (
        sym (ap (λ (x : Result ServiceError Recorded × S). rows x.1) h)
        ∙ replay_result-Keeps ports rows law principal p metadata.correlation_id digest previous s)

  pub execute_within-LedgerStep :
      (principal p : Uuid) (input : CommandInput) (metadata : CommandMetadata) (s s' : S)
      (r : Recorded)
      → IsGivenQuantity input.quantity
      → execute_within ports principal p 0 input metadata false s ≡ (ok r, s')
      → LedgerStep p (rows s) (rows s')
  unfolding execute_within
  execute_within-LedgerStep principal p input metadata s s' r given h =
      let (owner, s1, k1, h1) = kept-bind rows _ _ _ _ _ h (λ s. refl) in
      let (_, s2, k2, h2) = kept-bind rows _ _ _ _ _ h1 (λ s. refl) in
      let (_, s3, k3, h3) = kept-bind rows _ _ _ _ _ h2 (λ s. refl) in
      let (now, s4, k4, h4) = kept-bind rows _ _ _ _ _ h3 (service_now-Keeps ports rows law) in
      let (normalized, s5, e5, h5) = bind-eq-ok _ _ _ _ _ h4 in
      let (made, same) = lift-eq-ok _ s4 s5 normalized e5 in
      let (_, s6, k6, h6) = kept-bind rows _ _ _ _ _ h5 (λ s. refl) in
      let (at, s7, k7, h7) = kept-bind rows _ _ _ _ _ h6 (service_now-Keeps ports rows law) in
      let (previous, s8, k8, h8) =
        kept-bind rows _ _ _ _ _ h7 (law.idempotency-rows p _ metadata.idempotency_key at) in
      let quantity =
        normalize-quantity input normalized now (rename-eq-ok domain_failure _ normalized made) in
      LedgerStep-between p (k8 ∙ k7 ∙ k6 ∙ ap rows (sym same) ∙ k4 ∙ k3 ∙ k2 ∙ k1) refl (
        replay_or_record-LedgerStep principal owner p normalized metadata _ now previous s8 s' r
          (rw quantity given) h8)
