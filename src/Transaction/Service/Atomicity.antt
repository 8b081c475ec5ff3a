-- ===== src/Transaction/Service/Atomicity.antt =====
-- The outcomes of `execute` in backend/internal/transaction/application/service.go, around the
-- function that it runs within a transaction.
use ai_portfolio_research_as.Prelude.{
  ◌≡◌, refl, ◌∙◌, Bool, Bool-cases, inl, inr, false, Result, ok, err, ◌≢◌,
}
use ai_portfolio_research_as.Prelude.Transactions.{bracketed-ok, bracketed-rolled, view_of}
use ai_portfolio_research_as.Prelude.Actions.{Action}
use ai_portfolio_research_as.Text.{Bytes}
use ai_portfolio_research_as.Platform.Outbox.{matches_correlation_id}
use ai_portfolio_research_as.Transaction.Value.{Uuid, is_zero}
use ai_portfolio_research_as.Transaction.Service.{ServiceError, CommandInput, CommandMetadata}
use ai_portfolio_research_as.Transaction.Service.Ports.{Ports, Rows, IsLawful, Recorded}
use ai_portfolio_research_as.Transaction.Service.Guards.{is_rejection}
use ai_portfolio_research_as.Transaction.Service.Execute.{
  execute_within, within_transaction, bracket, report, rejected, execute, append_rejection_of,
}
use ai_portfolio_research_as.Transaction.Service.Keeps.{append_audit_to-Keeps}

module _ {S : Type 0} (ports : Ports S) {A : Type 0} where
  pub within_transaction-ok :
      (body : Action S ServiceError A) (s s' : S) (a : A)
      → within_transaction ports body s ≡ (ok a, s')
      → body s ≡ (ok a, s')
  unfolding within_transaction
  within_transaction-ok body s s' a h = bracketed-ok (bracket ports) body s s' a h

  module _ (rows : Rows S) (law : IsLawful ports rows) where
    table_of :
        (s s' : S) (e : ServiceError) (out : Result ServiceError A × S)
        → rows out.1 ≡ rows s
        → out ≡ (err e, s')
        → rows s' ≡ rows s
    table_of s s' e out k h = view_of (bracket ports) rows law.rollback-rows s s' e out k h

    within_transaction-rolled :
        (body : Action S ServiceError A) (s s' : S) (e : ServiceError)
        → within_transaction ports body s ≡ (err e, s')
        → rows s' ≡ rows s
    unfolding within_transaction
    within_transaction-rolled body s s' e h =
        bracketed-rolled (bracket ports) rows law.rollback-rows body s s' e h

module _ {S : Type 0} where
  rejected-err :
      (e : ServiceError) (s' : S) (r : Recorded) (out : Result ServiceError (Unit {0}) × S)
      → rejected e out ≢ (ok r, s')
  unfolding rejected
  rejected-err e s' r (ok _, t) = λ h. cc
  rejected-err e s' r (err _, t) = λ h. cc

  rejected-store :
      (e : ServiceError) (out : Result ServiceError (Unit {0}) × S) → (rejected e out).1 ≡ out.1
  unfolding rejected
  rejected-store e (ok _, t) = refl
  rejected-store e (err _, t) = refl

module _ {S : Type 0} (ports : Ports S) (principal p target : Uuid) (correlation : Bytes)
    (correction : Bool) where
  report-ok :
      (s' : S) (r : Recorded) (out : Result ServiceError Recorded × S)
      → report ports principal p target correlation correction out ≡ (ok r, s')
      → out ≡ (ok r, s')
  unfolding report
  report-ok s' r (ok a, t) h = h
  report-ok s' r (err e, t) h = elim (Bool-cases (is_rejection e)) [
    | inl b ↦ absurd (rejected-err e s' r _ (rw b at h))
    | inr b ↦ let same = rw b at h in cc
  ]

  report-Keeps :
      (rows : Rows S) (law : IsLawful ports rows) (e : ServiceError) (t : S)
      → rows (report ports principal p target correlation correction (err e, t)).1 ≡ rows t
  unfolding report append_rejection_of
  report-Keeps rows law e t = elim (Bool-cases (is_rejection e)) [
    | inl b ↦ rw b (
        rw
          (rejected-store e
            (append_rejection_of ports principal p target correlation correction e t))
          (append_audit_to-Keeps ports rows law ports.append_rejection principal p target 0
            correlation _ false law.append_rejection-rows t))
    | inr b ↦ rw b refl
  ]

module _ {S : Type 0} (ports : Ports S) (principal p target : Uuid) (input : CommandInput)
    (metadata : CommandMetadata) (correction : Bool) where
  -- A call that succeeds has passed the first checks, and its body has succeeded.
  pub execute-ok :
      (s s' : S) (r : Recorded)
      → execute ports principal p target input metadata correction s ≡ (ok r, s')
      → execute_within ports principal p target input metadata correction s ≡ (ok r, s')
  unfolding execute
  execute-ok s s' r h = elim (Bool-cases (is_zero principal)) [
    | inl b ↦ let same = rw b at h in cc
    | inr b ↦ elim (Bool-cases (matches_correlation_id metadata.correlation_id)) [
      | inl c ↦ within_transaction-ok ports _ s s' r (
          report-ok ports principal p target metadata.correlation_id correction s' r _
            (rw (b, c) at h))
      | inr c ↦ let same = rw (b, c) at h in cc
    ]
  ]

  module _ (rows : Rows S) (law : IsLawful ports rows) where
    ended-rows :
        (body : Action S ServiceError Recorded) (s : S) (e : ServiceError)
        → (within_transaction ports body s).0 ≡ err e
        → rows (within_transaction ports body s).1 ≡ rows s
    ended-rows body s e h =
        within_transaction-rolled ports rows law body s _ e
          (λ i. (h i, (within_transaction ports body s).1))

    reported-rows :
        (s s' : S) (e : ServiceError) (out : Result ServiceError Recorded × S)
        → ((d : ServiceError) → out.0 ≡ err d → rows out.1 ≡ rows s)
        → report ports principal p target metadata.correlation_id correction out ≡ (err e, s')
        → rows s' ≡ rows s
    reported-rows s s' e (ok a, t) k h = unfold report in cc
    reported-rows s s' e (err d, t) k h =
        table_of ports rows law s s' e _
          (report-Keeps ports principal p target metadata.correlation_id correction rows law d t
            ∙ k d refl)
          h

    -- Over lawful ports, a call of Create or Correct that returns an error leaves the table of
    -- facts as it was.
    pub execute-atomic :
        (s s' : S) (e : ServiceError)
        → execute ports principal p target input metadata correction s ≡ (err e, s')
        → rows s' ≡ rows s
    unfolding execute
    execute-atomic s s' e h = elim (Bool-cases (is_zero principal)) [
      | inl b ↦ let same = rw b at h in table_of ports rows law s s' e _ refl same
      | inr b ↦ elim (Bool-cases (matches_correlation_id metadata.correlation_id)) [
        | inl c ↦ reported-rows s s' e _ (λ d. ended-rows _ s d) (rw (b, c) at h)
        | inr c ↦ let same = rw (b, c) at h in table_of ports rows law s s' e _ refl same
      ]
    ]
