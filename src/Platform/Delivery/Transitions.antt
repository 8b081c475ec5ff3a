-- ===== src/Platform/Delivery/Transitions.antt =====
-- The calls that a delivery of backend/internal/platform/worker/delivery.go makes.
use ai_portfolio_research_as.Prelude.{
  ◌≡◌, ◌≢◌, ◌≤◌, ◌<◌, refl, ap, ◌∙◌, arith, ℕ, ◌+◌, true, Bool-cases, inl, inr, List, Option, none,
  some, ok, All, [], ◌∷◌,
}
use ai_portfolio_research_as.Prelude.Int.{pos, pos_part, ℤ, eqb_ℤ, ◌≤ℤ◌, ◌<ℤ◌}
use ai_portfolio_research_as.Prelude.Time.{Instant, zero_time}
use ai_portfolio_research_as.Text.{codes}
use ai_portfolio_research_as.Transaction.Value.{Uuid}
use ai_portfolio_research_as.Platform.Outbox.{
  ClaimedEvent, validate_failure_code, validate_claim_request,
}
use ai_portfolio_research_as.Platform.Delivery.{
  DeliveryConfig, validate_config, retry_cap, Answers, Call, publish, mark_published,
  mark_dead_letter, reschedule, deliver, after_publish, after_failure, retry, exhausted,
  claim_request,
}

module _ (config : DeliveryConfig) (answers : Answers) (claim : ClaimedEvent) where
  -- When a call may be made, and with which arguments.
  abbrev pub IsAllowed : Call → Type 0
  IsAllowed (publish id) =
      (id ≡ claim.event.id)
      × (pos 1 ≤ℤ claim.attempt_count)
      × (claim.attempt_count ≤ℤ config.max_delivery_invocations)
  IsAllowed (mark_published id token at) =
      (id ≡ claim.event.id)
      × (token ≡ claim.claim_token)
      × (answers.publish_error ≡ none)
      × (at ≡ answers.acknowledged_at)
  IsAllowed (mark_dead_letter id token code) =
      (id ≡ claim.event.id)
      × (token ≡ claim.claim_token)
      × (config.max_delivery_invocations ≤ℤ claim.attempt_count)
      × (validate_failure_code code ≡ ok tt)
  IsAllowed (reschedule id token at code) =
      (id ≡ claim.event.id)
      × (token ≡ claim.claim_token)
      × (answers.publish_error ≢ none)
      × (answers.cancelled ≡ none)
      × (answers.failed_at < claim.lease_expires_at)
      × (claim.attempt_count <ℤ config.max_delivery_invocations)
      × (answers.rescheduled_at ≤ at)
      × (at ≤ answers.rescheduled_at + pos_part (retry_cap config claim.attempt_count))
      × (validate_failure_code code ≡ ok tt)

eqb_ℤ→eq : (m n : ℤ) → eqb_ℤ m n ≡ true → m ≡ n
eqb_ℤ→eq m n h = ground arith

failed_code : validate_failure_code (codes "delivery_failed") ≡ ok tt
unfolding validate_failure_code
failed_code = refl

exhausted_code : validate_failure_code (codes "delivery_attempts_exhausted") ≡ ok tt
unfolding validate_failure_code
exhausted_code = refl

module _ (config : DeliveryConfig) (answers : Answers) (claim : ClaimedEvent) where
  -- Every call of a delivery is allowed: it publishes only within the limit of attempts,
  -- acknowledges only after a publication without an error, gives up only at the limit, and
  -- retries only below the limit, inside the lease and within the bound of the delay; each with
  -- the claim token and a valid failure code.
  pub deliver-IsAllowed : All (IsAllowed config answers claim) (deliver config answers claim).calls
  unfolding deliver after_publish after_failure retry
  deliver-IsAllowed = ground (arith, failed_code, exhausted_code)

  -- The transition of the store that must follow a publication: the acknowledgement after one
  -- without an error, the end at the last attempt, and else the retry after the chosen delay.
  abbrev pub IsSettlement : Call → Type 0
  IsSettlement (publish id) = ⊥
  IsSettlement (mark_published id token at) =
      (answers.publish_error ≡ none)
      × (id ≡ claim.event.id)
      × (token ≡ claim.claim_token)
      × (at ≡ answers.acknowledged_at)
  IsSettlement (mark_dead_letter id token code) =
      (answers.publish_error ≢ none)
      × (claim.attempt_count ≡ config.max_delivery_invocations)
      × (id ≡ claim.event.id)
      × (token ≡ claim.claim_token)
      × (code ≡ codes "delivery_attempts_exhausted")
  IsSettlement (reschedule id token at code) =
      (answers.publish_error ≢ none)
      × (claim.attempt_count <ℤ config.max_delivery_invocations)
      × (id ≡ claim.event.id)
      × (token ≡ claim.claim_token)
      × (at
          ≡ answers.rescheduled_at
            + pos_part (answers.jitter (retry_cap config claim.attempt_count)))
      × (code ≡ codes "delivery_failed")

  sent_calls :
      pos 1 ≤ℤ claim.attempt_count
      → claim.attempt_count ≤ℤ config.max_delivery_invocations
      → (deliver config answers claim).calls
        ≡ publish claim.event.id ∷ (after_publish config answers claim answers.publish_error).calls
  unfolding deliver
  sent_calls low high = ground arith

  -- what follows a failure, by whether it was the last attempt
  failure_calls :
      claim.attempt_count ≤ℤ config.max_delivery_invocations
      → answers.failed_at < claim.lease_expires_at
      → pos 0 ≤ℤ answers.jitter (retry_cap config claim.attempt_count)
      → answers.jitter (retry_cap config claim.attempt_count)
        ≤ℤ retry_cap config claim.attempt_count
      → answers.publish_error ≢ none
      → (transition : Call) × ((after_failure config answers claim none).calls ≡ transition ∷ [])
        × IsSettlement transition
  unfolding after_failure retry
  failure_calls high leased early short failed =
      elim (Bool-cases (eqb_ℤ claim.attempt_count config.max_delivery_invocations)) [
        | inl last ↦ (
          exhausted claim,
          ground arith,
          (
            failed,
            eqb_ℤ→eq claim.attempt_count config.max_delivery_invocations last,
            refl,
            refl,
            refl,
          ),
        )
        | inr more ↦ (
          reschedule claim.event.id claim.claim_token
              (answers.rescheduled_at
                + pos_part (answers.jitter (retry_cap config claim.attempt_count)))
              (codes "delivery_failed"),
          ground arith,
          (failed, ground arith, refl, refl, refl, refl),
        )
      ]

  published_calls :
      (e : Option ℕ)
      → answers.publish_error ≡ e
      → claim.attempt_count ≤ℤ config.max_delivery_invocations
      → answers.cancelled ≡ none
      → answers.failed_at < claim.lease_expires_at
      → pos 0 ≤ℤ answers.jitter (retry_cap config claim.attempt_count)
      → answers.jitter (retry_cap config claim.attempt_count)
        ≤ℤ retry_cap config claim.attempt_count
      → (transition : Call) × ((after_publish config answers claim e).calls ≡ transition ∷ [])
        × IsSettlement transition
  unfolding after_publish after_failure retry
  published_calls none p high live leased early short = (
    mark_published claim.event.id claim.claim_token answers.acknowledged_at,
    refl,
    (p, refl, refl, refl),
  )
  published_calls (some e) p high live leased early short =
      rw live (failure_calls high leased early short (λ h. cc))

  -- A delivery within the limit of attempts, whose context is not cancelled, whose lease has not
  -- ended when the publisher answers and whose jitter is in bounds, makes two calls: the
  -- publication, and the one transition of the store that its outcome asks for.
  pub deliver-settles :
      pos 1 ≤ℤ claim.attempt_count
      → claim.attempt_count ≤ℤ config.max_delivery_invocations
      → answers.cancelled ≡ none
      → answers.failed_at < claim.lease_expires_at
      → pos 0 ≤ℤ answers.jitter (retry_cap config claim.attempt_count)
      → answers.jitter (retry_cap config claim.attempt_count)
        ≤ℤ retry_cap config claim.attempt_count
      → (transition : Call) × ((deliver config answers claim).calls
          ≡ publish claim.event.id ∷ transition ∷ [])
        × IsSettlement transition
  unfolding deliver after_publish after_failure retry
  deliver-settles low high live leased early short =
      let (transition, rest, settles) =
        published_calls answers.publish_error refl high live leased early short in
      (
        transition,
        sent_calls low high ∙ ap (λ (l : List Call). publish claim.event.id ∷ l) rest,
        settles,
      )

-- The claim request of a valid configuration passes ClaimRequest.Validate, at a time after year 1
-- and with a nonzero token.
pub claim_request-valid :
    (config : DeliveryConfig) (now : Instant) (token : Uuid)
    → validate_config config ≡ ok tt
    → zero_time < now
    → token ≢ 0
    → validate_claim_request (claim_request config now token) ≡ ok tt
unfolding validate_config claim_request validate_claim_request
claim_request-valid config now token h late t = ground arith
