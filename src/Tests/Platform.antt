-- ===== src/Tests/Platform.antt =====
-- Runs of backend/internal/platform/worker/delivery.go.
use ai_portfolio_research_as.Prelude.{
  ◌≡◌, ◌≢◌, ◌<◌, ◌≤◌, ◌*◌, ◌^◌, refl, arith, [], ◌∷◌, ok, some, none, All, suc,
}
use ai_portfolio_research_as.Prelude.Int.{ℤ, pos, ◌≤ℤ◌}
use ai_portfolio_research_as.Prelude.Time.{zero_time}
use ai_portfolio_research_as.Text.{codes}
use ai_portfolio_research_as.Platform.Outbox.{Event, ClaimedEvent, validate_claim_request}
use ai_portfolio_research_as.Platform.Delivery.{
  DeliveryConfig, default_delivery_config, validate_config, retry_cap, Answers, Call, publish,
  deliver, claim_request,
}
use ai_portfolio_research_as.Platform.Delivery.Backoff.{min, retry_cap-min}
use ai_portfolio_research_as.Platform.Delivery.Transitions.{
  IsAllowed, IsSettlement, deliver-IsAllowed, deliver-settles,
}
use ai_portfolio_research_as.Tests.Data.{monday, tuesday}

abbrev claim : ClaimedEvent
claim = record {
  event = record {
    id = 51;
    event_type = codes "transaction.created";
    version = pos 1;
    aggregate_type = codes "transaction";
    aggregate_id = 11;
    portfolio_id = 1;
    occurred_at = monday;
    correlation_id = codes "req-1";
    payload = record { schema_version = pos 1; references = [] };
    next_attempt_at = monday;
  };
  aggregate_position = pos 1;
  attempt_count = pos 3;
  claim_token = 52;
  claimed_at = monday;
  lease_expires_at = tuesday;
}

-- The publisher fails, and the jitter is the whole bound.
abbrev answers : Answers
answers = record {
  publish_error = some 1;
  cancelled = none;
  failed_at = monday;
  acknowledged_at = monday;
  rescheduled_at = monday;
  jitter = λ cap. cap;
  store_error = λ _. none;
}

-- The runs, computed.
runs :
    (retry_cap default_delivery_config (pos 3) ≡ pos 20000000000)
    × (default_delivery_config.retry_base_delay ≡ pos 5000000000)
    × (default_delivery_config.retry_max_delay ≡ pos 300000000000)
    × (claim.attempt_count ≤ℤ default_delivery_config.max_delivery_invocations)
    × (pos 0 ≤ℤ answers.jitter (retry_cap default_delivery_config claim.attempt_count))
    × (answers.jitter (retry_cap default_delivery_config claim.attempt_count)
        ≤ℤ retry_cap default_delivery_config claim.attempt_count)
    × (validate_config default_delivery_config ≡ ok tt)
    × (zero_time < monday)
unfolding ai_portfolio_research_as.Platform.Delivery.Backoff.capped
    ai_portfolio_research_as.Platform.Delivery.after_failure
    ai_portfolio_research_as.Platform.Delivery.after_publish
    ai_portfolio_research_as.Platform.Delivery.claim_request
    ai_portfolio_research_as.Platform.Delivery.default_delivery_config
    ai_portfolio_research_as.Platform.Delivery.deliver
    ai_portfolio_research_as.Platform.Delivery.double
    ai_portfolio_research_as.Platform.Delivery.half ai_portfolio_research_as.Platform.Delivery.retry
    ai_portfolio_research_as.Platform.Delivery.retry_cap
    ai_portfolio_research_as.Platform.Delivery.retry_loop
    ai_portfolio_research_as.Platform.Delivery.run_turn
    ai_portfolio_research_as.Platform.Delivery.run_turns
    ai_portfolio_research_as.Platform.Delivery.validate_config
    ai_portfolio_research_as.Platform.Outbox.all_bytes
    ai_portfolio_research_as.Platform.Outbox.all_names
    ai_portfolio_research_as.Platform.Outbox.is_name
    ai_portfolio_research_as.Platform.Outbox.matches_correlation_id
    ai_portfolio_research_as.Platform.Outbox.matches_event_type
    ai_portfolio_research_as.Platform.Outbox.validate_claim_request
    ai_portfolio_research_as.Platform.Outbox.validate_consumer_name
    ai_portfolio_research_as.Platform.Outbox.validate_event
    ai_portfolio_research_as.Platform.Outbox.validate_failure_code
    ai_portfolio_research_as.Platform.Outbox.validate_payload
    ai_portfolio_research_as.Platform.Outbox.validate_references
    ai_portfolio_research_as.Prelude.Int.◌+ℤ◌ ai_portfolio_research_as.Prelude.Int.◌-ℤ◌
    ai_portfolio_research_as.Prelude.Time.zero_time ai_portfolio_research_as.Text.Blank.is_blank
    ai_portfolio_research_as.Text.Digits.digits ai_portfolio_research_as.Text.Digits.numeral
    ai_portfolio_research_as.Text.Digits.unsigned ai_portfolio_research_as.Text.Digits.value
    ai_portfolio_research_as.Text.Utf8.rune_count ai_portfolio_research_as.Text.Utf8.valid_string
    ai_portfolio_research_as.Text.all_digits ai_portfolio_research_as.Text.equal
    ai_portfolio_research_as.Text.split ai_portfolio_research_as.Text.trim_right
runs = (refl, refl, refl, omega arith, omega arith, omega arith, refl, omega arith)

third_cap : retry_cap default_delivery_config (pos 3) ≡ pos 20000000000
third_cap = runs.0

base_delay : default_delivery_config.retry_base_delay ≡ pos 5000000000
base_delay = runs.1

max_delay : default_delivery_config.retry_max_delay ≡ pos 300000000000
max_delay = runs.2

retry_cap-min_example :
    retry_cap default_delivery_config (pos (suc 2)) ≡ pos (min (5000000000 * 2 ^ 2) 300000000000)
retry_cap-min_example =
    retry_cap-min default_delivery_config 5000000000 300000000000 2 base_delay max_delay
      (omega arith) (omega arith)

deliver-IsAllowed_example :
    All
      (IsAllowed default_delivery_config answers claim)
      (deliver default_delivery_config answers claim).calls
deliver-IsAllowed_example = deliver-IsAllowed default_delivery_config answers claim

in_limit : claim.attempt_count ≤ℤ default_delivery_config.max_delivery_invocations
in_limit = runs.3

early : pos 0 ≤ℤ answers.jitter (retry_cap default_delivery_config claim.attempt_count)
early = runs.4

short :
    answers.jitter (retry_cap default_delivery_config claim.attempt_count)
    ≤ℤ retry_cap default_delivery_config claim.attempt_count
short = runs.5

deliver-settles_example :
    (transition : Call) × ((deliver default_delivery_config answers claim).calls
      ≡ publish claim.event.id ∷ transition ∷ [])
    × IsSettlement default_delivery_config answers claim transition
deliver-settles_example =
    deliver-settles default_delivery_config answers claim (omega arith) in_limit refl (omega arith)
      early short

default_valid : validate_config default_delivery_config ≡ ok tt
default_valid = runs.6

after_year_one : zero_time < monday
after_year_one = runs.7
