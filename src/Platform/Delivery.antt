-- ===== src/Platform/Delivery.antt =====
-- backend/internal/platform/worker/delivery.go: the delivery of claimed events. What the publisher,
-- the store, the clock, the jitter and the context answer is a parameter of the definitions; a
-- delivery is the list of its calls and its error. Durations are int64 nanoseconds, counts int32.
pub mod Backoff
pub mod Transitions
use ai_portfolio_research_as.Prelude.{
  ℕ, zero, suc, ◌+◌, ◌-◌, ◌*◌, ◌/◌, Bool, true, false, not, ◌&&◌, ◌||◌, List, [], ◌∷◌, Option, none,
  some, ok, err, ◌>>=◌, ◌>>◌, fail_if, Result, if◌then◌else◌, ◌++◌,
}
use ai_portfolio_research_as.Prelude.Int.{ℤ, pos, negsuc, pos_part, ◌+ℤ◌, ◌-ℤ◌, leb_ℤ, ltb_ℤ, eqb_ℤ}
use ai_portfolio_research_as.Prelude.Time.{Instant, before, utc}
use ai_portfolio_research_as.Text.{Bytes, codes}
use ai_portfolio_research_as.Transaction.Value.{Uuid}
use ai_portfolio_research_as.Platform.Outbox.{
  Event, ClaimedEvent, ClaimRequest, maximum_claim_batch_size,
}

-- `external` is an error of the store, of the token source or of the context, with its number.
pub data DeliveryError : Type 0 where
  invalid_config invalid_dependencies invalid_claim : DeliveryError
  external : ℕ → DeliveryError

pub record DeliveryConfig : Type 0 where
  pub lease_duration : ℤ
  pub retry_base_delay : ℤ
  pub retry_max_delay : ℤ
  pub max_delivery_invocations : ℤ
  pub batch_size : ℤ
  pub poll_interval : ℤ

abbrev pub maximum_delivery_invocations : ℤ
maximum_delivery_invocations = pos 2147483646

unfoldable pub validate_config : DeliveryConfig → Result DeliveryError (Unit {0})
validate_config c =
    fail_if
      (leb_ℤ c.lease_duration (pos 0)
        || leb_ℤ c.retry_base_delay (pos 0)
        || ltb_ℤ c.retry_max_delay c.retry_base_delay
        || ltb_ℤ c.max_delivery_invocations (pos 1)
        || ltb_ℤ maximum_delivery_invocations c.max_delivery_invocations
        || ltb_ℤ c.batch_size (pos 1)
        || ltb_ℤ maximum_claim_batch_size c.batch_size
        || leb_ℤ c.poll_interval (pos 0))
      invalid_config

-- `NewDelivery`, by whether the store and the publisher are given; the other dependencies have
-- defaults
unfoldable pub new_delivery : DeliveryConfig → Bool → Bool → Result DeliveryError DeliveryConfig
new_delivery config has_store has_publisher = do
  validate_config config
  fail_if (not has_store || not has_publisher) invalid_dependencies
  ok config

abbrev pub seconds : ℕ → ℤ
seconds n = pos (n * 1000000000)

unfoldable pub default_delivery_config : DeliveryConfig
default_delivery_config = record {
  lease_duration = seconds 60;
  retry_base_delay = seconds 5;
  retry_max_delay = seconds 300;
  max_delivery_invocations = pos 10;
  batch_size = pos 50;
  poll_interval = seconds 2;
}

abbrev pub max_int64 : ℕ
max_int64 = 9223372036854775807

abbrev pub two_64 : ℕ
two_64 = 18446744073709551616

-- `cap *= 2` on an int64
unfoldable pub double : ℤ → ℤ
double n =
    let twice = n +ℤ n in
    if ltb_ℤ (pos max_int64) twice
    then twice -ℤ pos two_64
    else if ltb_ℤ twice (negsuc max_int64)
    then twice +ℤ pos two_64
    else twice

-- `n / 2`, which rounds toward zero
unfoldable pub half : ℤ → ℤ
half (pos n) = pos (n / 2)
half (negsuc n) = pos 0 -ℤ pos ((n + 1) / 2)

-- the loop of `retryCap`, with the rounds that `n < attempt` leaves
unfoldable pub retry_loop : ℤ → ℕ → ℤ → ℤ
retry_loop max zero cap = cap
retry_loop max (suc k) cap =
    let rest = retry_loop max k (double cap) in
    if not (ltb_ℤ cap max) then cap else if ltb_ℤ (half max) cap then max else rest

unfoldable pub retry_cap : DeliveryConfig → ℤ → ℤ
retry_cap config attempt =
    retry_loop config.retry_max_delay (pos_part attempt - 1) config.retry_base_delay

pub data Call : Type 0 where
  publish : Uuid → Call
  mark_published : Uuid → Uuid → Instant → Call
  mark_dead_letter : Uuid → Uuid → Bytes → Call
  reschedule : Uuid → Uuid → Instant → Bytes → Call

-- What the dependencies answer during one delivery. `publish_error` and `cancelled` are nil errors
-- when absent; the three instants are the readings of the clock, at the calls that follow.
pub record Answers : Type 0 where
  pub publish_error : Option ℕ
  pub cancelled : Option ℕ
  pub failed_at : Instant
  pub acknowledged_at : Instant
  pub rescheduled_at : Instant
  pub jitter : ℤ → ℤ
  pub store_error : Call → Option ℕ

pub record Delivered : Type 0 where
  pub calls : List Call
  pub error : Option DeliveryError

abbrev pub as_error : Option ℕ → Option DeliveryError
as_error none = none
as_error (some e) = some (external e)

-- A call of the store, whose error is returned.
abbrev pub store_call : Answers → Call → Delivered
store_call answers call = record { calls = call ∷ []; error = as_error (answers.store_error call) }

abbrev pub exhausted : ClaimedEvent → Call
exhausted claim =
    mark_dead_letter claim.event.id claim.claim_token (codes "delivery_attempts_exhausted")

-- the retry, with the delay that the jitter has chosen
unfoldable pub retry : Answers → ClaimedEvent → ℤ → ℤ → Delivered
retry answers claim cap delay =
    if ltb_ℤ delay (pos 0) || ltb_ℤ cap delay
    then record { calls = []; error = some invalid_dependencies }
    else store_call answers (
        reschedule claim.event.id claim.claim_token (utc answers.rescheduled_at + pos_part delay)
          (codes "delivery_failed"))

-- from `if ctx.Err() != nil` on, after an error of the publisher
unfoldable pub after_failure : DeliveryConfig → Answers → ClaimedEvent → Option ℕ → Delivered
after_failure config answers claim (some e) = record { calls = []; error = some (external e) }
after_failure config answers claim none =
    let cap = retry_cap config claim.attempt_count in
    let last = store_call answers (exhausted claim) in
    let again = retry answers claim cap (answers.jitter cap) in
    if not (before answers.failed_at claim.lease_expires_at)
    then record { calls = []; error = none }
    else if eqb_ℤ claim.attempt_count config.max_delivery_invocations
    then last
    else again

unfoldable pub after_publish : DeliveryConfig → Answers → ClaimedEvent → Option ℕ → Delivered
after_publish config answers claim none =
    store_call answers
      (mark_published claim.event.id claim.claim_token (utc answers.acknowledged_at))
after_publish config answers claim (some _) = after_failure config answers claim answers.cancelled

abbrev pub then_calls : Call → Delivered → Delivered
then_calls call d = record d { calls = call ∷ d.calls }

unfoldable pub deliver : DeliveryConfig → Answers → ClaimedEvent → Delivered
deliver config answers claim =
    let dead = store_call answers (exhausted claim) in
    let sent =
      then_calls (publish claim.event.id)
        (after_publish config answers claim answers.publish_error) in
    if ltb_ℤ claim.attempt_count (pos 1)
    then record { calls = []; error = some invalid_claim }
    else if ltb_ℤ config.max_delivery_invocations claim.attempt_count
    then dead
    else sent

-- A claim with what its turn in the loop of `RunOnce` meets: the context, the clock, the delivery.
pub record Turn : Type 0 where
  pub claim : ClaimedEvent
  pub cancelled_before : Option ℕ
  pub started_at : Instant
  pub answers : Answers

unfoldable pub run_turn : DeliveryConfig → Option ℕ → Turn → Delivered
run_turn config (some e) turn = record { calls = []; error = some (external e) }
run_turn config none turn =
    let sent = deliver config turn.answers turn.claim in
    if not (before turn.started_at turn.claim.lease_expires_at)
    then record { calls = []; error = none }
    else sent

-- go on unless there was an error
abbrev pub and_then : Delivered → Delivered → Delivered
and_then d rest = elim d.error [
  | none ↦ record { calls = d.calls ++ rest.calls; error = rest.error }
  | some e ↦ d
]

-- the loop of `RunOnce`
unfoldable pub run_turns : DeliveryConfig → List Turn → Delivered
run_turns config [] = record { calls = []; error = none }
run_turns config (turn ∷ turns) =
    and_then (run_turn config turn.cancelled_before turn) (run_turns config turns)

-- the request of `RunOnce`
unfoldable pub claim_request : DeliveryConfig → Instant → Uuid → ClaimRequest
claim_request config now token = record {
  as_of = now;
  claim_token = token;
  lease_expires_at = now + pos_part config.lease_duration;
  batch_limit = config.batch_size;
}
