-- ===== src/Platform/Outbox.antt =====
-- backend/internal/platform/outbox/outbox.go: the events of the outbox and what may be stored. The
-- regular expressions are read as tests on bytes; the JSON form of a reference is left out.
use ai_portfolio_research_as.Prelude.{
  ℕ, Bool, true, false, not, ◌&&◌, ◌||◌, List, [], ◌∷◌, ok, ◌>>◌, fail_if, is_ok, Result, ltb, leb,
  ◌==◌, length,
}
use ai_portfolio_research_as.Prelude.Int.{ℤ, pos, leb_ℤ, ltb_ℤ}
use ai_portfolio_research_as.Prelude.Time.{Instant, is_zero_time, after}
use ai_portfolio_research_as.Text.{Bytes, split, is_digit}
use ai_portfolio_research_as.Transaction.Value.{Uuid, is_zero}

pub data OutboxError : Type 0 where
  invalid_event invalid_claim_request invalid_failure_code invalid_consumer_name : OutboxError

abbrev pub OutboxOutcome : Type 0
OutboxOutcome = Result OutboxError (Unit {0})

abbrev pub maximum_claim_batch_size : ℤ
maximum_claim_batch_size = pos 100

abbrev pub is_lower : ℕ → Bool
is_lower c = leb 97 c && leb c 122

-- `[a-z0-9_]`
abbrev pub is_name_byte : ℕ → Bool
is_name_byte c = is_lower c || is_digit c || c == b'_'

-- `[A-Za-z0-9._-]`
abbrev pub is_correlation_byte : ℕ → Bool
is_correlation_byte c =
    is_lower c || (leb 65 c && leb c 90) || is_digit c || c == b'.' || c == b'_' || c == b'-'

unfoldable pub all_bytes : (ℕ → Bool) → Bytes → Bool
all_bytes p [] = true
all_bytes p (c ∷ s) = let rest = all_bytes p s in p c && rest

-- `^[a-z][a-z0-9_]*$`
unfoldable pub is_name : Bytes → Bool
unfolding all_bytes
is_name [] = false
is_name (c ∷ s) = is_lower c && all_bytes is_name_byte s

-- `^[a-z][a-z0-9_]{0,n-1}$`
abbrev pub is_name_within : ℕ → Bytes → Bool
is_name_within n s = is_name s && leb (length s) n

unfoldable pub all_names : List Bytes → Bool
unfolding is_name
all_names [] = true
all_names (p ∷ ps) = let rest = all_names ps in is_name p && rest

-- `eventTypePattern`: two to eight names between dots
unfoldable pub matches_event_type : Bytes → Bool
unfolding split all_names
matches_event_type s =
    all_names (split s b'.') && leb 2 (length (split s b'.')) && leb (length (split s b'.')) 8

unfoldable pub matches_correlation_id : Bytes → Bool
unfolding all_bytes
matches_correlation_id s = leb 1 (length s) && leb (length s) 128 && all_bytes is_correlation_byte s

pub record Reference : Type 0 where
  pub role : Bytes
  pub id : Uuid

pub record Payload : Type 0 where
  pub schema_version : ℤ
  pub references : List Reference

pub record Event : Type 0 where
  pub id : Uuid
  pub event_type : Bytes
  pub version : ℤ
  pub aggregate_type : Bytes
  pub aggregate_id : Uuid
  pub portfolio_id : Uuid
  pub occurred_at : Instant
  pub correlation_id : Bytes
  pub payload : Payload
  pub next_attempt_at : Instant

pub record ClaimedEvent : Type 0 where
  pub event : Event
  pub aggregate_position : ℤ
  pub attempt_count : ℤ
  pub claim_token : Uuid
  pub claimed_at : Instant
  pub lease_expires_at : Instant

pub record ClaimRequest : Type 0 where
  pub as_of : Instant
  pub claim_token : Uuid
  pub lease_expires_at : Instant
  pub batch_limit : ℤ

unfoldable pub validate_references : List Reference → OutboxOutcome
unfolding is_name
validate_references [] = ok tt
validate_references (r ∷ rs) = do
  let rest = validate_references rs
  fail_if (not (is_name_within 64 r.role) || is_zero r.id) invalid_event
  rest

unfoldable pub validate_payload : Payload → OutboxOutcome
validate_payload payload = do
  fail_if (leb_ℤ payload.schema_version (pos 0) || ltb 8 (length payload.references)) invalid_event
  validate_references payload.references

unfoldable pub validate_event : Event → OutboxOutcome
unfolding is_name
validate_event event =
    fail_if
      (is_zero event.id
        || leb_ℤ event.version (pos 0)
        || is_zero event.aggregate_id
        || is_zero event.portfolio_id
        || is_zero_time event.occurred_at
        || is_zero_time event.next_attempt_at
        || ltb 128 (length event.event_type)
        || not (matches_event_type event.event_type)
        || not (is_name_within 64 event.aggregate_type)
        || not (matches_correlation_id event.correlation_id)
        || not (is_ok (validate_payload event.payload)))
      invalid_event

unfoldable pub validate_claim_request : ClaimRequest → OutboxOutcome
validate_claim_request request =
    fail_if
      (is_zero_time request.as_of
        || is_zero request.claim_token
        || is_zero_time request.lease_expires_at
        || not (after request.lease_expires_at request.as_of)
        || ltb_ℤ request.batch_limit (pos 1)
        || ltb_ℤ maximum_claim_batch_size request.batch_limit)
      invalid_claim_request

unfoldable pub validate_failure_code : Bytes → OutboxOutcome
unfolding is_name
validate_failure_code value = fail_if (not (is_name_within 64 value)) invalid_failure_code

unfoldable pub validate_consumer_name : Bytes → OutboxOutcome
unfolding is_name
validate_consumer_name value = fail_if (not (is_name_within 128 value)) invalid_consumer_name
