-- ===== src/Tests/Limits.antt =====
-- Runs of backend/internal/identity/infrastructure/ratelimit/postgres.go over a list of events.
use ai_portfolio_research_as.Prelude.{
  ◌≡◌, refl, ◌∙◌, sym, ap, arith, ℕ, ◌+◌, ◌≤◌, Bool, true, false, ◌&&◌, List, [], ◌∷◌, Result, ok,
  err, ◌==◌, if◌then◌else◌, replicate,
}
use ai_portfolio_research_as.Prelude.Int.{pos}
use ai_portfolio_research_as.Prelude.Time.{Instant, before}
use ai_portfolio_research_as.Text.{Bytes, equal}
use ai_portfolio_research_as.Text.Equality.{equal_refl}
use ai_portfolio_research_as.Identity.Service.{
  RateLimitPolicy, login_email_failure, login_ip_attempt, registration_ip_attempt,
  refresh_family_attempt, RateLimitResult,
}
use ai_portfolio_research_as.Identity.RateLimit.{
  StoreError, RateLimitKey, LimitEvent, EventPorts, limit_of_policy, window_of_policy, event_of,
  check,
}
use ai_portfolio_research_as.Identity.RateLimit.Bounded.{
  Counts, Decision, check-Decision, check-bounded,
}
use ai_portfolio_research_as.Tests.Data.{tuesday}

abbrev policy_number : RateLimitPolicy → ℕ
policy_number login_email_failure = 0
policy_number login_ip_attempt = 1
policy_number registration_ip_attempt = 2
policy_number refresh_family_attempt = 3

unfoldable counts_event : RateLimitPolicy → Bytes → Instant → LimitEvent → Bool
counts_event p k now e =
    policy_number e.policy == policy_number p && equal e.derived_key k && before now e.expires_at

unfoldable active_events : List LimitEvent → RateLimitPolicy → Bytes → Instant → ℕ
active_events [] p k now = 0
active_events (e ∷ es) p k now =
    let rest = active_events es p k now in if counts_event p k now e then rest + 1 else rest

abbrev event_ports : EventPorts (List LimitEvent)
event_ports = record {
  lock = λ p k s. ok tt;
  delete_expired = λ p k now s. (ok tt, s);
  count_active = λ p k now s. ok (active_events s p k now);
  earliest_expiry = λ p k now s. ok (now + 1);
  insert = λ e s. (ok tt, e ∷ s);
  clear_failures = λ k s. (ok tt, []);
  cleanup = λ now s. (ok 0, s);
  bracket = record { begin = λ s. ok tt; commit = λ s. ok tt; rollback = λ s s'. s };
}

new_event_counts :
    (p : RateLimitPolicy) (k : Bytes) (now : Instant)
    → counts_event p k now (event_of p k now) ≡ true
unfolding counts_event event_of window_of_policy
new_event_counts login_email_failure k now = ground (arith, equal_refl k)
new_event_counts login_ip_attempt k now = ground (arith, equal_refl k)
new_event_counts registration_ip_attempt k now = ground (arith, equal_refl k)
new_event_counts refresh_family_attempt k now = ground (arith, equal_refl k)

inserted :
    (p : RateLimitPolicy) (k : Bytes) (now : Instant) (s : List LimitEvent)
    → active_events (event_of p k now ∷ s) p k now ≡ active_events s p k now + 1
unfolding active_events
inserted p k now s = rw (new_event_counts p k now) refl

events-Counts : Counts event_ports active_events
events-Counts = record {
  delete_expired-active = λ p k now s s' h.
      ap (λ (x : Result StoreError (Unit {0}) × List LimitEvent). active_events x.1 p k now)
        (sym h);
  count_active-active = λ p k now s n h. cc;
  insert-active = λ p k now s s' h.
      ap (λ (x : Result StoreError (Unit {0}) × List LimitEvent). active_events x.1 p k now) (sym h)
      ∙ inserted p k now s;
  rollback-active = λ s s'. refl;
}

abbrev client_key : RateLimitKey
client_key = record { value = replicate 32 7; valid = true }

abbrev let_in : RateLimitResult
let_in = record { allowed = true; remaining = pos 4; retry_after = pos 0 }

-- The run, computed.
limit_runs :
    check event_ports login_email_failure client_key tuesday []
    ≡ (ok let_in, event_of login_email_failure client_key.value tuesday ∷ [])
unfolding ai_portfolio_research_as.Text.equal ai_portfolio_research_as.Text.all_digits
    ai_portfolio_research_as.Text.split ai_portfolio_research_as.Text.trim_right
    ai_portfolio_research_as.Tests.Limits.counts_event
    ai_portfolio_research_as.Tests.Limits.active_events
    ai_portfolio_research_as.Identity.Service.new_rate_limit_error
    ai_portfolio_research_as.Identity.Service.safe_user_agent
    ai_portfolio_research_as.Identity.Service.audit_event
    ai_portfolio_research_as.Identity.User.account_status_of_text
    ai_portfolio_research_as.Identity.User.bad_disabling
    ai_portfolio_research_as.Identity.User.new_user
    ai_portfolio_research_as.Identity.User.new_active_user
    ai_portfolio_research_as.Identity.Session.session_state_of_text
    ai_portfolio_research_as.Identity.Session.check_session_state
    ai_portfolio_research_as.Identity.Session.state_disagrees
    ai_portfolio_research_as.Identity.Session.validate_lifecycle
    ai_portfolio_research_as.Identity.Session.session_of
    ai_portfolio_research_as.Identity.Session.bad_identity
    ai_portfolio_research_as.Identity.Session.bad_times
    ai_portfolio_research_as.Identity.Session.bad_client
    ai_portfolio_research_as.Identity.Session.new_refresh_session
    ai_portfolio_research_as.Identity.Credential.new_password_hash
    ai_portfolio_research_as.Identity.Credential.new_token_digest
    ai_portfolio_research_as.Identity.RateLimit.new_rate_limit_key
    ai_portfolio_research_as.Identity.RateLimit.limit_of_policy
    ai_portfolio_research_as.Identity.RateLimit.window_of_policy
    ai_portfolio_research_as.Identity.RateLimit.safe_store_error
    ai_portfolio_research_as.Identity.RateLimit.event_of
    ai_portfolio_research_as.Identity.RateLimit.refuse_attempt
    ai_portfolio_research_as.Identity.RateLimit.allow_attempt
    ai_portfolio_research_as.Identity.RateLimit.check_within
    ai_portfolio_research_as.Identity.RateLimit.check
    ai_portfolio_research_as.Identity.RateLimit.reset_within
    ai_portfolio_research_as.Identity.RateLimit.reset_login_email_failures
    ai_portfolio_research_as.Identity.RateLimit.cleanup_expired
    ai_portfolio_research_as.Identity.Service.Access.session_result
    ai_portfolio_research_as.Identity.Service.Access.initial_session
    ai_portfolio_research_as.Identity.Service.Access.registration_error
    ai_portfolio_research_as.Identity.Service.Access.stored_hash
    ai_portfolio_research_as.Identity.Service.Access.found_id
    ai_portfolio_research_as.Identity.Service.Access.found_disabled
    ai_portfolio_research_as.Identity.Service.Access.accepted_user
    ai_portfolio_research_as.Identity.Service.Access.active_user
    ai_portfolio_research_as.Identity.Service.Access.register_within
    ai_portfolio_research_as.Identity.Service.Access.registration_failed
    ai_portfolio_research_as.Identity.Service.Access.register
    ai_portfolio_research_as.Identity.Service.Access.login_failed
    ai_portfolio_research_as.Identity.Service.Access.login_within
    ai_portfolio_research_as.Identity.Service.Access.create_login_session
    ai_portfolio_research_as.Identity.Service.Access.admit
    ai_portfolio_research_as.Identity.Service.Access.login
    ai_portfolio_research_as.Identity.Service.Access.resolve_principal
    ai_portfolio_research_as.Identity.Service.Access.current_user
    ai_portfolio_research_as.Identity.Service.Requests.on_error
    ai_portfolio_research_as.Identity.Service.Requests.checked
    ai_portfolio_research_as.Identity.Service.Requests.read_now
    ai_portfolio_research_as.Identity.Service.Requests.resolve_network
    ai_portfolio_research_as.Identity.Service.Requests.prepare_request
    ai_portfolio_research_as.Identity.Service.Requests.check_rate_limit
    ai_portfolio_research_as.Identity.Service.Requests.session_ids
    ai_portfolio_research_as.Identity.Service.Requests.new_refresh_credential
    ai_portfolio_research_as.Identity.Service.Requests.append_failure_audit
    ai_portfolio_research_as.Identity.Service.Requests.swap_for
    ai_portfolio_research_as.Identity.Service.Requests.best_effort_rehash
    ai_portfolio_research_as.Identity.Service.Requests.within_transaction
    ai_portfolio_research_as.Identity.Service.Refreshing.is_retired
    ai_portfolio_research_as.Identity.Service.Refreshing.rotation_input
    ai_portfolio_research_as.Identity.Service.Refreshing.refresh_error
    ai_portfolio_research_as.Identity.Service.Refreshing.after_commit
    ai_portfolio_research_as.Identity.Service.Refreshing.logout_error
    ai_portfolio_research_as.Identity.Service.Refreshing.open_session
    ai_portfolio_research_as.Identity.Service.Refreshing.audit_session
    ai_portfolio_research_as.Identity.Service.Refreshing.answer_reuse
    ai_portfolio_research_as.Identity.Service.Refreshing.reject_user
    ai_portfolio_research_as.Identity.Service.Refreshing.rotate
    ai_portfolio_research_as.Identity.Service.Refreshing.refresh_open
    ai_portfolio_research_as.Identity.Service.Refreshing.refresh_within
    ai_portfolio_research_as.Identity.Service.Refreshing.refresh_failed
    ai_portfolio_research_as.Identity.Service.Refreshing.token_refused
    ai_portfolio_research_as.Identity.Service.Refreshing.refresh
    ai_portfolio_research_as.Identity.Service.Refreshing.logout_within
    ai_portfolio_research_as.Identity.Service.Refreshing.logout
    ai_portfolio_research_as.Identity.Session.Operations.new_active_refresh_session
    ai_portfolio_research_as.Identity.Session.Operations.data_of
    ai_portfolio_research_as.Identity.Session.Operations.is_expired_at
    ai_portfolio_research_as.Identity.Session.Operations.is_active_at
    ai_portfolio_research_as.Identity.Session.Operations.eligibility
    ai_portfolio_research_as.Identity.Session.Operations.replacement_eligibility
    ai_portfolio_research_as.Identity.Session.Operations.replaced_data
    ai_portfolio_research_as.Identity.Session.Operations.plan_replacement
    ai_portfolio_research_as.Identity.Session.Operations.revoked_data
    ai_portfolio_research_as.Identity.Session.Operations.revoke
    ai_portfolio_research_as.Platform.Outbox.all_bytes
    ai_portfolio_research_as.Platform.Outbox.is_name
    ai_portfolio_research_as.Platform.Outbox.all_names
    ai_portfolio_research_as.Platform.Outbox.matches_event_type
    ai_portfolio_research_as.Platform.Outbox.matches_correlation_id
    ai_portfolio_research_as.Platform.Outbox.validate_references
    ai_portfolio_research_as.Platform.Outbox.validate_payload
    ai_portfolio_research_as.Platform.Outbox.validate_event
    ai_portfolio_research_as.Platform.Outbox.validate_claim_request
    ai_portfolio_research_as.Platform.Outbox.validate_failure_code
    ai_portfolio_research_as.Platform.Outbox.validate_consumer_name
    ai_portfolio_research_as.Prelude.Actions.◌>>=◌ ai_portfolio_research_as.Prelude.Int.◌+ℤ◌
    ai_portfolio_research_as.Prelude.Int.◌-ℤ◌ ai_portfolio_research_as.Prelude.Time.zero_time
    ai_portfolio_research_as.Prelude.Transactions.committed
    ai_portfolio_research_as.Prelude.Transactions.transaction_end
    ai_portfolio_research_as.Prelude.Transactions.begun
    ai_portfolio_research_as.Prelude.Transactions.bracketed
    ai_portfolio_research_as.Text.Digits.value ai_portfolio_research_as.Text.Digits.unsigned
    ai_portfolio_research_as.Text.Digits.digits ai_portfolio_research_as.Text.Digits.numeral
    ai_portfolio_research_as.Text.Blank.is_blank ai_portfolio_research_as.Text.Utf8.valid_string
    ai_portfolio_research_as.Text.Utf8.rune_count
limit_runs = refl

within_limit :
    active_events [] login_email_failure client_key.value tuesday
    ≤ limit_of_policy login_email_failure
unfolding active_events limit_of_policy
within_limit = omega arith

check-Decision_example :
    Decision
      (limit_of_policy login_email_failure)
      (active_events [] login_email_failure client_key.value tuesday)
      (active_events
        (event_of login_email_failure client_key.value tuesday ∷ [])
        login_email_failure
        client_key.value
        tuesday)
      let_in
check-Decision_example =
    check-Decision event_ports active_events events-Counts login_email_failure client_key tuesday []
      (event_of login_email_failure client_key.value tuesday ∷ []) let_in limit_runs

check-bounded_example :
    active_events
      (event_of login_email_failure client_key.value tuesday ∷ [])
      login_email_failure
      client_key.value
      tuesday
    ≤ limit_of_policy login_email_failure
check-bounded_example =
    check-bounded event_ports active_events events-Counts login_email_failure client_key tuesday []
      (event_of login_email_failure client_key.value tuesday ∷ []) (ok let_in) limit_runs
      within_limit
