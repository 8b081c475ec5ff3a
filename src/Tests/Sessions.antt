-- ===== src/Tests/Sessions.antt =====
-- Runs of backend/internal/identity/domain/refresh_session.go.
use ai_portfolio_research_as.Prelude.{
  ◌≡◌, ◌≢◌, refl, arith, true, false, [], ◌∷◌, ok, err, some, none, replicate, length, ◌≤◌,
}
use ai_portfolio_research_as.Prelude.Time.{Instant, zero_time}
use ai_portfolio_research_as.Text.{Bytes, codes}
use ai_portfolio_research_as.Text.Blank.{is_blank}
use ai_portfolio_research_as.Identity.Credential.{TokenDigest}
use ai_portfolio_research_as.Identity.Errors.{session_replaced, session_revoked}
use ai_portfolio_research_as.Identity.Session.{
  RefreshSessionData, RefreshSession, active, revoked, new_refresh_session, session_of,
}
use ai_portfolio_research_as.Identity.Session.Operations.{
  data_of, ReplacementInput, plan_replacement, replaced_data, revoke, is_active_at,
}
use ai_portfolio_research_as.Identity.Session.Lifecycle.{IsSession, new_refresh_session-IsSession}
use ai_portfolio_research_as.Identity.Session.Rotation.{
  IsRotation, plan_replacement-IsRotation, plan_replacement-once,
}
use ai_portfolio_research_as.Identity.Session.Revocation.{revoke-final}
use ai_portfolio_research_as.Tests.Data.{monday, tuesday}

abbrev pub digest : TokenDigest
digest = record { value = replicate 32 7; valid = true }

abbrev pub wednesday : Instant
wednesday = 9223372037027575807000000000

abbrev pub thursday : Instant
thursday = 9223372037113975807000000000

abbrev pub login : RefreshSessionData
login = record {
  id = 41;
  family_id = 42;
  user_id = 2;
  token_digest = digest;
  state = active;
  replacement_id = none;
  created_at = monday;
  replaced_at = none;
  idle_expires_at = wednesday;
  absolute_expires_at = thursday;
  revoked_at = none;
  revocation_reason = [];
  network_identity_hash = [];
  user_agent = codes "curl";
}

abbrev pub session : RefreshSession
unfolding session_of
session = session_of login

abbrev refresh : ReplacementInput
refresh = record {
  session_id = 43;
  token_digest = digest;
  created_at = tuesday;
  idle_expires_at = wednesday;
  network_identity_hash = [];
  user_agent = codes "curl";
}

abbrev pub retired : RefreshSession
unfolding session_of replaced_data
retired = session_of (replaced_data session refresh)

abbrev renewed : RefreshSession
renewed = record session { id = 43; created_at = tuesday }

abbrev closed_session : RefreshSession
closed_session = record session {
  state = revoked;
  revoked_at = tuesday;
  has_revoked_at = true;
  revocation_reason = codes "logout";
}

-- The runs, computed.
runs :
    (new_refresh_session login ≡ ok session)
    × (plan_replacement session refresh ≡ ok (retired, renewed))
    × (is_blank (codes "logout") ≡ false)
    × (revoke session tuesday (codes "logout") ≡ ok closed_session)
unfolding ai_portfolio_research_as.Identity.Credential.new_password_hash
    ai_portfolio_research_as.Identity.Credential.new_token_digest
    ai_portfolio_research_as.Identity.Session.Operations.data_of
    ai_portfolio_research_as.Identity.Session.Operations.eligibility
    ai_portfolio_research_as.Identity.Session.Operations.is_active_at
    ai_portfolio_research_as.Identity.Session.Operations.is_expired_at
    ai_portfolio_research_as.Identity.Session.Operations.new_active_refresh_session
    ai_portfolio_research_as.Identity.Session.Operations.plan_replacement
    ai_portfolio_research_as.Identity.Session.Operations.replaced_data
    ai_portfolio_research_as.Identity.Session.Operations.replacement_eligibility
    ai_portfolio_research_as.Identity.Session.Operations.revoke
    ai_portfolio_research_as.Identity.Session.Operations.revoked_data
    ai_portfolio_research_as.Identity.Session.bad_client
    ai_portfolio_research_as.Identity.Session.bad_identity
    ai_portfolio_research_as.Identity.Session.bad_times
    ai_portfolio_research_as.Identity.Session.check_session_state
    ai_portfolio_research_as.Identity.Session.new_refresh_session
    ai_portfolio_research_as.Identity.Session.session_of
    ai_portfolio_research_as.Identity.Session.session_state_of_text
    ai_portfolio_research_as.Identity.Session.state_disagrees
    ai_portfolio_research_as.Identity.Session.validate_lifecycle
    ai_portfolio_research_as.Prelude.Int.◌+ℤ◌ ai_portfolio_research_as.Prelude.Int.◌-ℤ◌
    ai_portfolio_research_as.Prelude.Time.zero_time ai_portfolio_research_as.Text.Blank.is_blank
    ai_portfolio_research_as.Text.Digits.digits ai_portfolio_research_as.Text.Digits.numeral
    ai_portfolio_research_as.Text.Digits.unsigned ai_portfolio_research_as.Text.Digits.value
    ai_portfolio_research_as.Text.Utf8.rune_count ai_portfolio_research_as.Text.Utf8.valid_string
    ai_portfolio_research_as.Text.all_digits ai_portfolio_research_as.Text.equal
    ai_portfolio_research_as.Text.split ai_portfolio_research_as.Text.trim_right
runs = (refl, refl, refl, refl)

started : new_refresh_session login ≡ ok session
started = runs.0

new_refresh_session-IsSession_example : IsSession session
new_refresh_session-IsSession_example = new_refresh_session-IsSession login session started

rotated : plan_replacement session refresh ≡ ok (retired, renewed)
rotated = runs.1

plan_replacement-IsRotation_example : IsRotation session refresh retired renewed
plan_replacement-IsRotation_example =
    plan_replacement-IsRotation session refresh retired renewed rotated

plan_replacement-once_example : plan_replacement retired refresh ≡ err session_replaced
plan_replacement-once_example =
    plan_replacement-once session refresh retired renewed rotated refresh

given_reason : is_blank (codes "logout") ≡ false
given_reason = runs.2

still_active : session.state ≢ revoked
unfolding session_of
still_active = λ h. cc

late_enough : login.created_at ≤ tuesday
late_enough = omega arith

short_enough : length (codes "logout") ≤ 128
short_enough = omega arith

ended : revoke session tuesday (codes "logout") ≡ ok closed_session
ended = runs.3

revoke-final_example :
    IsSession closed_session
    × ((now : Instant) → is_active_at closed_session now ≡ false)
    × ((input : ReplacementInput) → plan_replacement closed_session input ≡ err session_revoked)
    × ((later : Instant) (why : Bytes) → revoke closed_session later why ≡ err session_revoked)
revoke-final_example = revoke-final session closed_session tuesday (codes "logout") ended
