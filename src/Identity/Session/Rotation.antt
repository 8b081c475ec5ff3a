-- ===== src/Identity/Session/Rotation.antt =====
-- Rotation and revocation in backend/internal/identity/domain/refresh_session.go.
use ai_portfolio_research_as.Prelude.{◌≡◌, ◌≢◌, ◌∙◌, refl, sym, arith, true, ok, err}
use ai_portfolio_research_as.Prelude.Time.{Instant}
use ai_portfolio_research_as.Identity.Errors.{
  IdentityError, IdentityOutcome, session_replaced, invalid_replacement,
}
use ai_portfolio_research_as.Identity.Session.{
  active, replaced, RefreshSession, new_refresh_session, session_of,
}
use ai_portfolio_research_as.Identity.Session.Operations.{
  ReplacementInput, plan_replacement, replacement_eligibility, eligibility,
  new_active_refresh_session, replaced_data, or_else, is_active_at, is_expired_at,
}
use ai_portfolio_research_as.Identity.Session.Lifecycle.{
  IsSession, session_of-eq, new_refresh_session-IsSession,
}

-- How a rotation links the retired session and its replacement.
pub record IsRotation (s : RefreshSession) (input : ReplacementInput)
    (retired replacement : RefreshSession) : Type 0 where
  pub was_active : is_active_at s input.created_at ≡ true
  pub retired_valid : IsSession retired
  pub replacement_valid : IsSession replacement
  pub retired_kept :
      (retired.id ≡ s.id)
      × (retired.family_id ≡ s.family_id)
      × (retired.user_id ≡ s.user_id)
      × (retired.token_digest ≡ s.token_digest)
      × (retired.absolute_expires_at ≡ s.absolute_expires_at)
  pub retired_state : retired.state ≡ replaced
  pub retired_link :
      (retired.replacement_id ≡ replacement.id) × (retired.replaced_at ≡ replacement.created_at)
  pub same_family : replacement.family_id ≡ s.family_id
  pub same_user : replacement.user_id ≡ s.user_id
  pub same_bound : replacement.absolute_expires_at ≡ s.absolute_expires_at
  pub new_identity : (replacement.id ≡ input.session_id) × (replacement.id ≢ s.id)
  pub new_digest : replacement.token_digest ≡ input.token_digest
  pub replacement_active : is_active_at replacement input.created_at ≡ true

eligible :
    (s : RefreshSession) (now : Instant)
    → replacement_eligibility s now ≡ ok tt
    → is_active_at s now ≡ true
unfolding replacement_eligibility eligibility is_active_at
eligible s now h = ground arith

or_else-ok :
    {A : Type 0} (e : IdentityError) (m : IdentityOutcome A) (a : A) → or_else e m ≡ ok a → m ≡ ok a
or_else-ok e (ok b) a h = h
or_else-ok e (err x) a h = cc

module _ (s : RefreshSession) (input : ReplacementInput) (retired replacement : RefreshSession)
    (h : plan_replacement s input ≡ ok (retired, replacement)) where
  steps :
      (replacement_eligibility s input.created_at ≡ ok tt)
      × (input.session_id ≢ s.id)
      × (or_else invalid_replacement (
            new_active_refresh_session input.session_id s.family_id s.user_id input.token_digest
              input.created_at input.idle_expires_at s.absolute_expires_at
              input.network_identity_hash input.user_agent)
          ≡ ok replacement)
      × (new_refresh_session (replaced_data s input) ≡ ok retired)
  unfolding plan_replacement
  steps = ground arith

  retired-eq : retired ≡ session_of (replaced_data s input)
  retired-eq = session_of-eq (replaced_data s input) retired steps.3

  made :
      new_active_refresh_session input.session_id s.family_id s.user_id input.token_digest
        input.created_at input.idle_expires_at s.absolute_expires_at input.network_identity_hash
        input.user_agent
      ≡ ok replacement
  made = or_else-ok invalid_replacement _ replacement steps.2

  replacement-eq :
      (replacement.id ≡ input.session_id)
      × (replacement.family_id ≡ s.family_id)
      × (replacement.user_id ≡ s.user_id)
      × (replacement.token_digest ≡ input.token_digest)
      × (replacement.state ≡ active)
      × (replacement.created_at ≡ input.created_at)
      × (replacement.absolute_expires_at ≡ s.absolute_expires_at)
  unfolding new_active_refresh_session session_of
  replacement-eq = let e = session_of-eq _ replacement made in ground (arith, e)

  replacement-IsSession : IsSession replacement
  unfolding new_active_refresh_session
  replacement-IsSession = new_refresh_session-IsSession _ replacement made

  retired_fields :
      ((retired.id ≡ s.id)
        × (retired.family_id ≡ s.family_id)
        × (retired.user_id ≡ s.user_id)
        × (retired.token_digest ≡ s.token_digest)
        × (retired.absolute_expires_at ≡ s.absolute_expires_at))
      × (retired.state ≡ replaced)
      × (retired.replacement_id ≡ input.session_id)
      × (retired.replaced_at ≡ input.created_at)
  unfolding session_of replaced_data
  retired_fields = ground (arith, retired-eq)

  replacement-active : is_active_at replacement input.created_at ≡ true
  unfolding is_active_at is_expired_at
  replacement-active =
      ground (arith, replacement-eq, replacement-IsSession.starts, replacement-IsSession.bounded)

  -- A rotation that succeeds was asked of an active session; it retires that session and makes an
  -- active one of the same family, user and absolute expiry with another identifier, which the
  -- retired session names; both are well formed.
  pub plan_replacement-IsRotation : IsRotation s input retired replacement
  plan_replacement-IsRotation =
      let (eligible_now, fresh, _, retiring) = steps in
      let (id, family, user, digest, _, created, bound) = replacement-eq in
      let (kept, state, link, at) = retired_fields in
      record {
        was_active = eligible s input.created_at eligible_now;
        retired_valid = new_refresh_session-IsSession (replaced_data s input) retired retiring;
        replacement_valid = replacement-IsSession;
        retired_kept = kept;
        retired_state = state;
        retired_link = (link ∙ sym id, at ∙ sym created);
        same_family = family;
        same_user = user;
        same_bound = bound;
        new_identity = (id, λ e. fresh (sym id ∙ e));
        new_digest = digest;
        replacement_active = replacement-active;
      }

  -- A session that a rotation has retired is refused by every later rotation as replaced.
  pub plan_replacement-once :
      (again : ReplacementInput) → plan_replacement retired again ≡ err session_replaced
  unfolding plan_replacement replacement_eligibility eligibility
  plan_replacement-once again = rw (retired_fields.1) refl
