-- ===== src/Identity/Session/Revocation.antt =====
-- `Revoke` of backend/internal/identity/domain/refresh_session.go.
use ai_portfolio_research_as.Prelude.{
  ◌≡◌, ◌≢◌, ◌≤◌, ◌∙◌, refl, ap, arith, true, false, ◌||◌, some, ok, err, length, ltb,
}
use ai_portfolio_research_as.Prelude.Time.{Instant, before}
use ai_portfolio_research_as.Text.{Bytes, is_empty}
use ai_portfolio_research_as.Text.Blank.{is_blank}
use ai_portfolio_research_as.Identity.Errors.{session_revoked}
use ai_portfolio_research_as.Identity.Session.{
  RefreshSessionState, revoked, RefreshSessionData, RefreshSession, new_refresh_session, session_of,
  validate_lifecycle, bad_identity, bad_times, bad_client, check_session_state, state_disagrees,
}
use ai_portfolio_research_as.Identity.Session.Operations.{
  ReplacementInput, plan_replacement, replacement_eligibility, eligibility, is_active_at, revoke,
  revoked_data, is_revoked_state,
}
use ai_portfolio_research_as.Identity.Session.Lifecycle.{
  IsSession, guards, session_of-eq, new_refresh_session-data, new_refresh_session-IsSession,
}

-- the data of a session, with a revocation
ended : RefreshSessionData → Instant → Bytes → RefreshSessionData
ended d at reason = record d { state = revoked; revoked_at = some at; revocation_reason = reason }

not_empty : (t : Bytes) → is_blank t ≡ false → is_empty t ≡ false
unfolding is_blank
not_empty t h = ground arith

not_revoked : (state : RefreshSessionState) → state ≢ revoked → is_revoked_state state ≡ false
not_revoked state n = ground arith

module _ (d : RefreshSessionData) (at : Instant) (reason : Bytes) (late : d.created_at ≤ at)
    (given : is_blank reason ≡ false) (short : length reason ≤ 128) where
  ended-lifecycle : validate_lifecycle d ≡ ok tt → validate_lifecycle (ended d at reason) ≡ ok tt
  unfolding validate_lifecycle ended state_disagrees
  ended-lifecycle h = ground (arith, not_empty reason given)

  ended-made :
      (s : RefreshSession)
      → new_refresh_session d ≡ ok s
      → new_refresh_session (ended d at reason) ≡ ok (session_of (ended d at reason))
  unfolding new_refresh_session ended bad_identity bad_times bad_client check_session_state
  ended-made s h =
      let (identity, state, times, client, lifecycle) = guards d s h in
      ground (arith, identity, times, client, ended-lifecycle lifecycle)

  -- the session, revoked
  abbrev closed : RefreshSession → RefreshSession
  closed s = record s {
    state = revoked;
    revoked_at = at;
    has_revoked_at = true;
    revocation_reason = reason;
  }

  closed-session_of :
      (s : RefreshSession)
      → new_refresh_session d ≡ ok s
      → session_of (ended d at reason) ≡ closed s
  unfolding session_of ended
  closed-session_of s h = rw (session_of-eq d s h) refl

  created-eq : (s : RefreshSession) → new_refresh_session d ≡ ok s → s.created_at ≡ d.created_at
  unfolding session_of
  created-eq s h = ap (λ (s : RefreshSession). s.created_at) (session_of-eq d s h)

  reasons_pass :
      (s : RefreshSession)
      → new_refresh_session d ≡ ok s
      → (before at s.created_at || is_blank reason || ltb 128 (length reason)) ≡ false
  reasons_pass s h = ground (arith, created-eq s h)

  -- A session that was made and is not revoked is revoked at any time since its creation with a
  -- reason that is not blank and has at most 128 bytes, and its other fields stay.
  pub revoke-ok :
      (s : RefreshSession)
      → new_refresh_session d ≡ ok s
      → s.state ≢ revoked
      → revoke s at reason ≡ ok (closed s)
  unfolding revoke revoked_data ended
  revoke-ok s h n = rw (not_revoked s.state n) (
      rw (reasons_pass s h) (
        ap (λ (x : RefreshSessionData). new_refresh_session (ended x at reason))
          (new_refresh_session-data d s h)
        ∙ ended-made s h
        ∙ ap ok (closed-session_of s h)))

revoke-fields :
    (s t : RefreshSession) (at : Instant) (reason : Bytes)
    → revoke s at reason ≡ ok t
    → (s.state ≢ revoked)
      × (s.created_at ≤ at)
      × (is_blank reason ≡ false)
      × (length reason ≤ 128)
      × (new_refresh_session (revoked_data s at reason) ≡ ok t)
unfolding revoke
revoke-fields s t at reason h = ground arith

revoked-state :
    (s t : RefreshSession) (at : Instant) (reason : Bytes)
    → revoke s at reason ≡ ok t
    → t.state ≡ revoked
unfolding session_of revoked_data
revoked-state s t at reason h =
    ap (λ (s : RefreshSession). s.state)
      (session_of-eq (revoked_data s at reason) t (revoke-fields s t at reason h).4)

-- A session that Revoke returns is well formed, is never active, and is neither replaced nor
-- revoked again.
pub revoke-final :
    (s t : RefreshSession) (at : Instant) (reason : Bytes)
    → revoke s at reason ≡ ok t
    → IsSession t
      × ((now : Instant) → is_active_at t now ≡ false)
      × ((input : ReplacementInput) → plan_replacement t input ≡ err session_revoked)
      × ((later : Instant) (why : Bytes) → revoke t later why ≡ err session_revoked)
unfolding is_active_at plan_replacement replacement_eligibility eligibility revoke
revoke-final s t at reason h =
    let e = revoked-state s t at reason h in
    (
      new_refresh_session-IsSession (revoked_data s at reason) t (revoke-fields s t at reason h).4,
      λ now. rw e refl,
      λ input. rw e refl,
      λ later why. rw e refl,
    )
