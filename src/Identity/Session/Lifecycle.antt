-- ===== src/Identity/Session/Lifecycle.antt =====
-- What `NewRefreshSession` of backend/internal/identity/domain/refresh_session.go lets through.
use mathlib.Core.Path.{subst}
use ai_portfolio_research_as.Prelude.{
  ◌≡◌, ◌≢◌, ◌<◌, ◌≤◌, ◌⊎◌, refl, sym, arith, Bool, true, false, not, ◌||◌, [], Option, none, some,
  ok, length,
}
use ai_portfolio_research_as.Prelude.Time.{zero_time}
use ai_portfolio_research_as.Text.{Bytes, is_empty}
use ai_portfolio_research_as.Text.Blank.{is_blank}
use ai_portfolio_research_as.Identity.Session.{
  RefreshSessionState, active, replaced, revoked, expired, other, RefreshSessionData,
  RefreshSession, new_refresh_session, session_of, validate_lifecycle, bad_identity, bad_times,
  bad_client, check_session_state, state_disagrees, present, value_or,
}
use ai_portfolio_research_as.Identity.Session.Operations.{data_of, given}

-- The identity, the times and the links of a session.
pub record IsSession (s : RefreshSession) : Type 0 where
  pub identified : s.id ≢ 0
  pub in_family : s.family_id ≢ 0
  pub of_user : s.user_id ≢ 0
  pub digested : s.token_digest.valid ≡ true
  pub known : s.state ≢ other
  pub starts : s.created_at < s.idle_expires_at
  pub bounded : s.idle_expires_at ≤ s.absolute_expires_at
  pub linked : s.has_replacement_id ≡ s.has_replaced_at
  pub replacement :
      s.has_replacement_id ≡ true
      → (s.replacement_id ≢ 0) × (s.replacement_id ≢ s.id) × (s.created_at ≤ s.replaced_at)
  pub revocation :
      s.has_revoked_at ≡ true
      → (s.created_at ≤ s.revoked_at)
        × (is_blank s.revocation_reason ≡ false)
        × (length s.revocation_reason ≤ 128)
  pub unrevoked : s.has_revoked_at ≡ false → s.revocation_reason ≡ []
  pub open_state :
      (s.state ≡ active) ⊎ (s.state ≡ expired)
      → (s.has_replacement_id ≡ false) × (s.has_revoked_at ≡ false)
  pub replaced_state :
      s.state ≡ replaced → (s.has_replacement_id ≡ true) × (s.has_revoked_at ≡ false)
  pub revoked_state : s.state ≡ revoked → s.has_revoked_at ≡ true

-- An accepted session holds the fields of its data.
pub session_of-eq :
    (d : RefreshSessionData) (s : RefreshSession) → new_refresh_session d ≡ ok s → s ≡ session_of d
unfolding new_refresh_session
session_of-eq d s h = ground arith

pub guards :
    (d : RefreshSessionData) (s : RefreshSession)
    → new_refresh_session d ≡ ok s
    → (bad_identity d ≡ false)
      × (check_session_state d.state ≡ ok d.state)
      × (bad_times d ≡ false)
      × (bad_client d ≡ false)
      × (validate_lifecycle d ≡ ok tt)
unfolding new_refresh_session check_session_state
guards d s h = ground arith

given-present : {A : Type 0} (a : A) (o : Option A) → given (present o) (value_or a o) ≡ o
given-present a none = refl
given-present a (some b) = refl

-- Data gives back the data that NewRefreshSession has made a session of.
pub new_refresh_session-data :
    (d : RefreshSessionData) (s : RefreshSession) → new_refresh_session d ≡ ok s → data_of s ≡ d
unfolding data_of session_of
new_refresh_session-data d s h = rw (session_of-eq d s h) (
    rw (given-present 0 d.replacement_id)
      (rw (given-present zero_time d.replaced_at) (rw (given-present zero_time d.revoked_at) refl)))

identity_facts :
    (d : RefreshSessionData)
    → bad_identity d ≡ false
    → (d.id ≢ 0) × (d.family_id ≢ 0) × (d.user_id ≢ 0) × (d.token_digest.valid ≡ true)
unfolding bad_identity
identity_facts d h = ground arith

time_facts :
    (d : RefreshSessionData)
    → bad_times d ≡ false
    → (d.created_at < d.idle_expires_at) × (d.idle_expires_at ≤ d.absolute_expires_at)
unfolding bad_times
time_facts d h = ground arith

link_facts :
    (d : RefreshSessionData)
    → validate_lifecycle d ≡ ok tt
    → (present d.replacement_id ≡ present d.replaced_at)
      × (present d.replacement_id ≡ true
          → (value_or 0 d.replacement_id ≢ 0)
            × (value_or 0 d.replacement_id ≢ d.id)
            × (d.created_at ≤ value_or zero_time d.replaced_at))
unfolding validate_lifecycle
link_facts d h = ground arith

revocation_facts :
    (d : RefreshSessionData)
    → validate_lifecycle d ≡ ok tt
    → (present d.revoked_at ≡ true
        → (d.created_at ≤ value_or zero_time d.revoked_at)
          × (is_blank d.revocation_reason ≡ false)
          × (length d.revocation_reason ≤ 128))
      × (present d.revoked_at ≡ false → is_empty d.revocation_reason ≡ true)
unfolding validate_lifecycle
revocation_facts d h = ground arith

lifecycle_facts :
    (d : RefreshSessionData)
    → validate_lifecycle d ≡ ok tt
    → state_disagrees d.state
        (present d.replacement_id || present d.replaced_at)
        (present d.revoked_at || not (is_empty d.revocation_reason))
      ≡ false
unfolding validate_lifecycle
lifecycle_facts d h = ground arith

state_facts :
    (state : RefreshSessionState) (linked ended : Bool)
    → state_disagrees state linked ended ≡ false
    → ((state ≡ active) ⊎ (state ≡ expired) → (linked ≡ false) × (ended ≡ false))
      × (state ≡ replaced → (linked ≡ true) × (ended ≡ false))
      × (state ≡ revoked → ended ≡ true)
unfolding state_disagrees
state_facts state linked ended h = ground arith

known_facts : (state : RefreshSessionState) → check_session_state state ≡ ok state → state ≢ other
unfolding check_session_state
known_facts state h = ground arith

empty_is_nil : (t : Bytes) → is_empty t ≡ true → t ≡ []
empty_is_nil t h = ground arith

session_of-IsSession :
    (d : RefreshSessionData)
    → bad_identity d ≡ false
    → check_session_state d.state ≡ ok d.state
    → bad_times d ≡ false
    → validate_lifecycle d ≡ ok tt
    → IsSession (session_of d)
unfolding session_of
session_of-IsSession d identity state times lifecycle =
    let (id, family, user, digest) = identity_facts d identity in
    let (starts, bounded) = time_facts d times in
    let (linked, replacement) = link_facts d lifecycle in
    let (revocation, unrevoked) = revocation_facts d lifecycle in
    let (unused, retired, ended) = state_facts d.state _ _ (lifecycle_facts d lifecycle) in
    record {
      identified = id;
      in_family = family;
      of_user = user;
      digested = digest;
      known = known_facts d.state state;
      starts = starts;
      bounded = bounded;
      linked = linked;
      replacement = replacement;
      revocation = revocation;
      unrevoked = λ e. empty_is_nil d.revocation_reason (unrevoked e);
      open_state = λ e. let f = unused e in (ground (arith, f), ground (arith, f));
      replaced_state = λ e. let f = retired e in (ground (arith, f, linked), ground (arith, f));
      revoked_state = λ e. let f = ended e in ground (arith, f, unrevoked);
    }

-- A session that NewRefreshSession makes is identified, expires after its creation and within its
-- absolute expiry, and has the replacement and the revocation that its state asks for and no
-- other.
pub new_refresh_session-IsSession :
    (d : RefreshSessionData) (s : RefreshSession) → new_refresh_session d ≡ ok s → IsSession s
new_refresh_session-IsSession d s h =
    let (identity, state, times, _, lifecycle) = guards d s h in
    subst IsSession (sym (session_of-eq d s h))
      (session_of-IsSession d identity state times lifecycle)
