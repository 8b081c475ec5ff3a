-- ===== src/Identity/Service/Rotated.antt =====
-- When `Refresh` of backend/internal/identity/application/operations.go grants a session.
use mathlib.Core.Path.{subst}
use ai_portfolio_research_as.Prelude.{
  ◌≡◌, ◌∙◌, sym, ap, ℕ, Bool-cases, inl, inr, true, false, Option, none, some, ok,
}
use ai_portfolio_research_as.Prelude.Time.{Instant}
use ai_portfolio_research_as.Prelude.Actions.{bind-eq-ok, lift-eq-ok, pure-eq-ok, rename-eq-ok}
use ai_portfolio_research_as.Text.{Bytes}
use ai_portfolio_research_as.Transaction.Value.{Uuid}
use ai_portfolio_research_as.Identity.Credential.{TokenDigest}
use ai_portfolio_research_as.Identity.Session.{RefreshSession}
use ai_portfolio_research_as.Identity.Session.Operations.{plan_replacement}
use ai_portfolio_research_as.Identity.User.{User}
use ai_portfolio_research_as.Identity.Service.{
  AuthError, RefreshInput, RequestMetadata, SessionResult, SafeUser, safe_user, user_is_active,
  refresh_family_attempt,
}
use ai_portfolio_research_as.Identity.Service.Ports.{AuthPorts}
use ai_portfolio_research_as.Identity.Service.Requests.{read_now}
use ai_portfolio_research_as.Identity.Service.Stored.{
  Sessions, with_session, StoresSessions, kept, check_rate_limit-sessions,
  new_refresh_credential-sessions,
}
use ai_portfolio_research_as.Identity.Service.Refreshing.{
  audit_session, refresh, refresh_within, refresh_open, rotate, rotation_input, is_retired,
  after_commit, reject_user, answer_reuse, refresh_failed, token_refused,
}
use ai_portfolio_research_as.Identity.Service.Steps.{
  on_error-ok, then_err-Refuses, within_transaction-ok,
}

abbrev user_or : SafeUser → Option SessionResult → SafeUser
user_or d none = d
user_or d (some r) = r.user

module _ {S : Type 0} (ports : AuthPorts S) (sessions : Sessions S)
    (law : StoresSessions ports sessions) where
  -- A rotation that was granted.
  pub record IsGranted (digest : TokenDigest) (metadata : RequestMetadata) (hash : Bytes)
      (now : Instant) (t s' : S) (r : SessionResult) : Type 0 where
    pub session : RefreshSession
    pub user : User
    pub new_id : Uuid
    pub new_digest : TokenDigest
    pub retired : RefreshSession
    pub replacement : RefreshSession
    pub locked : ports.lock_session digest t ≡ ok session
    pub not_retired : is_retired session.state ≡ false
    pub found : (u : S) × (ports.find_user session.user_id u ≡ ok user)
    pub active : user_is_active user ≡ true
    pub planned :
        plan_replacement session (rotation_input session new_id new_digest now hash metadata)
        ≡ ok (retired, replacement)
    pub stored : sessions s' ≡ with_session replacement (with_session retired (sessions t))
    pub answered_to : r.user ≡ safe_user user

  rotate-some :
      (user : User) (session : RefreshSession) (metadata : RequestMetadata) (hash : Bytes)
      (now : Instant) (s s' : S) (r : SessionResult)
      → rotate ports user session metadata hash now s ≡ (ok (some r), s')
      → (new_id : Uuid) × (new_digest : TokenDigest) × (retired : RefreshSession)
        × (replacement : RefreshSession) × (plan_replacement session
              (rotation_input session new_id new_digest now hash metadata)
            ≡ ok (retired, replacement))
        × (sessions s' ≡ with_session replacement (with_session retired (sessions s)))
        × (r.user ≡ safe_user user)
  unfolding rotate audit_session
  rotate-some user session metadata hash now s s' r h =
      let (key, s1, e1, h1) = bind-eq-ok _ _ _ _ _ h in
      let (_, k1) = lift-eq-ok _ s s1 key e1 in
      let (_, s2, e2, h2) = bind-eq-ok _ _ _ _ _ h1 in
      let k2 =
        check_rate_limit-sessions ports sessions law refresh_family_attempt key now s1 s2 e2 in
      let (credential, s3, e3, h3) = bind-eq-ok _ _ _ _ _ h2 in
      let k3 = new_refresh_credential-sessions ports sessions law s2 s3 credential e3 in
      let (new_id, s4, e4, h4) = bind-eq-ok _ _ _ _ _ h3 in
      let k4 = kept sessions _ s3 s4 new_id e4 (law.new_session_id-sessions s3) in
      let (planned_sessions, s5, e5, h5) = bind-eq-ok _ _ _ _ _ h4 in
      let (planned, k5) = lift-eq-ok _ s4 s5 planned_sessions e5 in
      let (access, s6, e6, h6) = bind-eq-ok _ _ _ _ _ h5 in
      let k6 = kept sessions _ s5 s6 access e6 (law.issue-sessions user.id now s5) in
      let (_, s7, e7, h7) = bind-eq-ok _ _ _ _ _ h6 in
      let (_, s8, e8, h8) = bind-eq-ok _ _ _ _ _ h7 in
      let (_, s9, e9, h9) = bind-eq-ok _ _ _ _ _ h8 in
      let k9 = kept sessions _ s8 s9 tt e9 (law.audit-sessions _ s8) in
      let (result, k10) = pure-eq-ok _ s9 s' (some r) h9 in
      let before : sessions s6 ≡ sessions s =
        k6 ∙ ap sessions (sym k5) ∙ k4 ∙ k3 ∙ k2 ∙ ap sessions (sym k1) in
      (
        new_id,
        credential.1,
        planned_sessions.0,
        planned_sessions.1,
        rename-eq-ok _ _ planned_sessions planned,
        ap sessions (sym k10)
            ∙ k9
            ∙ law.insert_replacement-sessions planned_sessions.1 s7 s8 e8
            ∙ ap (with_session planned_sessions.1) (
                law.mark_replaced-sessions planned_sessions.0 s6 s7 e7
                ∙ ap (with_session planned_sessions.0) before),
        sym (ap (user_or (safe_user user)) result),
      )

  reject_user-none :
      (user : User) (session : RefreshSession) (metadata : RequestMetadata) (hash : Bytes)
      (now : Instant) (s s' : S) (out : Option SessionResult)
      → reject_user ports user session metadata hash now s ≡ (ok out, s')
      → out ≡ none
  unfolding reject_user
  reject_user-none user session metadata hash now s s' out h =
      let (_, s1, _, h1) = bind-eq-ok _ _ _ _ _ h in
      let (_, s2, _, h2) = bind-eq-ok _ _ _ _ _ h1 in
      let (e, _) = pure-eq-ok none s2 s' out h2 in sym e

  -- the user and the rotation of a refresh that grants a session
  refresh_open-some :
      (session : RefreshSession) (metadata : RequestMetadata) (hash : Bytes) (now : Instant)
      (s s' : S) (r : SessionResult)
      → refresh_open ports session metadata hash now s ≡ (ok (some r), s')
      → (user : User) × (u : S) × (t : S) × (t ≡ s)
        × (ports.find_user session.user_id u ≡ ok user)
        × (user_is_active user ≡ true)
        × (rotate ports user session metadata hash now t ≡ (ok (some r), s'))
  unfolding refresh_open
  refresh_open-some session metadata hash now s s' r h =
      let (_, s1, e1, h1) = bind-eq-ok _ _ _ _ _ h in
      let (_, k1) = lift-eq-ok _ s s1 tt e1 in
      let (user, s2, e2, h2) = bind-eq-ok _ _ _ _ _ h1 in
      let (found, k2) = lift-eq-ok _ s1 s2 user e2 in
      elim (Bool-cases (user_is_active user)) [
        | inl a ↦ (user, s1, s2, sym (k1 ∙ k2), found, a, rw a at h2)
        | inr a ↦
            let wrong =
              reject_user-none user session metadata hash now s2 s' (some r) (rw a at h2) in
            cc
      ]

  answer_reuse-none :
      (session : RefreshSession) (metadata : RequestMetadata) (hash : Bytes) (now : Instant)
      (s s' : S) (out : Option SessionResult)
      → answer_reuse ports session metadata hash now s ≡ (ok out, s')
      → out ≡ none
  unfolding answer_reuse
  answer_reuse-none session metadata hash now s s' out h =
      let (_, s1, _, h1) = bind-eq-ok _ _ _ _ _ h in
      let (_, s2, _, h2) = bind-eq-ok _ _ _ _ _ h1 in
      let (_, s3, _, h3) = bind-eq-ok _ _ _ _ _ h2 in
      let (_, s4, _, h4) = bind-eq-ok _ _ _ _ _ h3 in
      let (e, _) = pure-eq-ok none s4 s' out h4 in sym e

  refresh_within-IsGranted :
      (digest : TokenDigest) (metadata : RequestMetadata) (hash : Bytes) (now : Instant) (s s' : S)
      (r : SessionResult)
      → refresh_within ports digest metadata hash now s ≡ (ok (some r), s')
      → IsGranted digest metadata hash now s s' r
  unfolding refresh_within
  refresh_within-IsGranted digest metadata hash now s s' r h =
      let (session, s1, e1, h1) = bind-eq-ok _ _ _ _ _ h in
      let (locked, k1) = lift-eq-ok _ s s1 session e1 in
      elim (Bool-cases (is_retired session.state)) [
        | inl a ↦
            let wrong = answer_reuse-none session metadata hash now s1 s' (some r) (rw a at h1) in
            cc
        | inr a ↦
            let (user, u, t, same, found, active, rotated) =
              refresh_open-some session metadata hash now s1 s' r (rw a at h1) in
            let (new_id, new_digest, retired, replacement, planned, stored, answered_to) =
              rotate-some user session metadata hash now t s' r rotated in
            record {
              session = session;
              user = user;
              new_id = new_id;
              new_digest = new_digest;
              retired = retired;
              replacement = replacement;
              locked = locked;
              not_retired = a;
              found = (u, found);
              active = active;
              planned = planned;
              stored =
                  stored
                  ∙ ap (λ (x : S). with_session replacement (with_session retired (sessions x)))
                      (same ∙ sym k1);
              answered_to = answered_to;
            }
      ]

  refused_token :
      (metadata : RequestMetadata) (now : Instant) (e : ℕ) (s s' : S) (a : Bytes)
      → token_refused ports metadata now e s ≡ (ok a, s')
      → ⊥
  unfolding token_refused
  refused_token metadata now e s s' a h = then_err-Refuses _ _ s s' a h

  refused_refresh :
      (metadata : RequestMetadata) (hash : Bytes) (now : Instant) (e : AuthError) (s s' : S)
      (a : Option SessionResult)
      → refresh_failed ports metadata hash now e s ≡ (ok a, s')
      → ⊥
  unfolding refresh_failed
  refused_refresh metadata hash now e s s' a h = then_err-Refuses _ _ s s' a h

  after_commit-ok :
      (out : Option SessionResult) (r : SessionResult) → after_commit out ≡ ok r → out ≡ some r
  unfolding after_commit
  after_commit-ok none r h = cc
  after_commit-ok (some q) r h = cc

  -- Over a store that keeps its sessions by identifier, a refresh that succeeds was asked with a
  -- token whose digest locks a session that is neither replaced nor revoked, its user is found and
  -- active, the rotation of PlanReplacement succeeded on it, the answer shows that user, and the
  -- sessions behind the call are those before it with the retired session and its replacement.
  pub refresh-IsGranted :
      (input : RefreshInput) (s s' : S) (r : SessionResult)
      → refresh ports input s ≡ (ok r, s')
      → (token : Bytes) × (digest : TokenDigest) × (now : Instant) × (hash : Bytes) × (t : S)
        × (ports.parse_token input.raw_token ≡ ok token)
        × (ports.digest token ≡ ok digest)
        × (sessions t ≡ sessions s)
        × IsGranted digest input.metadata hash now t s' r
  unfolding refresh read_now
  refresh-IsGranted input s s' r h =
      let (now, s1, e1, h1) = bind-eq-ok _ _ _ _ _ h in
      let k1 = kept sessions _ s s1 now e1 (law.now-sessions s) in
      let (token, s2, e2, h2) = bind-eq-ok _ _ _ _ _ h1 in
      let (digest, s3, e3, h3) = bind-eq-ok _ _ _ _ _ h2 in
      let (network, s4, e4, h4) = bind-eq-ok _ _ _ _ _ h3 in
      let (out, s5, e5, h5) = bind-eq-ok _ _ _ _ _ h4 in
      let (parsed, k2) =
        lift-eq-ok _ s1 s2 token
          (on_error-ok _ _ s1 s2 token e2 (refused_token input.metadata now)) in
      let (digested, k3) = lift-eq-ok _ s2 s3 digest e3 in
      let (_, k4) = lift-eq-ok _ s3 s4 network e4 in
      let (finished, k5) = lift-eq-ok _ s5 s' r h5 in
      let body =
        within_transaction-ok ports _ s4 s5 out
          (on_error-ok _ _ s4 s5 out e5 (refused_refresh input.metadata network.1 now)) in
      let granted =
        refresh_within-IsGranted digest input.metadata network.1 now s4 s5 r
          (rw⁻¹ (after_commit-ok out r finished) body) in
      (
        token,
        digest,
        now,
        network.1,
        s4,
        parsed,
        rename-eq-ok _ _ digest digested,
        ap sessions (sym (k2 ∙ k3 ∙ k4)) ∙ k1,
        subst (λ (x : S). IsGranted digest input.metadata network.1 now s4 x r) k5 granted,
      )
