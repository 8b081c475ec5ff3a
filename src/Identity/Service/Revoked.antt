-- ===== src/Identity/Service/Revoked.antt =====
-- When `Refresh` and `Logout` of backend/internal/identity/application/operations.go end a family of
-- sessions.
use ai_portfolio_research_as.Prelude.{
  ◌≡◌, refl, ◌∙◌, sym, ap, arith, true, List, [], Option, none, Result, ok, err,
}
use ai_portfolio_research_as.Prelude.Time.{Instant}
use ai_portfolio_research_as.Prelude.Actions.{
  lift, bind-eq-ok, lift-eq-ok, pure-eq-ok, rename-eq-ok,
}
use ai_portfolio_research_as.Text.{Bytes}
use ai_portfolio_research_as.Transaction.Value.{Uuid}
use ai_portfolio_research_as.Identity.Credential.{TokenDigest}
use ai_portfolio_research_as.Identity.Session.{RefreshSession}
use ai_portfolio_research_as.Identity.Session.Operations.{is_active_at}
use ai_portfolio_research_as.Identity.Service.{
  AuthError, session_refresh_rejected, AuditAction, AuditResult, AuditSeverity, AuditEvent,
  RefreshInput, RequestMetadata, SessionResult,
}
use ai_portfolio_research_as.Identity.Service.Ports.{AuthPorts}
use ai_portfolio_research_as.Identity.Service.Requests.{within_transaction}
use ai_portfolio_research_as.Identity.Service.Refreshing.{
  refresh_within, answer_reuse, audit_session, is_retired, after_commit, logout, logout_within,
  logout_error, open_session,
}
use ai_portfolio_research_as.Identity.Service.Steps.{on_error-ok, within_transaction-ok}

-- the sessions of a family that may still be used
abbrev pub Live : Type 0 → Type 0
Live S = S → Uuid → List Uuid

-- What the service relies on: the revocation of a family that succeeds leaves it no session that may
-- be used, and the audit log is another table.
pub record RevokesFamilies {S : Type 0} (ports : AuthPorts S) (live : Live S) : Type 0 where
  pub revoke_family-live :
      (family : Uuid) (at : Instant) (reason : Bytes) (s s' : S)
      → ports.revoke_family family at reason s ≡ (ok tt, s')
      → live s' family ≡ []
  pub audit-live : (e : AuditEvent) (s : S) → live (ports.audit e s).1 ≡ live s

module _ {S : Type 0} (ports : AuthPorts S) (live : Live S) (law : RevokesFamilies ports live) where
  audited-live :
      (action : AuditAction) (result : AuditResult) (severity : AuditSeverity)
      (user session family : Uuid) (metadata : RequestMetadata) (hash : Bytes) (now : Instant)
      (s t : S) (r : Result AuthError (Unit {0}))
      → audit_session ports action result severity user session family metadata hash now s ≡ (r, t)
      → live t ≡ live s
  unfolding audit_session
  audited-live action result severity user session family metadata hash now s t r h =
      sym (ap (λ (x : Result AuthError (Unit {0}) × S). live x.1) h) ∙ law.audit-live _ s

  answer_reuse-live :
      (session : RefreshSession) (metadata : RequestMetadata) (hash : Bytes) (now : Instant)
      (s s' : S) (out : Option SessionResult)
      → answer_reuse ports session metadata hash now s ≡ (ok out, s')
      → (out ≡ none) × (live s' session.family_id ≡ [])
  unfolding answer_reuse
  answer_reuse-live session metadata hash now s s' out h =
      let (_, s1, e1, h1) = bind-eq-ok _ _ _ _ _ h in
      let (_, s2, e2, h2) = bind-eq-ok _ _ _ _ _ h1 in
      let (_, s3, e3, h3) = bind-eq-ok _ _ _ _ _ h2 in
      let (_, s4, e4, h4) = bind-eq-ok _ _ _ _ _ h3 in
      let (e, same) = pure-eq-ok none s4 s' out h4 in
      let kept : live s' ≡ live s1 =
        ap live (sym same)
        ∙ audited-live _ _ _ _ _ _ metadata hash now s3 s4 _ e4
        ∙ audited-live _ _ _ _ _ _ metadata hash now s2 s3 _ e3
        ∙ audited-live _ _ _ _ _ _ metadata hash now s1 s2 _ e2 in
      (
        sym e,
        ap (λ (x : Uuid → List Uuid). x session.family_id) kept
            ∙ law.revoke_family-live session.family_id now _ s s1 e1,
      )

  -- If the revocation of a family leaves it no live session and the audit log is another table, a
  -- committed transaction of Refresh on a session that was replaced or revoked leaves no live
  -- session of the family, and Refresh then rejects the request.
  pub refresh-reuse :
      (digest : TokenDigest) (metadata : RequestMetadata) (hash : Bytes) (now : Instant) (s s' : S)
      (session : RefreshSession) (out : Option SessionResult)
      → ports.lock_session digest s ≡ ok session
      → is_retired session.state ≡ true
      → within_transaction ports (refresh_within ports digest metadata hash now) s ≡ (ok out, s')
      → (after_commit out ≡ err session_refresh_rejected) × (live s' session.family_id ≡ [])
  unfolding refresh_within after_commit
  refresh-reuse digest metadata hash now s s' session out locked retired h =
      let (found, s1, e1, h1) = bind-eq-ok _ _ _ _ _ (within_transaction-ok ports _ s s' out h) in
      let (locked_found, _) = lift-eq-ok _ s s1 found e1 in
      let same : found ≡ session = cc in
      let (nothing, ended) =
        answer_reuse-live session metadata hash now s1 s' out (rw (same, retired) at h1) in
      (rw nothing refl, ended)

  refused : (t t' : S) (e : AuthError) {a : Unit {0}} → lift (err e) t ≡ (ok a, t') → ⊥
  refused t t' e {a} h = let (wrong, _) = lift-eq-ok (err e) t t' a h in cc

  open_session-ok :
      (now : Instant) (r : Result AuthError RefreshSession) (session : RefreshSession)
      → open_session now r ≡ ok session
      → (r ≡ ok session) × (is_active_at session now ≡ true)
  unfolding open_session
  open_session-ok now (err e) session h = cc
  open_session-ok now (ok found) session h = ground arith

  logout_within-live :
      (digest : TokenDigest) (metadata : RequestMetadata) (hash : Bytes) (now : Instant) (s s' : S)
      → logout_within ports digest metadata hash now s ≡ (ok tt, s')
      → (session : RefreshSession) × (ports.lock_session digest s ≡ ok session)
        × (is_active_at session now ≡ true)
        × (live s' session.family_id ≡ [])
  unfolding logout_within
  logout_within-live digest metadata hash now s s' h =
      let (session, s1, e1, h1) = bind-eq-ok _ _ _ _ _ h in
      let (_, s2, e2, h2) = bind-eq-ok _ _ _ _ _ h1 in
      let (_, s3, e3, h3) = bind-eq-ok _ _ _ _ _ h2 in
      let (opened, _) = lift-eq-ok _ s s1 session e1 in
      let (locked, active) = open_session-ok now (ports.lock_session digest s) session opened in
      let kept : live s' ≡ live s2 =
        audited-live _ _ _ _ _ _ metadata hash now s3 s' _ h3
        ∙ audited-live _ _ _ _ _ _ metadata hash now s2 s3 _ e3 in
      (
        session,
        locked,
        active,
        ap (λ (x : Uuid → List Uuid). x session.family_id) kept
            ∙ law.revoke_family-live session.family_id now _ s1 s2 e2,
      )

  -- If the revocation of a family leaves it no live session and the audit log is another table, a
  -- logout that succeeds was asked with a token whose digest locks an active session, and leaves
  -- no live session of its family.
  pub logout-live :
      (input : RefreshInput) (s s' : S)
      → logout ports input s ≡ (ok tt, s')
      → (token : Bytes) × (digest : TokenDigest) × (now : Instant) × (t : S)
        × (session : RefreshSession) × (ports.parse_token input.raw_token ≡ ok token)
        × (ports.digest token ≡ ok digest)
        × (ports.lock_session digest t ≡ ok session)
        × (is_active_at session now ≡ true)
        × (live s' session.family_id ≡ [])
  unfolding logout
  logout-live input s s' h =
      let (now, s1, _, h1) = bind-eq-ok _ _ _ _ _ h in
      let (token, s2, e2, h2) = bind-eq-ok _ _ _ _ _ h1 in
      let (digest, s3, e3, h3) = bind-eq-ok _ _ _ _ _ h2 in
      let (network, s4, _, h4) = bind-eq-ok _ _ _ _ _ h3 in
      let (parsed, _) = lift-eq-ok _ s1 s2 token e2 in
      let (digested, _) = lift-eq-ok _ s2 s3 digest e3 in
      let body =
        within_transaction-ok ports _ s4 s' tt
          (on_error-ok _ _ s4 s' tt h4 (λ e t t' a wrong. refused t t' (logout_error e) wrong)) in
      let (session, locked, active, ended) =
        logout_within-live digest input.metadata network.1 now s4 s' body in
      (
        token,
        digest,
        now,
        s4,
        session,
        rename-eq-ok _ _ token parsed,
        rename-eq-ok _ _ digest digested,
        locked,
        active,
        ended,
      )
