-- ===== src/Identity/Service/Stored.antt =====
-- The table of sessions behind the ports of
-- backend/internal/identity/application/operations.go, and the steps that leave it as it is.
use ai_portfolio_research_as.Prelude.{
  ◌≡◌, ◌∙◌, sym, ap, ℕ, Option, some, Result, ok, ◌==◌, if◌then◌else◌,
}
use ai_portfolio_research_as.Prelude.Time.{Instant}
use ai_portfolio_research_as.Prelude.Actions.{bind-eq-ok, lift-eq-ok, pure-eq-ok}
use ai_portfolio_research_as.Text.{Bytes}
use ai_portfolio_research_as.Transaction.Value.{Uuid}
use ai_portfolio_research_as.Identity.Credential.{TokenDigest}
use ai_portfolio_research_as.Identity.Session.{RefreshSession}
use ai_portfolio_research_as.Identity.Service.{AuditEvent, RateLimitPolicy}
use ai_portfolio_research_as.Identity.Service.Ports.{AuthPorts}
use ai_portfolio_research_as.Identity.Service.Requests.{check_rate_limit, new_refresh_credential}

-- the sessions of a store, by their identifiers
abbrev pub Sessions : Type 0 → Type 0
Sessions S = S → Uuid → Option RefreshSession

-- sessions with one that was stored, in place of what stood under its identifier
abbrev pub with_session :
    RefreshSession → (Uuid → Option RefreshSession) → Uuid → Option RefreshSession
with_session x sessions id = if id == x.id then some x else sessions id

-- What the service relies on: a mark or an insertion that succeeds stores its session and no other,
-- and the clock, the identifiers, the tokens, the rate limits and the audit log are other tables.
pub record StoresSessions {S : Type 0} (ports : AuthPorts S) (sessions : Sessions S) : Type 0 where
  pub mark_replaced-sessions :
      (x : RefreshSession) (s s' : S)
      → ports.mark_replaced x s ≡ (ok tt, s')
      → sessions s' ≡ with_session x (sessions s)
  pub insert_replacement-sessions :
      (x : RefreshSession) (s s' : S)
      → ports.insert_replacement x s ≡ (ok tt, s')
      → sessions s' ≡ with_session x (sessions s)
  pub now-sessions : (s : S) → sessions (ports.now s).1 ≡ sessions s
  pub new_session_id-sessions : (s : S) → sessions (ports.new_session_id s).1 ≡ sessions s
  pub check_rate-sessions :
      (policy : RateLimitPolicy) (key : ℕ) (at : Instant) (s : S)
      → sessions (ports.check_rate policy key at s).1 ≡ sessions s
  pub generate-sessions : (s : S) → sessions (ports.generate s).1 ≡ sessions s
  pub issue-sessions :
      (id : Uuid) (at : Instant) (s : S) → sessions (ports.issue id at s).1 ≡ sessions s
  pub audit-sessions : (e : AuditEvent) (s : S) → sessions (ports.audit e s).1 ≡ sessions s

-- the store behind a step that keeps the sessions
pub kept :
    {S E A : Type 0} (sessions : Sessions S) (out : Result E A × S) (s s' : S) (a : A)
    → out ≡ (ok a, s')
    → sessions out.1 ≡ sessions s
    → sessions s' ≡ sessions s
kept {S} {E} {A} sessions out s s' a e k = sym (ap (λ (x : Result E A × S). sessions x.1) e) ∙ k

module _ {S : Type 0} (ports : AuthPorts S) (sessions : Sessions S)
    (law : StoresSessions ports sessions) where
  pub check_rate_limit-sessions :
      (policy : RateLimitPolicy) (key : ℕ) (now : Instant) (s s' : S)
      → check_rate_limit ports policy key now s ≡ (ok tt, s')
      → sessions s' ≡ sessions s
  unfolding check_rate_limit
  check_rate_limit-sessions policy key now s s' h =
      let (result, s1, e1, h1) = bind-eq-ok _ _ _ _ _ h in
      let (_, same) = lift-eq-ok _ s1 s' tt h1 in
      ap sessions (sym same)
      ∙ kept sessions _ s s1 result e1 (law.check_rate-sessions policy key now s)

  pub new_refresh_credential-sessions :
      (s s' : S) (credential : Bytes × TokenDigest)
      → new_refresh_credential ports s ≡ (ok credential, s')
      → sessions s' ≡ sessions s
  unfolding new_refresh_credential
  new_refresh_credential-sessions s s' credential h =
      let (token, s1, e1, h1) = bind-eq-ok _ _ _ _ _ h in
      let (digest, s2, e2, h2) = bind-eq-ok _ _ _ _ _ h1 in
      let (_, k2) = lift-eq-ok _ s1 s2 digest e2 in
      let (_, k3) = pure-eq-ok _ s2 s' credential h2 in
      ap sessions (sym (k2 ∙ k3)) ∙ kept sessions _ s s1 token e1 (law.generate-sessions s)
