-- ===== src/Portfolio/Service/Owned.antt =====
-- Whose portfolios the methods of backend/internal/portfolio/application/service.go return.
use ai_portfolio_research_as.Prelude.{
  ◌≡◌, ◌≢◌, refl, ◌∙◌, sym, ap, arith, Bool, inl, inr, ◌⊎◌, true, false, Result, ok, err,
  if◌then◌else◌,
}
use ai_portfolio_research_as.Prelude.Time.{Instant}
use ai_portfolio_research_as.Prelude.Actions.{bind-eq-ok, lift-eq-ok}
use ai_portfolio_research_as.Transaction.Value.{Uuid}
use ai_portfolio_research_as.Portfolio.Record.{Portfolio, is_archived}
use ai_portfolio_research_as.Portfolio.Service.{
  PortfolioServiceError, portfolio_not_found, unauthenticated, invalid_portfolio_input,
  portfolio_is_archived, persistence_conflict, service_unavailable, store_failure, PortfolioPorts,
  owner_from_principal, not_archived, or_explained, archive_portfolio,
}

-- What the service relies on: what the repository returns is the portfolio that was asked for, and
-- of its owner; an update returns an active portfolio, and archiving an archived one.
pub record ReturnsOwned {S : Type 0} (ports : PortfolioPorts S) : Type 0 where
  pub find_owned-owned :
      (owner id : Uuid) (s : S) (p : Portfolio)
      → ports.find_owned owner id s ≡ ok p
      → (p.id ≡ id) × (p.owner_id ≡ owner)
  pub archive_active-archived :
      (owner id : Uuid) (at : Instant) (s s' : S) (p : Portfolio)
      → ports.archive_active owner id at s ≡ (ok p, s')
      → (p.id ≡ id) × (p.owner_id ≡ owner) × (is_archived p ≡ true)

principal_owns :
    (principal owner : Uuid)
    → owner_from_principal principal ≡ ok owner
    → (principal ≢ 0) × (owner ≡ principal)
unfolding owner_from_principal
principal_owns principal owner h = ground arith

chosen :
    (c : Bool) (a p : Portfolio) (e : PortfolioServiceError)
    → ◌≡◌ {A = Result PortfolioServiceError Portfolio} (if c then ok a else err e) (ok p)
    → (c ≡ true) × (a ≡ p)
chosen true a p e h = (refl, cc)
chosen false a p e h = cc

not_archived-ok :
    (r : Result PortfolioServiceError Portfolio) (p : Portfolio)
    → not_archived r ≡ ok p
    → (r ≡ ok p) × (is_archived p ≡ true)
unfolding not_archived
not_archived-ok (err e) p h = cc
not_archived-ok (ok existing) p h =
    let (archived, same) = chosen (is_archived existing) existing p persistence_conflict h in
    (ap ok same, ap is_archived (sym same) ∙ archived)

or_explained-ok :
    {S : Type 0} (ports : PortfolioPorts S) (owner id : Uuid)
    (r : Result PortfolioServiceError Portfolio) (s s' : S) (p : Portfolio)
    → or_explained ports not_archived owner id r s ≡ (ok p, s')
    → (◌≡◌ {A = Result PortfolioServiceError Portfolio × S} (r, s) (ok p, s'))
      ⊎ ((ports.find_owned owner id s ≡ ok p) × (is_archived p ≡ true))
unfolding or_explained
or_explained-ok ports owner id (ok q) s s' p h = inl h
or_explained-ok ports owner id (err portfolio_not_found) s s' p h =
    inr (not_archived-ok _ p (ap (λ (x : Result PortfolioServiceError Portfolio × _). x.0) h))
or_explained-ok ports owner id (err unauthenticated) s s' p h = inl h
or_explained-ok ports owner id (err invalid_portfolio_input) s s' p h = inl h
or_explained-ok ports owner id (err portfolio_is_archived) s s' p h = inl h
or_explained-ok ports owner id (err persistence_conflict) s s' p h = inl h
or_explained-ok ports owner id (err service_unavailable) s s' p h = inl h
or_explained-ok ports owner id (err (store_failure n)) s s' p h = inl h

module _ {S : Type 0} (ports : PortfolioPorts S) (law : ReturnsOwned ports) where
  -- Over a repository that returns what is asked for, a call of ArchivePortfolio that succeeds,
  -- for the first time or again, comes from an authenticated principal and returns the portfolio
  -- that was asked for, theirs and archived.
  pub archive_portfolio-archived :
      (principal id : Uuid) (s s' : S) (p : Portfolio)
      → archive_portfolio ports principal id s ≡ (ok p, s')
      → (principal ≢ 0) × (p.id ≡ id) × (p.owner_id ≡ principal) × (is_archived p ≡ true)
  unfolding archive_portfolio
  archive_portfolio-archived principal id s s' p h =
      let (owner, s1, e1, h1) = bind-eq-ok _ _ _ _ _ h in
      let (_, s2, _, h2) = bind-eq-ok _ _ _ _ _ h1 in
      let (now, s3, _, h3) = bind-eq-ok _ _ _ _ _ h2 in
      let (granted, _) = lift-eq-ok _ s s1 owner e1 in
      let (somebody, same) = principal_owns principal owner granted in
      let t = (ports.archive_active owner id now s3).1 in
      let r = (ports.archive_active owner id now s3).0 in
      elim (or_explained-ok ports owner id r t s' p h3) [
        | inl changed ↦
            let (a, b, c) = law.archive_active-archived owner id now s3 s' p changed in
            (somebody, a, b ∙ same, c)
        | inr (found, archived) ↦
            let (a, b) = law.find_owned-owned owner id t p found in
            (somebody, a, b ∙ same, archived)
      ]
