-- ===== src/Transaction/Service/Authority.antt =====
-- Who may record and read facts, in
-- backend/internal/transaction/application/service.go and history.go.
use ai_portfolio_research_as.Prelude.{◌≡◌, ◌≢◌, sym, ap, ◌∙◌, arith, Bool, Option, Result, ok, err}
use mathlib.Core.Path.{subst}
use ai_portfolio_research_as.Prelude.Actions.{bind-eq-ok, lift-eq-ok, pure-eq-ok}
use ai_portfolio_research_as.Portfolio.Record.{Portfolio}
use ai_portfolio_research_as.Transaction.Value.{Uuid}
use ai_portfolio_research_as.Transaction.Correction.{Correction}
use ai_portfolio_research_as.Transaction.Fact.{Transaction}
use ai_portfolio_research_as.Transaction.Service.{CommandInput, CommandMetadata}
use ai_portfolio_research_as.Transaction.Service.Ports.{Ports, Recorded, ReadError}
use ai_portfolio_research_as.Transaction.Service.Guards.{owned, owner_checked}
use ai_portfolio_research_as.Transaction.Service.Execute.{execute, execute_within, get, get_within}
use ai_portfolio_research_as.Transaction.Service.Atomicity.{execute-ok, within_transaction-ok}

-- The principal is somebody, and the portfolio that the reader gives for it is that one, and theirs.
abbrev pub Owns : {S : Type 0} → Ports S → Uuid → Uuid → S → Type 0
Owns ports principal portfolio_id s =
    (principal ≢ 0)
    × ((p : Portfolio) × (ports.get_portfolio principal portfolio_id s ≡ ok p)
        × (p.id ≡ portfolio_id)
        × (p.owner_id ≡ principal))

owner_checked-ok :
    (principal id : Uuid) (r : Result ReadError Portfolio) (p : Portfolio)
    → owner_checked principal id r ≡ ok p
    → (r ≡ ok p) × (p.id ≡ id) × (p.owner_id ≡ principal)
unfolding owner_checked
owner_checked-ok principal id (err e) p h = cc
owner_checked-ok principal id (ok q) p h = ground arith

module _ {S : Type 0} (ports : Ports S) (principal portfolio_id : Uuid) where
  owned-checked :
      (s : S) (p : Portfolio)
      → owned ports principal portfolio_id s ≡ ok p
      → (principal ≢ 0)
        × (owner_checked principal portfolio_id (ports.get_portfolio principal portfolio_id s)
            ≡ ok p)
  unfolding owned
  owned-checked s p h = ground arith

  owned-Owns :
      (s : S) (p : Portfolio)
      → owned ports principal portfolio_id s ≡ ok p
      → Owns ports principal portfolio_id s
  owned-Owns s p h =
      let (somebody, checked) = owned-checked s p h in
      let (found, id, owner) = owner_checked-ok principal portfolio_id _ p checked in
      (somebody, (p, found, id, owner))

  -- A command that succeeds, new, repeated or a correction, comes from an authenticated principal,
  -- and the portfolio that the reader gives for them is the one of the command and theirs.
  pub execute-Owns :
      (target : Uuid) (input : CommandInput) (metadata : CommandMetadata) (correction : Bool)
      (s s' : S) (r : Recorded)
      → execute ports principal portfolio_id target input metadata correction s ≡ (ok r, s')
      → Owns ports principal portfolio_id s
  unfolding execute_within
  execute-Owns target input metadata correction s s' r h =
      let (p, t, e, _) =
        bind-eq-ok _ _ _ _ _
          (execute-ok ports principal portfolio_id target input metadata correction s s' r h) in
      let (found, _) = lift-eq-ok _ s t p e in owned-Owns s p found

  -- A fact that Get returns is the stored one with its direct correction, is read without a change
  -- of the store, and only for an authenticated principal who owns the portfolio.
  pub get-Owns :
      (id : Uuid) (s s' : S) (t : Transaction) (direct : Option Correction)
      → get ports principal portfolio_id id s ≡ (ok (t, direct), s')
      → Owns ports principal portfolio_id s
        × (ports.get portfolio_id id s ≡ ok t)
        × (ports.direct_correction portfolio_id id s ≡ ok direct)
        × (s' ≡ s)
  unfolding get get_within
  get-Owns id s s' t direct h =
      let body = within_transaction-ok ports _ s s' (t, direct) h in
      let (p, s1, e1, h1) = bind-eq-ok _ _ _ _ _ body in
      let (found, k1) = lift-eq-ok _ s s1 p e1 in
      let (_, s2, e2, h2) = bind-eq-ok _ _ _ _ _ h1 in
      let (_, k2) = lift-eq-ok _ s1 s2 tt e2 in
      let (fact, s3, e3, h3) = bind-eq-ok _ _ _ _ _ h2 in
      let (read, k3) = lift-eq-ok _ s2 s3 fact e3 in
      let (correction, s4, e4, h4) = bind-eq-ok _ _ _ _ _ h3 in
      let (direct_read, k4) = lift-eq-ok _ s3 s4 correction e4 in
      let (result, k5) = pure-eq-ok (fact, correction) s4 s' (t, direct) h4 in
      let same = k1 ∙ k2 in
      (
        owned-Owns s p found,
        subst (λ (x : S). ports.get portfolio_id id x ≡ ok t) (sym same)
            (read ∙ ap (λ (x : Transaction × Option Correction). ok x.0) result),
        subst (λ (x : S). ports.direct_correction portfolio_id id x ≡ ok direct) (sym (same ∙ k3))
            (direct_read ∙ ap (λ (x : Transaction × Option Correction). ok x.1) result),
        sym (same ∙ k3 ∙ k4 ∙ k5),
      )
