-- ===== src/Identity/Service/Steps.antt =====
-- Inversion of the steps of backend/internal/identity/application/operations.go.
use ai_portfolio_research_as.Prelude.{◌≡◌, Result, ok, err}
use ai_portfolio_research_as.Prelude.Transactions.{bracketed-ok}
use ai_portfolio_research_as.Prelude.Actions.{Action, lift, bind-eq-ok, lift-eq-ok, ◌>>=◌}
use ai_portfolio_research_as.Identity.Service.{AuthError}
use ai_portfolio_research_as.Identity.Service.Ports.{AuthPorts}
use ai_portfolio_research_as.Identity.Service.Requests.{
  answered, on_error, within_transaction, bracket,
}

-- An answer to errors that never succeeds.
abbrev pub Refuses : {S E A : Type 0} → (E → Action S AuthError A) → Type 0
Refuses {S} {E} {A} handler = (e : E) (s s' : S) (a : A) → handler e s ≡ (ok a, s') → ⊥

module _ {S E A : Type 0} where
  answered-ok :
      (handler : E → Action S AuthError A) (r : Result E A) (s s' : S) (a : A)
      → Refuses handler
      → answered handler r s ≡ (ok a, s')
      → ◌≡◌ {A = Result E A × S} (r, s) (ok a, s')
  answered-ok handler (ok b) s s' a refuses h = cc
  answered-ok handler (err e) s s' a refuses h = absurd (refuses e s s' a h)

  -- With such an answer, only the call itself succeeds.
  pub on_error-ok :
      (call : Action S E A) (handler : E → Action S AuthError A) (s s' : S) (a : A)
      → on_error call handler s ≡ (ok a, s')
      → Refuses handler
      → call s ≡ (ok a, s')
  unfolding on_error
  on_error-ok call handler s s' a h refuses =
      answered-ok handler (call s).0 (call s).1 s' a refuses h

-- An action that ends with an error never succeeds.
pub then_err-Refuses :
    {S A B : Type 0} (m : Action S AuthError B) (e : AuthError) (s s' : S) (a : A)
    → (m >>= λ _. lift (err e)) s ≡ (ok a, s')
    → ⊥
then_err-Refuses m e s s' a h =
    let (_, t, _, rest) = bind-eq-ok m _ s s' a h in
    let (wrong, _) = lift-eq-ok (err e) t s' a rest in cc

module _ {S : Type 0} (ports : AuthPorts S) {A : Type 0} where
  pub within_transaction-ok :
      (body : Action S AuthError A) (s s' : S) (a : A)
      → within_transaction ports body s ≡ (ok a, s')
      → body s ≡ (ok a, s')
  unfolding within_transaction
  within_transaction-ok body s s' a h = bracketed-ok (bracket ports) body s s' a h
