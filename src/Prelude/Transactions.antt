-- ===== src/Prelude/Transactions.antt =====
-- A database transaction around an action: begun, committed if the action succeeds, and rolled back
-- if it or the commit fails.
use mathlib.Core.Path.{◌≡◌, refl, sym, ap, ◌∙◌}
use ai_portfolio_research_as.Prelude.Results.{Result, ok, err}
use ai_portfolio_research_as.Prelude.Actions.{Action}

-- `rollback` gives the store that a rollback leaves of the store before the transaction and the
-- store at its end.
pub record Bracket (S E : Type 0) : Type 0 where
  pub begin : S → Result E (Unit {0})
  pub commit : S → Result E (Unit {0})
  pub rollback : S → S → S

module _ {S E : Type 0} (b : Bracket S E) {A : Type 0} where
  -- the outcome of the commit
  unfoldable pub committed : S → A → S → Result E (Unit {0}) → Result E A × S
  committed s a s' (ok _) = (ok a, s')
  committed s a s' (err e) = (err e, b.rollback s s')

  -- the end of the transaction, on the store before it
  unfoldable pub transaction_end : S → Result E A × S → Result E A × S
  transaction_end s (err e, s') = (err e, b.rollback s s')
  transaction_end s (ok a, s') = committed s a s' (b.commit s')

  -- the run of the action, if the transaction has begun
  unfoldable pub begun : Action S E A → S → Result E (Unit {0}) → Result E A × S
  begun body s (err e) = (err e, s)
  begun body s (ok _) = transaction_end s (body s)

  unfoldable pub bracketed : Action S E A → Action S E A
  bracketed body s = begun body s (b.begin s)

  committed-ok :
      (s s' t : S) (a c : A) (r : Result E (Unit {0}))
      → committed s c t r ≡ (ok a, s')
      → ◌≡◌ {A = Result E A × S} (ok c, t) (ok a, s')
  unfolding committed
  committed-ok s s' t a c (ok _) h = h
  committed-ok s s' t a c (err e) h = cc

  transaction_end-ok :
      (s s' : S) (a : A) (out : Result E A × S)
      → transaction_end s out ≡ (ok a, s')
      → out ≡ (ok a, s')
  unfolding transaction_end
  transaction_end-ok s s' a (err e, t) h = cc
  transaction_end-ok s s' a (ok c, t) h = committed-ok s s' t a c (b.commit t) h

  begun-ok :
      (body : Action S E A) (s s' : S) (a : A) (r : Result E (Unit {0}))
      → begun body s r ≡ (ok a, s')
      → body s ≡ (ok a, s')
  unfolding begun
  begun-ok body s s' a (err e) h = cc
  begun-ok body s s' a (ok _) h = transaction_end-ok s s' a (body s) h

  -- Only a body that succeeded, and was committed, succeeds.
  pub bracketed-ok :
      (body : Action S E A) (s s' : S) (a : A) → bracketed body s ≡ (ok a, s') → body s ≡ (ok a, s')
  unfolding bracketed
  bracketed-ok body s s' a h = begun-ok body s s' a (b.begin s) h

  -- What a rollback restores is behind every error as it was before.
  module _ {V : Type 0} (view : S → V) (law : (s s' : S) → view (b.rollback s s') ≡ view s) where
    pub view_of :
        (s s' : S) (e : E) (out : Result E A × S)
        → view out.1 ≡ view s
        → out ≡ (err e, s')
        → view s' ≡ view s
    view_of s s' e out k h = ap (λ (x : Result E A × S). view x.1) (sym h) ∙ k

    committed-rolled :
        (s s' t : S) (c : A) (e : E) (r : Result E (Unit {0}))
        → committed s c t r ≡ (err e, s')
        → view s' ≡ view s
    unfolding committed
    committed-rolled s s' t c e (ok _) h = cc
    committed-rolled s s' t c e (err d) h = view_of s s' e _ (law s t) h

    transaction_end-rolled :
        (s s' : S) (e : E) (out : Result E A × S)
        → transaction_end s out ≡ (err e, s')
        → view s' ≡ view s
    unfolding transaction_end
    transaction_end-rolled s s' e (err d, t) h = view_of s s' e _ (law s t) h
    transaction_end-rolled s s' e (ok c, t) h = committed-rolled s s' t c e (b.commit t) h

    begun-rolled :
        (body : Action S E A) (s s' : S) (e : E) (r : Result E (Unit {0}))
        → begun body s r ≡ (err e, s')
        → view s' ≡ view s
    unfolding begun
    begun-rolled body s s' e (err d) h = view_of s s' e _ refl h
    begun-rolled body s s' e (ok _) h = transaction_end-rolled s s' e (body s) h

    pub bracketed-rolled :
        (body : Action S E A) (s s' : S) (e : E) → bracketed body s ≡ (err e, s') → view s' ≡ view s
    unfolding bracketed
    bracketed-rolled body s s' e h = begun-rolled body s s' e (b.begin s) h
