-- ===== src/Transaction/Service/Invariant.antt =====
-- What `Create` of backend/internal/transaction/application/service.go promises of the table of
-- facts, call by call and over a sequence of calls, whatever their outcomes are.
use ai_portfolio_research_as.Prelude.{◌≡◌, refl, false, List, [], ◌∷◌, Result, ok, err, All}
use ai_portfolio_research_as.Transaction.Value.{Uuid}
use ai_portfolio_research_as.Transaction.Service.{ServiceError, CommandInput, CommandMetadata}
use ai_portfolio_research_as.Transaction.Service.Ports.{Ports, Rows, IsLawful, Recorded}
use ai_portfolio_research_as.Transaction.Service.Execute.{create}
use ai_portfolio_research_as.Transaction.Service.Atomicity.{execute-ok, execute-atomic}
use ai_portfolio_research_as.Transaction.Service.Inputs.{IsGivenQuantity}
use ai_portfolio_research_as.Transaction.Service.Consistency.{
  LedgerStep, IsConsistent, LedgerStep-IsConsistent,
}
use ai_portfolio_research_as.Transaction.Service.Refinement.{
  execute_within-LedgerStep, LedgerStep-same,
}

-- a call of `Create`
pub record Request : Type 0 where
  pub principal : Uuid
  pub portfolio_id : Uuid
  pub input : CommandInput
  pub metadata : CommandMetadata

module _ {S : Type 0} (ports : Ports S) where
  -- the store behind a call, and behind calls one after the other
  abbrev pub after_create : Request → S → S
  after_create r s = (create ports r.principal r.portfolio_id r.input r.metadata s).1

  abbrev pub after_creates : List Request → S → S
  after_creates [] s = s
  after_creates (r ∷ rs) s = after_creates rs (after_create r s)

abbrev pub HasGivenQuantity : Request → Type 0
HasGivenQuantity r = IsGivenQuantity r.input.quantity

module _ {S : Type 0} (ports : Ports S) (rows : Rows S) (law : IsLawful ports rows) where
  create_outcome :
      (r : Request) (s s' : S) (out : Result ServiceError Recorded)
      → HasGivenQuantity r
      → create ports r.principal r.portfolio_id r.input r.metadata s ≡ (out, s')
      → LedgerStep r.portfolio_id (rows s) (rows s')
  unfolding create
  create_outcome r s s' (ok recorded) given h =
      execute_within-LedgerStep ports rows law r.principal r.portfolio_id r.input r.metadata s s'
        recorded given
        (execute-ok ports r.principal r.portfolio_id 0 r.input r.metadata false s s' recorded h)
  create_outcome r s s' (err e) given h =
      LedgerStep-same r.portfolio_id (rows s) (rows s') (
        execute-atomic ports r.principal r.portfolio_id 0 r.input r.metadata false rows law s s' e
          h)

  -- Over lawful ports, and for a quantity that is absent or a canonical decimal, whatever Create
  -- returns, it does to the table of facts what the specification allows: it leaves it as it is,
  -- or one fact of the portfolio joins the facts of its asset, with which it is a ledger whose
  -- holdings are never negative.
  pub create-LedgerStep :
      (r : Request) (s : S)
      → HasGivenQuantity r
      → LedgerStep r.portfolio_id (rows s) (rows (after_create ports r s))
  create-LedgerStep r s given = create_outcome r s _ _ given refl

  -- Over lawful ports, calls of Create whose quantities are absent or canonical decimals, in any
  -- number and with any outcomes, keep the facts of every asset of every portfolio consistent, if
  -- they were before: in some order they are a ledger whose holdings are never negative.
  pub creates-IsConsistent :
      (rs : List Request) (s : S)
      → All HasGivenQuantity rs
      → ((q a : Uuid) → IsConsistent (rows s q a))
      → (q a : Uuid) → IsConsistent (rows (after_creates ports rs s) q a)
  creates-IsConsistent [] s given h = h
  creates-IsConsistent (r ∷ rs) s (g, gs) h = creates-IsConsistent rs (after_create ports r s) gs (
      LedgerStep-IsConsistent r.portfolio_id (rows s) (rows (after_create ports r s))
        (create-LedgerStep r s g) h)
