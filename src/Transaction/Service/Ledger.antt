-- ===== src/Transaction/Service/Ledger.antt =====
-- `validateReplay` of backend/internal/transaction/application/service.go: the candidates are
-- replayed with the stored facts of their assets, and with the original of a correction.
use ai_portfolio_research_as.Prelude.{
  not, ◌||◌, List, [], ◌∷◌, ◌++◌, Result, ok, err, ◌>>=◌, if◌then◌else◌,
}
use ai_portfolio_research_as.Transaction.Value.{Uuid}
use ai_portfolio_research_as.Transaction.Fact.{Transaction}
use ai_portfolio_research_as.Transaction.Replay.{
  has_id, ids_of, replay_ledger, Replayed, domain, violation,
}
use ai_portfolio_research_as.Transaction.Service.{
  ServiceError, domain_failure, overdrawn, invalid_backdated_ledger,
}
use ai_portfolio_research_as.Transaction.Service.Ports.{Ports}

-- the loop over `originals`
unfoldable pub with_originals : List Transaction → List Transaction → List Transaction
with_originals [] existing = existing
with_originals (t ∷ ts) existing =
    with_originals ts
      (if has_id t.state.id (ids_of existing) then existing else existing ++ (t ∷ []))

unfoldable pub ledger_result : Replayed (Unit {0}) → Result ServiceError (Unit {0})
ledger_result (ok _) = ok tt
ledger_result (err (domain e)) = err (domain_failure e)
ledger_result (err (violation v)) =
    if v.later_existing then err invalid_backdated_ledger else err (overdrawn v)

module _ {S : Type 0} (ports : Ports S) where
  -- the loop over `candidates`, with the assets that were seen
  unfoldable pub gather :
      Uuid → List Uuid → List Transaction → S → Result ServiceError (List Transaction)
  gather portfolio_id seen [] s = ok []
  gather portfolio_id seen (t ∷ ts) s =
      let skipped = gather portfolio_id seen ts s in
      let others = gather portfolio_id (t.state.asset.id ∷ seen) ts s in
      let read = ports.replay portfolio_id t.state.asset.id s >>= λ rows.
      others >>= λ more. ok (rows ++ more) in
      if not t.state.has_asset || has_id t.state.asset.id seen then skipped else read

  unfoldable pub validate_replay :
      Uuid → List Transaction → List Transaction → S → Result ServiceError (Unit {0})
  validate_replay portfolio_id candidates originals s =
      gather portfolio_id [] candidates s >>= λ existing.
      ledger_result (replay_ledger (with_originals originals existing) candidates)
