-- ===== src/Transaction/Service/Consistency.antt =====
-- The ledgers that `Create` of backend/internal/transaction/application/service.go leaves in the
-- table of facts: the specification, and what a call may do to the table.
use mathlib.Core.List.{Perm, append-nil}
use mathlib.Core.List.Perm
use mathlib.Core.Path.{subst}
use ai_portfolio_research_as.Prelude.{
  ◌≡◌, refl, ◌∙◌, sym, inl, inr, arith, true, ◌&&◌, List, [], ◌∷◌, ◌++◌, ok, err, ◌>>=◌, >>=-eq-ok,
  All-append, Bool-cases,
}
use ai_portfolio_research_as.Transaction.Value.{Uuid}
use ai_portfolio_research_as.Transaction.Fact.{Transaction}
use ai_portfolio_research_as.Transaction.Replay.{
  replay_ledger, same_key, key_of, has_id, domain, violation, Replayed,
}
use ai_portfolio_research_as.Transaction.Replay.Checks.{IsLedger}
use ai_portfolio_research_as.Transaction.Replay.Positions.{HasQuantity}
use ai_portfolio_research_as.Transaction.Replay.Ledger.{IsCovered, replay_ledger_iff}
use ai_portfolio_research_as.Transaction.Service.Ports.{Ports, Rows, IsLawful, with_row}
use ai_portfolio_research_as.Transaction.Service.Ledger.{
  with_originals, ledger_result, gather, validate_replay,
}

-- In some order, the facts are a ledger in which no holding is ever negative.
abbrev pub IsConsistent : List Transaction → Type 0
IsConsistent ts = (us : List Transaction) × Perm ts us × IsLedger us × IsCovered us

abbrev pub Table : Type 0
Table = Uuid → Uuid → List Transaction

-- A fact that may join the facts of its asset.
abbrev pub Fits : Transaction → List Transaction → Type 0
Fits t ts =
    (us : List Transaction) × Perm ts us × IsLedger (us ++ (t ∷ [])) × IsCovered (us ++ (t ∷ []))

-- What a call may do to the facts of a portfolio: nothing, or one fact joins the facts of its asset.
pub data LedgerStep (p : Uuid) (before after : Table) : Type 0 where
  unchanged : ((q a : Uuid) → Perm (after q a) (before q a)) → LedgerStep p before after
  joined :
      (t : Transaction)
      → t.state.portfolio_id ≡ p
      → (t.state.has_asset ≡ true → Fits t (before p t.state.asset.id))
      → ((q a : Uuid) → Perm (after q a) (with_row t q a (before q a)))
      → LedgerStep p before after

same_key-parts :
    (q a : Uuid) (t : Transaction)
    → (t.state.has_asset && same_key (q, a) (key_of t)) ≡ true
    → (t.state.has_asset ≡ true) × (q ≡ t.state.portfolio_id) × (a ≡ t.state.asset.id)
same_key-parts q a t h = ground arith

Fits-IsConsistent :
    (t : Transaction) (ts : List Transaction) → Fits t ts → IsConsistent (ts ++ (t ∷ []))
Fits-IsConsistent t ts (us, perm, ledger, covered) =
    (us ++ (t ∷ []), Perm.append_right (t ∷ []) perm, ledger, covered)

with_row-IsConsistent :
    (t : Transaction) (before : Table) (q a : Uuid)
    → (t.state.has_asset ≡ true → Fits t (before t.state.portfolio_id t.state.asset.id))
    → IsConsistent (before q a)
    → IsConsistent (with_row t q a (before q a))
with_row-IsConsistent t before q a fits consistent =
    elim (Bool-cases (t.state.has_asset && same_key (q, a) (key_of t))) [
      | inl e ↦
          let (h, p, i) = same_key-parts q a t e in
          rw e (Fits-IsConsistent t (before q a) (rw p (rw i (fits h))))
      | inr e ↦ rw e consistent
    ]

-- A step keeps the facts of every asset of every portfolio consistent.
pub LedgerStep-IsConsistent :
    (p : Uuid) (before after : Table)
    → LedgerStep p before after
    → ((q a : Uuid) → IsConsistent (before q a))
    → (q a : Uuid) → IsConsistent (after q a)
LedgerStep-IsConsistent p before after (unchanged perm) h q a =
    let (us, kept, ledger, covered) = h q a in (us, Perm.trans (perm q a) kept, ledger, covered)
LedgerStep-IsConsistent p before after (joined t own fits perm) h q a =
    let (us, kept, ledger, covered) =
      with_row-IsConsistent t before q a
        (subst (λ (r : Uuid). t.state.has_asset ≡ true → Fits t (before r t.state.asset.id))
          (sym own) fits)
        (h q a) in
    (us, Perm.trans (perm q a) kept, ledger, covered)

ledger_result-eq-ok : (r : Replayed (Unit {0})) → ledger_result r ≡ ok tt → r ≡ ok tt
unfolding ledger_result
ledger_result-eq-ok (ok _) h = refl
ledger_result-eq-ok (err (domain e)) h = cc
ledger_result-eq-ok (err (violation v)) h = ground arith

module _ {S : Type 0} (ports : Ports S) (p : Uuid) (t : Transaction) (s : S) where
  gather_one :
      t.state.has_asset ≡ true
      → gather ports p [] (t ∷ []) s ≡ (ports.replay p t.state.asset.id s >>= λ us. ok (us ++ []))
  unfolding gather has_id
  gather_one asset = rw asset refl

  -- The facts that the candidate was replayed with.
  validated_one :
      validate_replay ports p (t ∷ []) [] s ≡ ok tt
      → t.state.has_asset ≡ true
      → (us : List Transaction) × (ports.replay p t.state.asset.id s ≡ ok us)
        × (replay_ledger us (t ∷ []) ≡ ok tt)
  unfolding validate_replay with_originals
  validated_one h asset =
      let (existing, e, k) = >>=-eq-ok _ _ h in
      let (us, read, e') = >>=-eq-ok _ _ (sym (gather_one asset) ∙ e) in
      let same : existing ≡ us = ground (arith, append-nil us) in
      (us, read, ledger_result-eq-ok _ (rw⁻¹ same k))

-- A fact that is validated fits the facts of its asset.
pub validate_replay-Fits :
    {S : Type 0} (ports : Ports S) (rows : Rows S) (law : IsLawful ports rows) (p : Uuid)
    (t : Transaction) (s : S)
    → HasQuantity t
    → validate_replay ports p (t ∷ []) [] s ≡ ok tt
    → t.state.has_asset ≡ true
    → Fits t (rows s p t.state.asset.id)
validate_replay-Fits ports rows law p t s quantity h asset =
    let (us, read, replayed) = validated_one ports p t s h asset in
    let quantities = law.replay-quantities p t.state.asset.id s us read in
    let (ledger, covered) =
      (replay_ledger_iff us (t ∷ [])
          (All-append HasQuantity us (t ∷ []) quantities (quantity, tt))).0
        replayed in
    (us, law.replay-rows p t.state.asset.id s us read, ledger, covered)
