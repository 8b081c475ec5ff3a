-- ===== src/Transaction/Replay/Ledger.antt =====
-- `ReplayLedger` of backend/internal/transaction/domain/replay.go as a whole.
use ai_portfolio_research_as.Prelude.{
  ◌≡◌, ◌↔◌, ◌≢◌, ◌∙◌, refl, sym, arith, List, [], ◌∷◌, ◌++◌, ok, err, ◌>>=◌, ◌>>◌, All,
}
use ai_portfolio_research_as.Prelude.Int.{ℤ, pos}
use ai_portfolio_research_as.Transaction.Value.{Uuid}
use mathlib.Core.Path.{subst}
use ai_portfolio_research_as.Transaction.Errors.{DomainError}
use ai_portfolio_research_as.Transaction.Fact.{Transaction}
use ai_portfolio_research_as.Transaction.Replay.{
  check_facts, check_reversals, replay_facts, replay_ledger, sort_facts, ids_of, initial,
  find_balance, balance_or_zero, ReplayError, domain, violation, LedgerViolation, Replayed,
}
use ai_portfolio_research_as.Transaction.Replay.Positions.{HasQuantity}
use ai_portfolio_research_as.Transaction.Replay.Tradeable.{valid_shape, shape_tradeable}
use ai_portfolio_research_as.Transaction.Replay.Round.{Holds, zero_decimal-Stands}
use ai_portfolio_research_as.Transaction.Replay.Stream.{
  IsReady, NeverNegative, Overdrawn, LoopOf, replay_facts-LoopOf, LoopOf-ok,
}
use ai_portfolio_research_as.Transaction.Replay.Sorting.{sort_facts-All}
use ai_portfolio_research_as.Transaction.Replay.Checks.{
  IsValidFact, IsLedger, collected, IsLedger-checks, checks-IsLedger,
}

valid-IsReady : (ts : List Transaction) → All IsValidFact ts → All HasQuantity ts → All IsReady ts
valid-IsReady [] v q = tt
valid-IsReady (t ∷ ts) (v, vs) (q, qs) =
    let (shape, known) = valid_shape t.state v in
    (
      (
        q,
        λ m.
            shape_tradeable t.state.kind t.state shape known (ground (arith, m))
              (ground (arith, m)),
      ),
      valid-IsReady ts vs qs,
    )

initial-Holds : Holds initial (λ _. pos 0)
unfolding Holds find_balance balance_or_zero
initial-Holds k = zero_decimal-Stands

-- What the loop of a ledger does, from no holdings.
ledger-LoopOf :
    (all : List Transaction) (ids : List Uuid)
    → All HasQuantity all
    → IsLedger all
    → LoopOf
        (collected all [])
        ids
        (λ _. pos 0)
        (sort_facts all)
        (replay_facts (collected all []) ids initial (sort_facts all))
ledger-LoopOf all ids q l =
    replay_facts-LoopOf (collected all []) ids (sort_facts all) initial (λ _. pos 0)
      (sort_facts-All IsReady all (valid-IsReady all l.valid q)) initial-Holds (λ _. omega arith)

-- The holdings of the sorted ledger never turn negative.
abbrev pub IsCovered : List Transaction → Type 0
IsCovered all = NeverNegative (collected all []) (λ _. pos 0) (sort_facts all)

replay_checked :
    (existing candidates : List Transaction)
    → IsLedger (existing ++ candidates)
    → replay_ledger existing candidates ≡ (
        replay_facts
          (collected (existing ++ candidates) [])
          (ids_of candidates)
          initial
          (sort_facts (existing ++ candidates))
        >>= λ _. ok tt)
unfolding replay_ledger
replay_checked existing candidates l =
    let (facts, reversals) = IsLedger-checks (existing ++ candidates) l in rw facts (rw reversals)

-- The checks report no violation.
check_facts-ne-violation :
    (ts by_id : List Transaction) (sequences : List (Uuid × ℤ)) (v : LedgerViolation)
    → check_facts ts by_id sequences ≢ err (violation v)
unfolding check_facts
check_facts-ne-violation [] by_id sequences v = λ h. cc
check_facts-ne-violation (t ∷ ts) by_id sequences v = ground (
  arith,
  check_facts-ne-violation ts (t ∷ by_id)
      ((t.state.portfolio_id, t.state.portfolio_sequence) ∷ sequences) v,
)

check_reversals-ne-violation :
    (ts by_id : List Transaction) (reversed : List Uuid) (v : LedgerViolation)
    → check_reversals ts by_id reversed ≢ err (violation v)
unfolding check_reversals
check_reversals-ne-violation [] by_id reversed v = λ h. cc
check_reversals-ne-violation (t ∷ ts) by_id reversed v = ground (
  arith,
  check_reversals-ne-violation ts by_id reversed v,
  check_reversals-ne-violation ts by_id (t.state.reversal_of ∷ reversed) v,
)

-- A step that reports no violation has passed, if the outcome is no domain error.
step_passed :
    {A B : Type 0} (m : Replayed A) (f : A → Replayed B) {r : Replayed B}
    → ((v : LedgerViolation) → m ≢ err (violation v))
    → ((e : DomainError) → r ≢ err (domain e))
    → (m >>= f) ≡ r
    → (a : A) × (m ≡ ok a) × (f a ≡ r)
step_passed (ok a) f nv nd h = (a, refl, h)
step_passed (err (domain e)) f nv nd h = absurd (nd e (sym h))
step_passed (err (violation v)) f nv nd h = absurd (nv v refl)

passed_checks :
    (existing candidates : List Transaction) (r : Replayed (Unit {0}))
    → replay_ledger existing candidates ≡ r
    → ((e : DomainError) → r ≢ err (domain e))
    → IsLedger (existing ++ candidates)
unfolding replay_ledger
passed_checks existing candidates r h n =
    let all = existing ++ candidates in
    let (by_id, facts, more) =
      step_passed (check_facts all [] [])
        (λ by_id.
          check_reversals all by_id []
          >> (replay_facts by_id (ids_of candidates) initial (sort_facts all) >>= λ _. ok tt))
        (check_facts-ne-violation all [] []) n h in
    let (_, reversals, rest) =
      step_passed (check_reversals all by_id [])
        (λ _. replay_facts by_id (ids_of candidates) initial (sort_facts all) >>= λ _. ok tt)
        (check_reversals-ne-violation all by_id []) n more in
    (checks-IsLedger all by_id facts reversals).1

loop_ok : {A : Type 0} (m : Replayed A) → (m >>= λ _. ok (tt {0})) ≡ ok tt → (a : A) × (m ≡ ok a)
loop_ok (ok a) h = (a, refl)
loop_ok (err e) h = cc

loop_err :
    {A : Type 0} (m : Replayed A) (e : ReplayError) → (m >>= λ _. ok (tt {0})) ≡ err e → m ≡ err e
loop_err (ok a) e h = cc
loop_err (err e') e h = cc

module _ (existing candidates : List Transaction)
    (q : All HasQuantity (existing ++ candidates)) where
  -- For facts whose quantities are canonical decimals, ReplayLedger succeeds exactly when the
  -- facts are a ledger (valid, distinct identifiers and sequences, every reversal backed by one
  -- original) and no holding is negative after any beginning of the sorted stream.
  pub replay_ledger_iff :
      (replay_ledger existing candidates ≡ ok tt)
      ↔ (IsLedger (existing ++ candidates) × IsCovered (existing ++ candidates))
  replay_ledger_iff = (
    λ h.
        let l = passed_checks existing candidates (ok tt) h (λ e z. cc) in
        let (st, done) = loop_ok _ (sym (replay_checked existing candidates l) ∙ h) in
        (
          l,
          subst
              (LoopOf (collected (existing ++ candidates) []) (ids_of candidates) (λ _. pos 0)
                (sort_facts (existing ++ candidates)))
              done (ledger-LoopOf (existing ++ candidates) (ids_of candidates) q l),
        ),
    λ (l, covered).
        let (st, done) =
          LoopOf-ok (collected (existing ++ candidates) []) (ids_of candidates) (λ _. pos 0)
            (sort_facts (existing ++ candidates)) _
            (ledger-LoopOf (existing ++ candidates) (ids_of candidates) q l) covered in
        replay_checked existing candidates l ∙ rw done,
  )

  -- For facts whose quantities are canonical decimals, a LedgerViolation is reported only of a
  -- ledger, and names the first fact of the sorted stream after which a holding is negative, with
  -- the exact value of that holding.
  pub replay_ledger_violation :
      (v : LedgerViolation)
      → replay_ledger existing candidates ≡ err (violation v)
      → IsLedger (existing ++ candidates)
        × Overdrawn
            (collected (existing ++ candidates) [])
            (ids_of candidates)
            (λ _. pos 0)
            (sort_facts (existing ++ candidates))
            v
  replay_ledger_violation v h =
      let l = passed_checks existing candidates (err (violation v)) h (λ e z. cc) in
      let stop = loop_err _ (violation v) (sym (replay_checked existing candidates l) ∙ h) in
      (
        l,
        subst
            (LoopOf (collected (existing ++ candidates) []) (ids_of candidates) (λ _. pos 0)
              (sort_facts (existing ++ candidates)))
            stop (ledger-LoopOf (existing ++ candidates) (ids_of candidates) q l),
      )
