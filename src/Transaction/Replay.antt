-- ===== src/Transaction/Replay.antt =====
-- backend/internal/transaction/domain/replay.go: the whole ordered stream of a ledger is replayed
-- before a fact is accepted. A Go map is an association list, a set is a list of its members. The
-- texts that `fmt.Errorf` puts behind `ErrInvalidLedger` are left out.
pub mod Positions
pub mod Tradeable
pub mod Round
pub mod Stream
pub mod Sorting
pub mod Checks
pub mod Ledger
use ai_portfolio_research_as.Prelude.{
  ℕ, Bool, true, false, not, ◌&&◌, ◌||◌, List, [], ◌∷◌, ◌++◌, Option, none, some, Result, ok, err,
  ◌>>=◌, ◌>>◌, fail_if, is_ok, ltb, ◌==◌, if◌then◌else◌,
}
use ai_portfolio_research_as.Prelude.Int.{ℤ, ltb_ℤ, eqb_ℤ}
use ai_portfolio_research_as.Text.{codes, equal}
use ai_portfolio_research_as.Transaction.Errors.{Outcome, DomainError, invalid_ledger}
use ai_portfolio_research_as.Transaction.Kind.{
  Kind, buy, sell, dividend, deposit, withdrawal, fee, reversal, unknown, is_reversal,
}
use ai_portfolio_research_as.Transaction.Value.{Uuid, same_asset}
use ai_portfolio_research_as.Transaction.Decimal.{
  Decimal, no_decimal, is_valid, is_non_negative, add, sub, parse_non_negative_decimal,
}
use ai_portfolio_research_as.Transaction.Fact.{TransactionState, Transaction, rehydrate_transaction}

pub record LedgerViolation : Type 0 where
  pub transaction_id : Uuid
  pub portfolio_sequence : ℤ
  pub candidate : Bool
  pub later_existing : Bool
  pub negative_quantity : Decimal

pub data ReplayError : Type 0 where
  domain : DomainError → ReplayError
  violation : LedgerViolation → ReplayError

abbrev pub Replayed : Type 0 → Type 0
Replayed A = Result ReplayError A

-- `assetStreamKey`: the portfolio and the asset
abbrev pub StreamKey : Type 0
StreamKey = Uuid × Uuid

abbrev pub same_key : StreamKey → StreamKey → Bool
same_key a b = a.0 == b.0 && a.1 == b.1

-- membership in `candidateIDs` and in `reversed`
unfoldable pub has_id : Uuid → List Uuid → Bool
has_id id [] = false
has_id id (x ∷ xs) = let rest = has_id id xs in id == x || rest

-- `sequences[portfolio][sequence]`
unfoldable pub has_sequence : Uuid → ℤ → List (Uuid × ℤ) → Bool
has_sequence p n [] = false
has_sequence p n ((q, m) ∷ rest) =
    let later = has_sequence p n rest in (p == q && eqb_ℤ n m) || later

-- `byID[id]`
unfoldable pub find_fact : Uuid → List Transaction → Option Transaction
find_fact id [] = none
find_fact id (t ∷ ts) = let rest = find_fact id ts in if id == t.state.id then some t else rest

unfoldable pub has_key : StreamKey → List StreamKey → Bool
has_key k [] = false
has_key k (x ∷ xs) = let rest = has_key k xs in same_key k x || rest

-- The first loop: every fact is valid, and neither its identifier nor its sequence was seen before.
unfoldable pub check_facts :
    List Transaction → List Transaction → List (Uuid × ℤ) → Replayed (List Transaction)
check_facts [] by_id sequences = ok by_id
check_facts (t ∷ ts) by_id sequences = do
  let rest =
      check_facts ts (t ∷ by_id) ((t.state.portfolio_id, t.state.portfolio_sequence) ∷ sequences)
  fail_if (not (is_ok (rehydrate_transaction t.state))) (domain invalid_ledger)
  fail_if (elim (find_fact t.state.id by_id) [ none ↦ false | some _ ↦ true ])
      (domain invalid_ledger)
  fail_if (has_sequence t.state.portfolio_id t.state.portfolio_sequence sequences)
      (domain invalid_ledger)
  rest

unfoldable pub same_financial_dimensions : Transaction → Transaction → Bool
same_financial_dimensions a b =
    (if a.state.has_asset then b.state.has_asset else not b.state.has_asset)
    && same_asset a.state.asset b.state.asset
    && equal a.state.quantity.canonical b.state.quantity.canonical
    && equal a.state.unit_price.canonical b.state.unit_price.canonical
    && equal a.state.fee_paid.canonical b.state.fee_paid.canonical
    && equal a.state.amount.canonical b.state.amount.canonical
    && equal a.state.currency b.state.currency

-- the test of a reversal against the fact that it names
unfoldable pub reverses : Option Transaction → Transaction → Bool
reverses none t = false
reverses (some original) t =
    not (is_reversal original.state.kind)
    && original.state.portfolio_id == t.state.portfolio_id
    && same_financial_dimensions original t
    && original.state.effective_at == t.state.effective_at

-- The second loop: every reversal takes back one fact, which no other reversal does.
unfoldable pub check_reversals :
    List Transaction → List Transaction → List Uuid → Replayed (Unit {0})
check_reversals [] by_id reversed = ok tt
check_reversals (t ∷ ts) by_id reversed =
    let skip = check_reversals ts by_id reversed in
    let rest = check_reversals ts by_id (t.state.reversal_of ∷ reversed) in
    if not (is_reversal t.state.kind)
    then skip
    else fail_if (has_id t.state.reversal_of reversed) (domain invalid_ledger)
      >> fail_if (not (reverses (find_fact t.state.reversal_of by_id) t)) (domain invalid_ledger)
      >> rest

-- The order of the replay. The texts of two UUIDs are ordered as their numbers.
unfoldable pub precedes : Transaction → Transaction → Bool
precedes a b =
    if not (a.state.effective_at == b.state.effective_at)
    then ltb a.state.effective_at b.state.effective_at
    else if not (eqb_ℤ a.state.portfolio_sequence b.state.portfolio_sequence)
    then ltb_ℤ a.state.portfolio_sequence b.state.portfolio_sequence
    else ltb a.state.id b.state.id

unfoldable pub insert_fact : Transaction → List Transaction → List Transaction
insert_fact t [] = t ∷ []
insert_fact t (u ∷ us) =
    let rest = insert_fact t us in if precedes u t then u ∷ rest else t ∷ u ∷ us

-- `sort.Slice`: the facts in the order of `precedes`, by insertion
unfoldable pub sort_facts : List Transaction → List Transaction
unfolding insert_fact
sort_facts [] = []
sort_facts (t ∷ ts) = insert_fact t (sort_facts ts)

pub record LoopState : Type 0 where
  pub balances : List (StreamKey × Decimal)
  pub seen_candidate : List StreamKey

unfoldable pub find_balance : StreamKey → List (StreamKey × Decimal) → Option Decimal
find_balance k [] = none
find_balance k ((j, d) ∷ rest) =
    let later = find_balance k rest in if same_key k j then some d else later

abbrev pub key_of : Transaction → StreamKey
key_of t = (t.state.portfolio_id, t.state.asset.id)

-- The zero Transaction of a missing map entry has no kind.
abbrev pub is_buy : Option Transaction → Bool
is_buy none = false
is_buy (some t) = elim t.state.kind [ buy ↦ true | _ ↦ false ]

abbrev lift_domain : {A : Type 0} → Outcome A → Replayed A
lift_domain (ok a) = ok a
lift_domain (err e) = err (domain e)

-- the `switch` on the kind of a fact with a quantity
unfoldable pub next_balance : Kind → Bool → Decimal → Decimal → Replayed Decimal
next_balance buy original_is_buy balance quantity = lift_domain (add balance quantity)
next_balance sell original_is_buy balance quantity = lift_domain (sub balance quantity)
next_balance reversal original_is_buy balance quantity =
    if original_is_buy
    then lift_domain (sub balance quantity)
    else lift_domain (add balance quantity)
next_balance _ original_is_buy balance quantity = err (domain invalid_ledger)

-- `zero, _ := ParseNonNegativeDecimal("0")`: on an error the zero value stays
unfoldable pub zero_decimal : Decimal
unfolding parse_non_negative_decimal
zero_decimal = elim (parse_non_negative_decimal (codes "0")) [ ok d ↦ d | err _ ↦ no_decimal ]

unfoldable pub balance_or_zero : Option Decimal → Decimal
unfolding zero_decimal
balance_or_zero none = zero_decimal
balance_or_zero (some d) = d

-- The last part of a round: the new balance is kept, or the violation reported.
unfoldable pub settle : Bool → Transaction → LoopState → Decimal → Replayed LoopState
settle is_candidate t st next =
    if not (is_non_negative next)
    then err (
        violation (record {
          transaction_id = t.state.id;
          portfolio_sequence = t.state.portfolio_sequence;
          candidate = is_candidate;
          later_existing = not is_candidate && has_key (key_of t) st.seen_candidate;
          negative_quantity = next;
        }))
    else ok (record st { balances = (key_of t, next) ∷ st.balances })

abbrev pub mark : Bool → StreamKey → LoopState → LoopState
mark is_candidate k st =
    if is_candidate then record st { seen_candidate = k ∷ st.seen_candidate } else st

-- One round of the last loop.
unfoldable pub replay_fact :
    List Transaction → List Uuid → LoopState → Transaction → Replayed LoopState
replay_fact by_id candidate_ids st t =
    let is_candidate = has_id t.state.id candidate_ids in
    let marked = mark is_candidate (key_of t) st in
    let replayed =
      next_balance t.state.kind (is_buy (find_fact t.state.reversal_of by_id))
        (balance_or_zero (find_balance (key_of t) st.balances)) t.state.quantity
      >>= settle is_candidate t marked in
    if not t.state.has_asset
    then ok st
    else if not (is_valid t.state.quantity)
    then ok marked
    else replayed

unfoldable pub replay_facts :
    List Transaction → List Uuid → LoopState → List Transaction → Replayed LoopState
replay_facts by_id candidate_ids st [] = ok st
replay_facts by_id candidate_ids st (t ∷ ts) =
    replay_fact by_id candidate_ids st t >>= λ st'. replay_facts by_id candidate_ids st' ts

unfoldable pub ids_of : List Transaction → List Uuid
ids_of [] = []
ids_of (t ∷ ts) = t.state.id ∷ ids_of ts

abbrev pub initial : LoopState
initial = record { balances = []; seen_candidate = [] }

unfoldable pub replay_ledger : List Transaction → List Transaction → Replayed (Unit {0})
replay_ledger existing candidates = do
  let all = existing ++ candidates
  by_id ← check_facts all [] []
  check_reversals all by_id []
  replay_facts by_id (ids_of candidates) initial (sort_facts all) >>= λ _. ok tt
