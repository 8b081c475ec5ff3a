-- ===== src/Transaction/Correction/Built.antt =====
-- The facts that `BuildCorrection` of backend/internal/transaction/domain/correction.go makes.
use mathlib.Core.Path.{subst}
use ai_portfolio_research_as.Prelude.{
  ◌≡◌, ◌≢◌, ◌∙◌, refl, sym, ap, arith, true, false, ok, is_ok, List, some, Bool, >>=-eq-ok,
  if◌then◌else◌, ◌&&◌, ◌>>=◌, err,
}
use ai_portfolio_research_as.Prelude.Int.{ℤ, pos, ◌<ℤ◌, ◌-ℤ◌, ◌+ℤ◌, int_laws}
use ai_portfolio_research_as.Prelude.Time.{Instant}
use ai_portfolio_research_as.Text.Equality.{equal_refl}
use ai_portfolio_research_as.Transaction.Errors.{Outcome}
use ai_portfolio_research_as.Transaction.Kind.{
  Kind, buy, sell, dividend, deposit, withdrawal, fee, reversal, unknown, is_reversal,
}
use ai_portfolio_research_as.Transaction.Value.{Uuid, same_asset}
use ai_portfolio_research_as.Transaction.Fact.{TransactionState, Transaction, rehydrate_transaction}
use ai_portfolio_research_as.Transaction.Fact.Rehydrated.{IsFact, rehydrate-state, accepted-IsFact}
use ai_portfolio_research_as.Transaction.Command.Accepted.{new_transaction-state}
use ai_portfolio_research_as.Transaction.Command.{command_state, new_transaction_from_command}
use ai_portfolio_research_as.Transaction.Correction.{
  Correction, CorrectionInput, CorrectionFacts, build_correction, rehydrate_correction, bad_input,
  build_facts, reversal_state, replacement_state, validate_correction_target,
}
use ai_portfolio_research_as.Transaction.Replay.{
  is_buy, reverses, same_financial_dimensions, find_fact, StreamKey, same_key, key_of,
}
use ai_portfolio_research_as.Transaction.Replay.Positions.{
  delta, units_of, signed, moves, change, is_tradeable,
}
use ai_portfolio_research_as.Transaction.Replay.Tradeable.{valid_shape, shape_tradeable}

-- What the three facts have to do with the input and with each other.
pub record IsCorrectionOf (input : CorrectionInput) (facts : CorrectionFacts) : Type 0 where
  pub reversal_made : facts.reversal_fact.state ≡ reversal_state input
  pub replacement_made :
      facts.replacement_fact.state
      ≡ replacement_state input (record {
        state =
            command_state input.replacement_id input.original.state.portfolio_id input.actor
              input.replacement_sequence input.created_at input.replacement;
      })
  pub reversal_valid : IsFact facts.reversal_fact.state
  pub replacement_valid : IsFact facts.replacement_fact.state
  pub takes_back : reverses (some input.original) facts.reversal_fact ≡ true
  pub ordered : input.reversal_sequence <ℤ input.replacement_sequence
  pub other_reversal : input.reversal_id ≢ input.original.state.id
  pub other_replacement : input.replacement_id ≢ input.original.state.id
  pub other_facts : input.reversal_id ≢ input.replacement_id
  pub first_correction : input.has_direct_correction ≡ false

-- The copy of a fact keeps its financial dimensions.
copy_reverses :
    (input : CorrectionInput)
    → is_reversal input.original.state.kind ≡ false
    → reverses (some input.original) (record { state = reversal_state input }) ≡ true
unfolding reverses same_financial_dimensions reversal_state same_asset
copy_reverses input k = ground (
  arith,
  equal_refl input.original.state.asset.asset_type,
  equal_refl input.original.state.asset.exchange,
  equal_refl input.original.state.asset.currency,
  equal_refl input.original.state.quantity.canonical,
  equal_refl input.original.state.unit_price.canonical,
  equal_refl input.original.state.fee_paid.canonical,
  equal_refl input.original.state.amount.canonical,
  equal_refl input.original.state.currency,
)

target_facts :
    (t : Transaction) (corrected : Bool)
    → validate_correction_target t corrected ≡ ok tt
    → (is_reversal t.state.kind ≡ false) × (corrected ≡ false)
unfolding validate_correction_target
target_facts t corrected h = ground arith

input_facts :
    (input : CorrectionInput)
    → bad_input input ≡ false
    → (input.reversal_sequence <ℤ input.replacement_sequence)
      × (input.reversal_id ≢ input.original.state.id)
      × (input.replacement_id ≢ input.original.state.id)
unfolding bad_input
input_facts input h = ground arith

relation_facts :
    (id portfolio_id original reversal_id replacement actor : Uuid) (created_at : Instant)
    (c : Correction)
    → rehydrate_correction id portfolio_id original reversal_id replacement actor created_at ≡ ok c
    → reversal_id ≢ replacement
unfolding rehydrate_correction
relation_facts id portfolio_id original reversal_id replacement actor created_at c h = ground arith

chain :
    (m : Outcome Correction) (back new : Outcome Transaction)
    (link : Transaction → Outcome Transaction) (facts : CorrectionFacts)
    → (m >>= λ c. back >>= λ r. new >>= λ n.
        link n >>= λ l. ok (record { reversal_fact = r; replacement_fact = l; relationship = c }))
      ≡ ok facts
    → (m ≡ ok facts.relationship)
      × (back ≡ ok facts.reversal_fact)
      × (n : Transaction) × (new ≡ ok n)
      × (link n ≡ ok facts.replacement_fact)
chain (err e) back new link facts h = cc
chain (ok c) (err e) new link facts h = cc
chain (ok c) (ok r) (err e) link facts h = cc
chain (ok c) (ok r) (ok n) link facts h =
    let (l, e, k) =
      >>=-eq-ok (link n)
        (λ l. ok (record { reversal_fact = r; replacement_fact = l; relationship = c })) h in
    (cc, cc, n, refl, cc)

module _ (input : CorrectionInput) (facts : CorrectionFacts)
    (h : build_correction input ≡ ok facts) where
  guards :
      (validate_correction_target input.original input.has_direct_correction ≡ ok tt)
      × (bad_input input ≡ false)
      × (build_facts input ≡ ok facts)
  unfolding build_correction
  guards = ground arith

  made :
      (rehydrate_correction input.correction_id input.original.state.portfolio_id
          input.original.state.id input.reversal_id input.replacement_id input.actor
          input.created_at
        ≡ ok facts.relationship)
      × (rehydrate_transaction (reversal_state input) ≡ ok facts.reversal_fact)
      × (replacement : Transaction) × (new_transaction_from_command input.replacement_id
            input.original.state.portfolio_id input.actor input.replacement_sequence
            input.created_at input.replacement
          ≡ ok replacement)
      × (rehydrate_transaction (replacement_state input replacement) ≡ ok facts.replacement_fact)
  unfolding build_facts
  made = chain _ _ _ _ facts guards.2

  -- When BuildCorrection succeeds, the original is no reversal and has no correction yet, the
  -- reversal takes it back with its financial dimensions and time, both new facts are valid, their
  -- sequences increase, and the three identifiers differ.
  pub build_correction-IsCorrectionOf : IsCorrectionOf input facts
  build_correction-IsCorrectionOf =
      let (related, reversed, new, replaced, linked) = made in
      let (fresh, uncorrected) = target_facts input.original input.has_direct_correction guards.0 in
      let (order, other_reversal, other_replacement) = input_facts input guards.1 in
      let back = rehydrate-state (reversal_state input) facts.reversal_fact reversed in
      record {
        reversal_made = back;
        replacement_made =
            rehydrate-state (replacement_state input new) facts.replacement_fact linked
            ∙ ap (λ (s : TransactionState). replacement_state input (record { state = s }))
                (new_transaction-state _ _ _ _ _ _ new replaced);
        reversal_valid = accepted-IsFact (reversal_state input) facts.reversal_fact reversed;
        replacement_valid =
            accepted-IsFact (replacement_state input new) facts.replacement_fact linked;
        takes_back =
            subst
              (λ (s : TransactionState).
                reverses (some input.original) (record { state = s }) ≡ true)
              (sym back) (copy_reverses input fresh);
        ordered = order;
        other_reversal = other_reversal;
        other_replacement = other_replacement;
        other_facts = relation_facts _ _ _ _ _ _ _ facts.relationship related;
        first_correction = uncorrected;
      }

minus_zero : pos 0 ≡ pos 0 -ℤ pos 0
minus_zero = omega int_laws

minus_add : (u : ℤ) → (pos 0 -ℤ u) +ℤ u ≡ pos 0
minus_add u = omega int_laws

minus_minus : (u : ℤ) → u ≡ pos 0 -ℤ (pos 0 -ℤ u)
minus_minus u = omega int_laws

signed_back :
    (kind : Kind) (original_is_buy : Bool) (u : ℤ)
    → is_reversal kind ≡ false
    → is_tradeable kind ≡ true
    → signed reversal (elim kind [ buy ↦ true | _ ↦ false ]) u
      ≡ pos 0 -ℤ signed kind original_is_buy u
signed_back buy original_is_buy u n t = refl
signed_back sell original_is_buy u n t = minus_minus u
signed_back reversal original_is_buy u n t = cc
signed_back dividend original_is_buy u n t = cc
signed_back deposit original_is_buy u n t = cc
signed_back withdrawal original_is_buy u n t = cc
signed_back fee original_is_buy u n t = cc
signed_back unknown original_is_buy u n t = cc

if_back :
    (b : Bool) (x y : ℤ)
    → (b ≡ true → x ≡ pos 0 -ℤ y)
    → (if b then x else pos 0) ≡ pos 0 -ℤ (if b then y else pos 0)
if_back true x y h = h refl
if_back false x y h = minus_zero

-- A fact that is not a reversal and its reversal add nothing together.
module _ (input : CorrectionInput) (by_id : List Transaction)
    (v : is_ok (rehydrate_transaction input.original.state) ≡ true)
    (n : is_reversal input.original.state.kind ≡ false)
    (f : find_fact input.original.state.id by_id ≡ some input.original) where
  tradeable : moves input.original ≡ true → is_tradeable input.original.state.kind ≡ true
  tradeable m =
      let (shape, known) = valid_shape input.original.state v in
      shape_tradeable input.original.state.kind input.original.state shape known (ground (arith, m))
        (ground (arith, m))

  change_back :
      is_tradeable input.original.state.kind ≡ true
      → change by_id (record { state = reversal_state input })
        ≡ pos 0 -ℤ change by_id input.original
  unfolding reversal_state
  change_back t = rw f (
      signed_back input.original.state.kind
        (is_buy (find_fact input.original.state.reversal_of by_id))
        (units_of input.original.state.quantity) n t)

  delta_back :
      (k : StreamKey)
      → delta by_id k (record { state = reversal_state input })
        ≡ pos 0 -ℤ delta by_id k input.original
  unfolding delta reversal_state
  delta_back k =
      if_back (moves input.original && same_key k (key_of input.original))
        (change by_id (record { state = reversal_state input })) (change by_id input.original)
        (λ m. change_back (tradeable (ground (arith, m))))

-- The reversal that BuildCorrection builds for a valid original, which the ledger finds by its
-- identifier, takes back exactly what the original added to every holding.
pub build_correction-delta :
    (input : CorrectionInput) (facts : CorrectionFacts) (by_id : List Transaction) (k : StreamKey)
    → build_correction input ≡ ok facts
    → is_ok (rehydrate_transaction input.original.state) ≡ true
    → find_fact input.original.state.id by_id ≡ some input.original
    → delta by_id k facts.reversal_fact +ℤ delta by_id k input.original ≡ pos 0
build_correction-delta input facts by_id k h v f =
    let built = build_correction-IsCorrectionOf input facts h in
    let fresh =
      (target_facts input.original input.has_direct_correction (guards input facts h).0).0 in
    let back =
      subst
        (λ (s : TransactionState).
          delta by_id k (record { state = s }) ≡ pos 0 -ℤ delta by_id k input.original)
        (sym built.reversal_made) (delta_back input by_id v fresh f k) in
    rw back (minus_add (delta by_id k input.original))
