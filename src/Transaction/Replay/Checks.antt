-- ===== src/Transaction/Replay/Checks.antt =====
-- The first two loops of `ReplayLedger` in backend/internal/transaction/domain/replay.go: which
-- collections of facts are a ledger.
use ai_portfolio_research_as.Prelude.{
  ◌≡◌, ◌≢◌, inl, inr, refl, arith, true, false, List, [], ◌∷◌, none, Bool-cases, ok, is_ok, All,
}
use ai_portfolio_research_as.Prelude.Int.{ℤ, eq_of_parts}
use ai_portfolio_research_as.Transaction.Kind.{is_reversal}
use ai_portfolio_research_as.Transaction.Value.{Uuid}
use ai_portfolio_research_as.Transaction.Fact.{Transaction, rehydrate_transaction}
use ai_portfolio_research_as.Transaction.Replay.{
  find_fact, has_sequence, has_id, check_facts, check_reversals, reverses,
}

abbrev pub IsValidFact : Transaction → Type 0
IsValidFact t = is_ok (rehydrate_transaction t.state) ≡ true

-- No two facts have one identifier.
abbrev pub DistinctIds : List Transaction → Type 0
DistinctIds [] = Unit
DistinctIds (t ∷ ts) = All (λ u. u.state.id ≢ t.state.id) ts × DistinctIds ts

-- Two facts of one portfolio do not have one sequence.
abbrev pub OtherSequence : Transaction → Transaction → Type 0
OtherSequence t u =
    u.state.portfolio_id ≡ t.state.portfolio_id
    → u.state.portfolio_sequence ≢ t.state.portfolio_sequence

abbrev pub DistinctSequences : List Transaction → Type 0
DistinctSequences [] = Unit
DistinctSequences (t ∷ ts) = All (OtherSequence t) ts × DistinctSequences ts

-- The facts in the order in which the first loop has put them into its map.
abbrev pub collected : List Transaction → List Transaction → List Transaction
collected [] by_id = by_id
collected (t ∷ ts) by_id = collected ts (t ∷ by_id)

abbrev IsFresh : List Transaction → Transaction → Type 0
IsFresh by_id t = find_fact t.state.id by_id ≡ none

abbrev IsUnused : List (Uuid × ℤ) → Transaction → Type 0
IsUnused sequences t =
    has_sequence t.state.portfolio_id t.state.portfolio_sequence sequences ≡ false

IsFresh-cons :
    (t : Transaction) (by_id ts : List Transaction)
    → All (IsFresh (t ∷ by_id)) ts
    → All (λ u. u.state.id ≢ t.state.id) ts × All (IsFresh by_id) ts
unfolding find_fact
IsFresh-cons t by_id [] h = (tt, tt)
IsFresh-cons t by_id (u ∷ us) (h, hs) =
    let (a, b) = IsFresh-cons t by_id us hs in ((ground arith, a), (ground arith, b))

IsFresh-uncons :
    (t : Transaction) (by_id ts : List Transaction)
    → All (λ u. u.state.id ≢ t.state.id) ts
    → All (IsFresh by_id) ts
    → All (IsFresh (t ∷ by_id)) ts
unfolding find_fact
IsFresh-uncons t by_id [] h k = tt
IsFresh-uncons t by_id (u ∷ us) (h, hs) (k, ks) = (ground arith, IsFresh-uncons t by_id us hs ks)

IsUnused-cons :
    (t : Transaction) (sequences : List (Uuid × ℤ)) (ts : List Transaction)
    → All (IsUnused ((t.state.portfolio_id, t.state.portfolio_sequence) ∷ sequences)) ts
    → All (OtherSequence t) ts × All (IsUnused sequences) ts
unfolding has_sequence
IsUnused-cons t sequences [] h = (tt, tt)
IsUnused-cons t sequences (u ∷ us) (h, hs) =
    let (a, b) = IsUnused-cons t sequences us hs in ((λ p q. ground arith, a), (ground arith, b))

IsUnused-uncons :
    (t : Transaction) (sequences : List (Uuid × ℤ)) (ts : List Transaction)
    → All (OtherSequence t) ts
    → All (IsUnused sequences) ts
    → All (IsUnused ((t.state.portfolio_id, t.state.portfolio_sequence) ∷ sequences)) ts
unfolding has_sequence
IsUnused-uncons t sequences [] h k = tt
IsUnused-uncons t sequences (u ∷ us) (h, hs) (k, ks) = (
  ground (arith, eq_of_parts u.state.portfolio_sequence t.state.portfolio_sequence),
  IsUnused-uncons t sequences us hs ks,
)

check_round :
    (t : Transaction) (ts by_id r : List Transaction) (sequences : List (Uuid × ℤ))
    → check_facts (t ∷ ts) by_id sequences ≡ ok r
    → IsValidFact t
      × IsFresh by_id t
      × IsUnused sequences t
      × (check_facts ts (t ∷ by_id) ((t.state.portfolio_id, t.state.portfolio_sequence) ∷ sequences)
          ≡ ok r)
unfolding check_facts
check_round t ts by_id r sequences h = ground arith

check_facts_sound :
    (ts by_id r : List Transaction) (sequences : List (Uuid × ℤ))
    → check_facts ts by_id sequences ≡ ok r
    → All IsValidFact ts
      × DistinctIds ts
      × DistinctSequences ts
      × All (IsFresh by_id) ts
      × All (IsUnused sequences) ts
      × (r ≡ collected ts by_id)
check_facts_sound [] by_id r sequences h = (tt, tt, tt, tt, tt, unfold check_facts in ground arith)
check_facts_sound (t ∷ ts) by_id r sequences h =
    let (v, f, u, more) = check_round t ts by_id r sequences h in
    let (vs, ids, seqs, fs, us, e) = check_facts_sound ts (t ∷ by_id) r _ more in
    let (ne, fresh) = IsFresh-cons t by_id ts fs in
    let (other, unused) = IsUnused-cons t sequences ts us in
    ((v, vs), (ne, ids), (other, seqs), (f, fresh), (u, unused), e)

check_facts_complete :
    (ts by_id : List Transaction) (sequences : List (Uuid × ℤ))
    → All IsValidFact ts
    → DistinctIds ts
    → DistinctSequences ts
    → All (IsFresh by_id) ts
    → All (IsUnused sequences) ts
    → check_facts ts by_id sequences ≡ ok (collected ts by_id)
unfolding check_facts
check_facts_complete [] by_id sequences v d s f u = refl
check_facts_complete (t ∷ ts) by_id sequences (v, vs) (d, ds) (s, ss) (f, fs) (u, us) =
    let rest =
      check_facts_complete ts (t ∷ by_id)
        ((t.state.portfolio_id, t.state.portfolio_sequence) ∷ sequences) vs ds ss
        (IsFresh-uncons t by_id ts d fs) (IsUnused-uncons t sequences ts s us) in
    ground (arith, rest)

-- A reversal takes back a fact of the ledger.
abbrev pub IsBacked : List Transaction → Transaction → Type 0
IsBacked by_id t =
    is_reversal t.state.kind ≡ true → reverses (find_fact t.state.reversal_of by_id) t ≡ true

-- Two reversals do not take back one fact.
abbrev pub OtherTarget : Transaction → Transaction → Type 0
OtherTarget t u =
    is_reversal t.state.kind ≡ true
    → is_reversal u.state.kind ≡ true
    → u.state.reversal_of ≢ t.state.reversal_of

abbrev pub DistinctTargets : List Transaction → Type 0
DistinctTargets [] = Unit
DistinctTargets (t ∷ ts) = All (OtherTarget t) ts × DistinctTargets ts

abbrev IsNotReversed : List Uuid → Transaction → Type 0
IsNotReversed reversed t =
    is_reversal t.state.kind ≡ true → has_id t.state.reversal_of reversed ≡ false

reversed_cons :
    (t : Transaction) (reversed : List Uuid) (ts : List Transaction)
    → All (IsNotReversed (t.state.reversal_of ∷ reversed)) ts
    → All (OtherTarget t) ts × All (IsNotReversed reversed) ts
unfolding has_id
reversed_cons t reversed [] h = (tt, tt)
reversed_cons t reversed (u ∷ us) (h, hs) =
    let (a, b) = reversed_cons t reversed us hs in
    ((λ p q e. ground (arith, h q), a), (λ q. ground (arith, h q), b))

reversed_uncons :
    (t : Transaction) (reversed : List Uuid) (ts : List Transaction)
    → is_reversal t.state.kind ≡ true
    → All (OtherTarget t) ts
    → All (IsNotReversed reversed) ts
    → All (IsNotReversed (t.state.reversal_of ∷ reversed)) ts
unfolding has_id
reversed_uncons t reversed [] r h k = tt
reversed_uncons t reversed (u ∷ us) r (h, hs) (k, ks) =
    (λ q. ground (arith, h r q, k q), reversed_uncons t reversed us r hs ks)

OtherTarget-of_kind :
    (t : Transaction) (ts : List Transaction)
    → is_reversal t.state.kind ≡ false
    → All (OtherTarget t) ts
OtherTarget-of_kind t [] h = tt
OtherTarget-of_kind t (u ∷ us) h = (λ p. cc, OtherTarget-of_kind t us h)

reversal_round :
    (t : Transaction) (ts by_id : List Transaction) (reversed : List Uuid)
    → is_reversal t.state.kind ≡ true
    → check_reversals (t ∷ ts) by_id reversed ≡ ok tt
    → (has_id t.state.reversal_of reversed ≡ false)
      × (reverses (find_fact t.state.reversal_of by_id) t ≡ true)
      × (check_reversals ts by_id (t.state.reversal_of ∷ reversed) ≡ ok tt)
unfolding check_reversals
reversal_round t ts by_id reversed r h = ground arith

other_round :
    (t : Transaction) (ts by_id : List Transaction) (reversed : List Uuid)
    → is_reversal t.state.kind ≡ false
    → check_reversals (t ∷ ts) by_id reversed ≡ ok tt
    → check_reversals ts by_id reversed ≡ ok tt
unfolding check_reversals
other_round t ts by_id reversed r h = ground arith

check_reversals_sound :
    (ts by_id : List Transaction) (reversed : List Uuid)
    → check_reversals ts by_id reversed ≡ ok tt
    → All (IsBacked by_id) ts × DistinctTargets ts × All (IsNotReversed reversed) ts
check_reversals_sound [] by_id reversed h = (tt, tt, tt)
check_reversals_sound (t ∷ ts) by_id reversed h = elim (Bool-cases (is_reversal t.state.kind)) [
  | inl r ↦
      let (free, backed, more) = reversal_round t ts by_id reversed r h in
      let (b, d, n) = check_reversals_sound ts by_id (t.state.reversal_of ∷ reversed) more in
      let (other, n') = reversed_cons t reversed ts n in
      (((λ _. backed), b), (other, d), ((λ _. free), n'))
  | inr r ↦
      let (b, d, n) =
        check_reversals_sound ts by_id reversed (other_round t ts by_id reversed r h) in
      (((λ q. cc), b), (OtherTarget-of_kind t ts r, d), ((λ q. cc), n))
]

check_reversals_complete :
    (ts by_id : List Transaction) (reversed : List Uuid)
    → All (IsBacked by_id) ts
    → DistinctTargets ts
    → All (IsNotReversed reversed) ts
    → check_reversals ts by_id reversed ≡ ok tt
unfolding check_reversals
check_reversals_complete [] by_id reversed b d n = refl
check_reversals_complete (t ∷ ts) by_id reversed (b, bs) (d, ds) (n, ns) =
    elim (Bool-cases (is_reversal t.state.kind)) [
      | inl r ↦
          rw (r, n r)
            (rw (b r) (
              check_reversals_complete ts by_id (t.state.reversal_of ∷ reversed) bs ds
                (reversed_uncons t reversed ts r d ns)))
      | inr r ↦ rw r (check_reversals_complete ts by_id reversed bs ds ns)
    ]

IsFresh-nil : (ts : List Transaction) → All (IsFresh []) ts
unfolding find_fact
IsFresh-nil [] = tt
IsFresh-nil (t ∷ ts) = (refl, IsFresh-nil ts)

IsUnused-nil : (ts : List Transaction) → All (IsUnused []) ts
unfolding has_sequence
IsUnused-nil [] = tt
IsUnused-nil (t ∷ ts) = (refl, IsUnused-nil ts)

IsNotReversed-nil : (ts : List Transaction) → All (IsNotReversed []) ts
unfolding has_id
IsNotReversed-nil [] = tt
IsNotReversed-nil (t ∷ ts) = (λ _. refl, IsNotReversed-nil ts)

-- Valid facts with their own identifiers and sequences, in which every reversal takes back a fact of
-- its portfolio, with its dimensions and its time, that is no reversal and that no other takes back.
pub record IsLedger (all : List Transaction) : Type 0 where
  pub valid : All IsValidFact all
  pub ids : DistinctIds all
  pub sequences : DistinctSequences all
  pub backed : All (IsBacked (collected all [])) all
  pub targets : DistinctTargets all

pub IsLedger-checks :
    (all : List Transaction)
    → IsLedger all
    → (check_facts all [] [] ≡ ok (collected all []))
      × (check_reversals all (collected all []) [] ≡ ok tt)
IsLedger-checks all l = (
  check_facts_complete all [] [] l.valid l.ids l.sequences (IsFresh-nil all) (IsUnused-nil all),
  check_reversals_complete all (collected all []) [] l.backed l.targets (IsNotReversed-nil all),
)

pub checks-IsLedger :
    (all by_id : List Transaction)
    → check_facts all [] [] ≡ ok by_id
    → check_reversals all by_id [] ≡ ok tt
    → (by_id ≡ collected all []) × IsLedger all
checks-IsLedger all by_id h k =
    let (v, ids, seqs, fresh, unused, e) = check_facts_sound all [] by_id [] h in
    let (b, d, n) = check_reversals_sound all by_id [] k in
    (e, record { valid = v; ids = ids; sequences = seqs; backed = rw e at b; targets = d })
