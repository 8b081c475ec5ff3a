-- ===== src/Transaction/Replay/Stream.antt =====
-- The last loop of `ReplayLedger` in backend/internal/transaction/domain/replay.go, over a whole
-- stream: it succeeds exactly when no holding is negative after any beginning of the stream.
use mathlib.Core.List.{append_assoc}
use ai_portfolio_research_as.Prelude.{
  ◌≡◌, inl, inr, ◌∙◌, ap, sym, refl, arith, true, List, [], ◌∷◌, ◌++◌, Bool-cases, ok, err, ◌>>=◌,
  All,
}
use mathlib.Core.Path.{subst}
use ai_portfolio_research_as.Prelude.Int.{ℤ, pos, negsuc, ◌+ℤ◌, ◌≤ℤ◌, int_laws}
use ai_portfolio_research_as.Transaction.Value.{Uuid}
use ai_portfolio_research_as.Transaction.Decimal.Arithmetic.{Stands}
use ai_portfolio_research_as.Transaction.Fact.{Transaction}
use ai_portfolio_research_as.Transaction.Replay.{
  StreamKey, same_key, key_of, LoopState, replay_fact, replay_facts, has_id, domain, violation,
  LedgerViolation, Replayed,
}
use ai_portfolio_research_as.Transaction.Replay.Positions.{
  moves, position, HasQuantity, is_tradeable,
}
use ai_portfolio_research_as.Transaction.Replay.Round.{
  Holds, moved, RoundOf, replay_fact-RoundOf, same_key-eq, delta_still, delta_other, +ℤ_zero,
}

-- Facts that the rounds handle: the quantity is one of the package's, and its kind may carry one.
abbrev pub IsReady : Transaction → Type 0
IsReady t = HasQuantity t × (moves t ≡ true → is_tradeable t.state.kind ≡ true)

-- From the holdings `led`, no holding is negative after any beginning of the stream.
abbrev pub NeverNegative : List Transaction → (StreamKey → ℤ) → List Transaction → Type 0
NeverNegative by_id led ts =
    (pre post : List Transaction) (k : StreamKey)
    → ts ≡ pre ++ post
    → pos 0 ≤ℤ led k +ℤ position by_id k pre

module _ (by_id : List Transaction) (ids : List Uuid) where
  -- The violation names the first fact of the stream that makes a holding negative, and its holding.
  abbrev pub Overdrawn : (StreamKey → ℤ) → List Transaction → LedgerViolation → Type 0
  Overdrawn led ts v =
      (pre : List Transaction) × (t : Transaction) × (post : List Transaction) × (ts
        ≡ pre ++ t ∷ post)
      × NeverNegative by_id led pre
      × (led (key_of t) +ℤ position by_id (key_of t) (pre ++ t ∷ []) ≤ℤ negsuc 0)
      × Stands v.negative_quantity (led (key_of t) +ℤ position by_id (key_of t) (pre ++ t ∷ []))
      × (v.transaction_id ≡ t.state.id)
      × (v.portfolio_sequence ≡ t.state.portfolio_sequence)
      × (v.candidate ≡ has_id t.state.id ids)

  abbrev pub LoopOf : (StreamKey → ℤ) → List Transaction → Replayed LoopState → Type 0
  LoopOf led ts (ok _) = NeverNegative by_id led ts
  LoopOf led ts (err (domain e)) = ⊥
  LoopOf led ts (err (violation v)) = Overdrawn led ts v

abbrev IsNonNegative : (StreamKey → ℤ) → Type 0
IsNonNegative led = (k : StreamKey) → pos 0 ≤ℤ led k

moved-IsNonNegative :
    (by_id : List Transaction) (led : StreamKey → ℤ) (t : Transaction)
    → IsNonNegative led
    → (moves t ≡ true → pos 0 ≤ℤ moved by_id led t (key_of t))
    → IsNonNegative (moved by_id led t)
moved-IsNonNegative by_id led t g h k = elim (Bool-cases (moves t)) [
  | inl m ↦ elim (Bool-cases (same_key k (key_of t))) [
    | inl e ↦
        subst (λ (j : StreamKey). pos 0 ≤ℤ moved by_id led t j) (sym (same_key-eq k (key_of t) e))
          (h m)
    | inr e ↦ rw (delta_other by_id k t e) (rw (+ℤ_zero (led k)) (g k))
  ]
  | inr m ↦ rw (delta_still by_id k t m) (rw (+ℤ_zero (led k)) (g k))
]

module _ (by_id : List Transaction) (led : StreamKey → ℤ) where
  NeverNegative-nil : IsNonNegative led → NeverNegative by_id led []
  unfolding position
  NeverNegative-nil g [] post k e = rw (+ℤ_zero (led k)) (g k)
  NeverNegative-nil g (u ∷ pre) post k e = cc

  position_cons :
      (t : Transaction) (pre : List Transaction) (k : StreamKey)
      → led k +ℤ position by_id k (t ∷ pre) ≡ moved by_id led t k +ℤ position by_id k pre
  unfolding position
  position_cons t pre k = omega int_laws

  NeverNegative-cons :
      (t : Transaction) (ts : List Transaction)
      → IsNonNegative led
      → NeverNegative by_id (moved by_id led t) ts
      → NeverNegative by_id led (t ∷ ts)
  NeverNegative-cons t ts g h [] post k e = unfold position in rw (+ℤ_zero (led k)) (g k)
  NeverNegative-cons t ts g h (u ∷ pre) post k e =
      let same : u ≡ t = cc in
      let rest : ts ≡ pre ++ post = cc in rw same (rw (position_cons t pre k) (h pre post k rest))

module _ (by_id : List Transaction) (ids : List Uuid) (led : StreamKey → ℤ) (t : Transaction) where
  position_one : led (key_of t) +ℤ position by_id (key_of t) (t ∷ []) ≡ moved by_id led t (key_of t)
  unfolding position
  position_one = omega int_laws

  -- What the rest of the stream does, seen from before the fact.
  LoopOf-cons :
      (ts : List Transaction) (r : Replayed LoopState)
      → IsNonNegative led
      → LoopOf by_id ids (moved by_id led t) ts r
      → LoopOf by_id ids led (t ∷ ts) r
  LoopOf-cons ts (ok _) g h = NeverNegative-cons by_id led t ts g h
  LoopOf-cons ts (err (domain e)) g h = h
  LoopOf-cons ts (err (violation v)) g (pre, u, post, e, n, neg, s, i, q, c) = (
    t ∷ pre,
    u,
    post,
    ap (λ (l : List Transaction). t ∷ l) e,
    NeverNegative-cons by_id led t pre g n,
    rw (position_cons by_id led t (pre ++ u ∷ []) (key_of u)) neg,
    rw (position_cons by_id led t (pre ++ u ∷ []) (key_of u)) s,
    i,
    q,
    c,
  )

  LoopOf-round :
      (ts : List Transaction) (r : Replayed LoopState)
      → IsNonNegative led
      → RoundOf by_id ids led t r
      → ((st : LoopState)
          → Holds st (moved by_id led t)
          → IsNonNegative (moved by_id led t)
          → LoopOf by_id ids (moved by_id led t) ts (replay_facts by_id ids st ts))
      → LoopOf by_id ids led (t ∷ ts) (r >>= λ st. replay_facts by_id ids st ts)
  LoopOf-round ts (ok st) g (h, n) ih =
      LoopOf-cons ts (replay_facts by_id ids st ts) g
        (ih st h (moved-IsNonNegative by_id led t g n))
  LoopOf-round ts (err (domain e)) g h ih = h
  LoopOf-round ts (err (violation v)) g (neg, s, i, q, c) ih = (
    [],
    t,
    ts,
    refl,
    NeverNegative-nil by_id led g,
    rw position_one neg,
    rw position_one s,
    i,
    q,
    c,
  )

-- Total correctness of the loop: on right holdings that are not negative it returns, with success
-- if no holding turns negative, and else with the violation at the first fact that makes one so.
pub replay_facts-LoopOf :
    (by_id : List Transaction) (ids : List Uuid) (ts : List Transaction) (st : LoopState)
    (led : StreamKey → ℤ)
    → All IsReady ts
    → Holds st led
    → IsNonNegative led
    → LoopOf by_id ids led ts (replay_facts by_id ids st ts)
unfolding replay_facts
replay_facts-LoopOf by_id ids [] st led r h g = NeverNegative-nil by_id led g
replay_facts-LoopOf by_id ids (t ∷ ts) st led (r, rs) h g =
    LoopOf-round by_id ids led t ts (replay_fact by_id ids st t) g
      (replay_fact-RoundOf by_id ids st led t r.0 r.1 h)
      (λ st' h' g'. replay_facts-LoopOf by_id ids ts st' (moved by_id led t) rs h' g')

module _ (by_id : List Transaction) (ids : List Uuid) (led : StreamKey → ℤ)
    (ts : List Transaction) where
  -- A stream that keeps every holding at zero or more is not refused.
  pub LoopOf-ok :
      (r : Replayed LoopState)
      → LoopOf by_id ids led ts r
      → NeverNegative by_id led ts
      → (st : LoopState) × (r ≡ ok st)
  LoopOf-ok (ok st) h n = (st, refl)
  LoopOf-ok (err (domain e)) h n = absurd h
  LoopOf-ok (err (violation v)) (pre, t, post, e, first, neg, stands, i, q, c) n =
      let again = n (pre ++ t ∷ []) post (key_of t) (e ∙ sym (append_assoc pre (t ∷ []) post)) in
      absurd (omega (arith, again, neg))
