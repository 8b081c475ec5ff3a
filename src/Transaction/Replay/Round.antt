-- ===== src/Transaction/Replay/Round.antt =====
-- One round of the replay, by what it does to the exact holdings.
use ai_portfolio_research_as.Prelude.{
  ◌≡◌, inl, inr, ◌∙◌, ap, sym, refl, arith, Bool, true, false, not, List, ◌∷◌, Bool-cases, ok, err,
  ◌>>=◌,
}
use mathlib.Core.Path.{subst}
use ai_portfolio_research_as.Prelude.Int.{ℤ, pos, negsuc, ◌+ℤ◌, ◌≤ℤ◌, ltb_ℤ, int_laws}
use ai_portfolio_research_as.Transaction.Kind.{
  Kind, buy, sell, dividend, deposit, withdrawal, fee, reversal, unknown,
}
use ai_portfolio_research_as.Transaction.Value.{Uuid}
use ai_portfolio_research_as.Transaction.Decimal.{
  Decimal, is_valid, is_non_negative, decimal_from_scaled, parse_parts,
}
use ai_portfolio_research_as.Text.{split, all_digits, equal}
use ai_portfolio_research_as.Transaction.Decimal.Arithmetic.{
  IsCanonical, Stands, IsCanonical-scaled, add-Stands, sub-Stands, sign-Stands,
  decimal_from_scaled-IsCanonical, scaled-decimal_from_scaled,
}
use ai_portfolio_research_as.Transaction.Fact.{Transaction}
use ai_portfolio_research_as.Transaction.Replay.{
  StreamKey, same_key, key_of, find_fact, is_buy, LoopState, find_balance, balance_or_zero,
  zero_decimal, next_balance, settle, replay_fact, has_id, domain, violation, Replayed, mark,
}
use ai_portfolio_research_as.Transaction.Replay.Positions.{
  units_of, signed, moves, change, delta, HasQuantity, is_tradeable,
}

-- Every balance of the loop stands for the exact holding of its key; a missing one for none.
unfoldable pub Holds : LoopState → (StreamKey → ℤ) → Type 0
Holds st led = (k : StreamKey) → Stands (balance_or_zero (find_balance k st.balances)) (led k)

pub zero_decimal-Stands : Stands zero_decimal (pos 0)
unfolding Stands zero_decimal decimal_from_scaled parse_parts split all_digits equal
zero_decimal-Stands = (decimal_from_scaled-IsCanonical (pos 0), scaled-decimal_from_scaled (pos 0))

units_of-Stands : (d : Decimal) → IsCanonical d → Stands d (units_of d)
unfolding Stands
units_of-Stands d c = let (n, s, e) = IsCanonical-scaled d c in (c, rw s)

-- The next balance of a tradeable fact stands for the balance and the signed quantity.
next_balance-Stands :
    (kind : Kind) (original_is_buy : Bool) (b q : Decimal) (m n : ℤ)
    → is_tradeable kind ≡ true
    → Stands b m
    → Stands q n
    → (c : Decimal) × (next_balance kind original_is_buy b q ≡ ok c)
      × Stands c (m +ℤ signed kind original_is_buy n)
unfolding next_balance
next_balance-Stands buy o b q m n t hb hq = let (c, e, s) = add-Stands b q m n hb hq in (c, rw e, s)
next_balance-Stands sell o b q m n t hb hq =
    let (c, e, s) = sub-Stands b q m n hb hq in (c, rw e, subst (Stands c) (omega int_laws) s)
next_balance-Stands reversal true b q m n t hb hq =
    let (c, e, s) = sub-Stands b q m n hb hq in (c, rw e, subst (Stands c) (omega int_laws) s)
next_balance-Stands reversal false b q m n t hb hq =
    let (c, e, s) = add-Stands b q m n hb hq in (c, rw e, s)
next_balance-Stands dividend o b q m n t hb hq = cc
next_balance-Stands deposit o b q m n t hb hq = cc
next_balance-Stands withdrawal o b q m n t hb hq = cc
next_balance-Stands fee o b q m n t hb hq = cc
next_balance-Stands unknown o b q m n t hb hq = cc

-- The holdings after one more fact.
abbrev pub moved : List Transaction → (StreamKey → ℤ) → Transaction → StreamKey → ℤ
moved by_id led t k = led k +ℤ delta by_id k t

-- What a round does to the holdings: it keeps them right and not negative, or reports the fact that
-- makes one negative.
abbrev pub RoundOf :
    List Transaction → List Uuid → (StreamKey → ℤ) → Transaction → Replayed LoopState → Type 0
RoundOf by_id ids led t (ok st) =
    Holds st (moved by_id led t) × (moves t ≡ true → pos 0 ≤ℤ moved by_id led t (key_of t))
RoundOf by_id ids led t (err (domain e)) = ⊥
RoundOf by_id ids led t (err (violation v)) =
    (moved by_id led t (key_of t) ≤ℤ negsuc 0)
    × Stands v.negative_quantity (moved by_id led t (key_of t))
    × (v.transaction_id ≡ t.state.id)
    × (v.portfolio_sequence ≡ t.state.portfolio_sequence)
    × (v.candidate ≡ has_id t.state.id ids)

same_key_refl : (k : StreamKey) → same_key k k ≡ true
same_key_refl k = ground arith

pub same_key-eq : (j k : StreamKey) → same_key j k ≡ true → j ≡ k
same_key-eq j k h = ground arith

pub delta_still :
    (by_id : List Transaction) (k : StreamKey) (t : Transaction)
    → moves t ≡ false
    → delta by_id k t ≡ pos 0
unfolding delta
delta_still by_id k t h = rw h

pub delta_other :
    (by_id : List Transaction) (k : StreamKey) (t : Transaction)
    → same_key k (key_of t) ≡ false
    → delta by_id k t ≡ pos 0
unfolding delta
delta_other by_id k t h = ground arith

delta_key :
    (by_id : List Transaction) (t : Transaction)
    → moves t ≡ true
    → delta by_id (key_of t) t ≡ change by_id t
unfolding delta
delta_key by_id t h = rw (h, same_key_refl (key_of t))

pub +ℤ_zero : (n : ℤ) → n +ℤ pos 0 ≡ n
+ℤ_zero n = omega int_laws

-- A fact that moves nothing keeps the holdings.
still-Holds :
    (by_id : List Transaction) (st st' : LoopState) (led : StreamKey → ℤ) (t : Transaction)
    → st'.balances ≡ st.balances
    → moves t ≡ false
    → Holds st led
    → Holds st' (moved by_id led t)
unfolding Holds
still-Holds by_id st st' led t e h g =
    λ k. rw (e, delta_still by_id k t h) (rw (+ℤ_zero (led k)) (g k))

mark-balances : (b : Bool) (k : StreamKey) (st : LoopState) → (mark b k st).balances ≡ st.balances
mark-balances true k st = refl
mark-balances false k st = refl

mark-Holds :
    (b : Bool) (k : StreamKey) (st : LoopState) (led : StreamKey → ℤ)
    → Holds st led
    → Holds (mark b k st) led
unfolding Holds
mark-Holds true k st led h = h
mark-Holds false k st led h = h

moves_parts :
    (t : Transaction)
    → moves t ≡ true
    → (t.state.has_asset ≡ true) × (is_valid t.state.quantity ≡ true)
moves_parts t h = ground arith

-- Storing the next balance of a fact's key keeps the holdings.
settle-Holds :
    (by_id : List Transaction) (st : LoopState) (led : StreamKey → ℤ) (t : Transaction)
    (next : Decimal)
    → moves t ≡ true
    → Stands next (led (key_of t) +ℤ change by_id t)
    → Holds st led
    → Holds (record st { balances = (key_of t, next) ∷ st.balances }) (moved by_id led t)
unfolding Holds find_balance delta balance_or_zero
settle-Holds by_id st led t next h s g = λ k. elim (Bool-cases (same_key k (key_of t))) [
  | inl e ↦
      let p : k ≡ key_of t = same_key-eq k (key_of t) e in
      rw (e, h) (subst (λ (j : StreamKey). Stands next (led j +ℤ change by_id t)) (sym p) s)
  | inr e ↦ rw (e, h) (rw (+ℤ_zero (led k)) (g k))
]

nonneg_of_test : (n : ℤ) → not (ltb_ℤ n (pos 0)) ≡ true → pos 0 ≤ℤ n
nonneg_of_test n h = ground arith

negative_of_test : (n : ℤ) → not (ltb_ℤ n (pos 0)) ≡ false → n ≤ℤ negsuc 0
negative_of_test n h = ground arith

settle-RoundOf :
    (by_id : List Transaction) (ids : List Uuid) (st : LoopState) (led : StreamKey → ℤ)
    (t : Transaction) (next : Decimal)
    → moves t ≡ true
    → Stands next (led (key_of t) +ℤ change by_id t)
    → Holds st led
    → RoundOf by_id ids led t (settle (has_id t.state.id ids) t st next)
unfolding settle
settle-RoundOf by_id ids st led t next h s g =
    let sign = (sign-Stands next (led (key_of t) +ℤ change by_id t) s).0 in
    let here : moved by_id led t (key_of t) ≡ led (key_of t) +ℤ change by_id t =
      ap (λ (n : ℤ). led (key_of t) +ℤ n) (delta_key by_id t h) in
    elim (Bool-cases (is_non_negative next)) [
      | inl e ↦ rw e (
        settle-Holds by_id st led t next h s g,
        λ _. rw here (nonneg_of_test (led (key_of t) +ℤ change by_id t) (sym sign ∙ e)),
      )
      | inr e ↦ rw e (
          rw here (
            negative_of_test (led (key_of t) +ℤ change by_id t) (sym sign ∙ e),
            s,
            refl,
            refl,
            refl,
          ))
    ]

replay_still :
    (by_id : List Transaction) (ids : List Uuid) (st : LoopState) (t : Transaction)
    → moves t ≡ false
    → (st' : LoopState) × (replay_fact by_id ids st t ≡ ok st') × (st'.balances ≡ st.balances)
unfolding replay_fact
replay_still by_id ids st t h = elim (Bool-cases t.state.has_asset) [
  | inl a ↦ (
    mark (has_id t.state.id ids) (key_of t) st,
    rw (a, (rw a at h)),
    mark-balances (has_id t.state.id ids) (key_of t) st,
  )
  | inr a ↦ (st, rw a, refl)
]

replay_moving :
    (by_id : List Transaction) (ids : List Uuid) (st : LoopState) (t : Transaction)
    → moves t ≡ true
    → replay_fact by_id ids st t ≡ (
        next_balance t.state.kind
          (is_buy (find_fact t.state.reversal_of by_id))
          (balance_or_zero (find_balance (key_of t) st.balances))
          t.state.quantity
        >>= settle (has_id t.state.id ids) t (mark (has_id t.state.id ids) (key_of t) st))
unfolding replay_fact
replay_moving by_id ids st t h = let (a, v) = moves_parts t h in rw (a, v)

-- A round on right holdings, at a fact whose quantity is one of the package's and whose kind, if it
-- moves a holding, may carry one.
pub replay_fact-RoundOf :
    (by_id : List Transaction) (ids : List Uuid) (st : LoopState) (led : StreamKey → ℤ)
    (t : Transaction)
    → HasQuantity t
    → (moves t ≡ true → is_tradeable t.state.kind ≡ true)
    → Holds st led
    → RoundOf by_id ids led t (replay_fact by_id ids st t)
replay_fact-RoundOf by_id ids st led t q k g = elim (Bool-cases (moves t)) [
  | inl m ↦
      let (a, v) = moves_parts t m in
      let (c, e, s) =
        next_balance-Stands t.state.kind (is_buy (find_fact t.state.reversal_of by_id))
          (balance_or_zero (find_balance (key_of t) st.balances)) t.state.quantity (led (key_of t))
          (units_of t.state.quantity) (k m) (unfold Holds in g (key_of t))
          (units_of-Stands t.state.quantity (q v)) in
      rw (replay_moving by_id ids st t m) (
        rw e (
          settle-RoundOf by_id ids (mark (has_id t.state.id ids) (key_of t) st) led t c m s
            (mark-Holds (has_id t.state.id ids) (key_of t) st led g)))
  | inr m ↦
      let (st', e, same) = replay_still by_id ids st t m in
      rw e (still-Holds by_id st st' led t same m g, λ moving. cc)
]
