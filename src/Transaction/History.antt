-- ===== src/Transaction/History.antt =====
-- `List` of backend/internal/transaction/application/history.go: a page of the history. The check of
-- the owner, the query and the look-up of direct corrections are parameters.
use ai_portfolio_research_as.Prelude.{
  ◌≡◌, ◌≤◌, refl, arith, ℕ, zero, suc, Bool, true, false, not, ◌&&◌, ◌||◌, List, [], ◌∷◌, Option,
  none, some, Result, ok, err, ◌>>=◌, ◌>>◌, >>=-eq-ok, fail_if, is_ok, length, if◌then◌else◌,
}
use ai_portfolio_research_as.Prelude.Int.{ℤ, pos, pos_part, ◌+ℤ◌, eqb_ℤ, ltb_ℤ}
use ai_portfolio_research_as.Prelude.Time.{Instant, is_zero_time, is_submicrosecond, after}
use ai_portfolio_research_as.Transaction.Kind.{Kind, check_kind}
use ai_portfolio_research_as.Transaction.Value.{Uuid, is_zero}
use ai_portfolio_research_as.Transaction.Fact.{Transaction}

-- `unavailable` is an error of a parameter, with its number.
pub data HistoryError : Type 0 where
  invalid_input : HistoryError
  unavailable : ℕ → HistoryError

pub record Position : Type 0 where
  pub effective_at : Instant
  pub sequence : ℤ
  pub id : Uuid

pub record HistoryInput : Type 0 where
  pub limit : ℤ
  pub kind : Option Kind
  pub since : Option Instant
  pub until : Option Instant
  pub include_reversals : Option Bool
  pub behind : Option Position

pub record History (D : Type 0) : Type 0 where
  pub records : List (Transaction × D)
  pub next : Option Position

abbrev pub valid_history_time : Instant → Bool
valid_history_time value = not (is_zero_time value) && not (is_submicrosecond value)

abbrev pub bad_kind : Option Kind → Bool
bad_kind none = false
bad_kind (some kind) = not (is_ok (check_kind kind))

abbrev pub bad_time : Option Instant → Bool
bad_time none = false
bad_time (some t) = not (valid_history_time t)

abbrev pub bad_range : Option Instant → Option Instant → Bool
bad_range (some since) (some until) = after since until
bad_range _ _ = false

abbrev pub bad_position : Option Position → Bool
bad_position none = false
bad_position (some p) =
    not (valid_history_time p.effective_at) || ltb_ℤ p.sequence (pos 1) || is_zero p.id

-- the limit, with its default
abbrev pub limit_of : HistoryInput → ℤ
limit_of input = if eqb_ℤ input.limit (pos 0) then pos 50 else input.limit

unfoldable pub bad_history : HistoryInput → Bool
bad_history input =
    ltb_ℤ (limit_of input) (pos 1)
    || ltb_ℤ (pos 100) (limit_of input)
    || bad_kind input.kind
    || bad_time input.since
    || bad_time input.until
    || bad_range input.since input.until
    || bad_position input.behind

-- `facts[:limit]`
unfoldable pub first_facts : ℕ → List Transaction → List Transaction
first_facts zero ts = []
first_facts (suc n) [] = []
first_facts (suc n) (t ∷ ts) = t ∷ first_facts n ts

-- the position of `facts[limit-1]`, when facts stand behind it
unfoldable pub next_position : ℕ → List Transaction → Option Position
next_position zero ts = none
next_position (suc zero) (t ∷ u ∷ ts) = some (record {
  effective_at = t.state.effective_at;
  sequence = t.state.portfolio_sequence;
  id = t.state.id;
})
next_position (suc (suc n)) (t ∷ ts) = next_position (suc n) ts
next_position _ _ = none

-- What a successful call has passed.
passed :
    {X Y : Type 0} (a : Result HistoryError (Unit {0})) (bad : Bool) (q : Result HistoryError X)
    (f : X → Result HistoryError Y) (y : Y)
    → (a >>= λ _. fail_if bad invalid_input >>= λ _. q >>= f) ≡ ok y
    → (bad ≡ false) × (x : X) × (f x ≡ ok y)
passed (err e) bad q f y h = cc
passed (ok a) true q f y h = cc
passed (ok a) false (err e) f y h = cc
passed (ok a) false (ok x) f y h = (refl, x, h)

module _ {D : Type 0} (owned : Result HistoryError (Unit {0}))
    (query : HistoryInput → Result HistoryError (List Transaction))
    (direct : Uuid → Result HistoryError D) where
  -- the last loop
  unfoldable pub attach : List Transaction → Result HistoryError (List (Transaction × D))
  attach [] = ok []
  attach (t ∷ ts) = direct t.state.id >>= λ d. attach ts >>= λ rest. ok ((t, d) ∷ rest)

  unfoldable pub page_of : ℕ → List Transaction → Result HistoryError (History D)
  page_of n facts = attach (first_facts n facts) >>= λ records.
      ok (record { records = records; next = next_position n facts })

  -- the function that `List` runs within its transaction; `owned` is the result of the owner check
  unfoldable pub list_history : HistoryInput → Result HistoryError (History D)
  list_history input = do
    owned
    fail_if (bad_history input) invalid_input
    facts ← query (record input { limit = limit_of input +ℤ pos 1 })
    page_of (pos_part (limit_of input)) facts

  attach-length :
      (ts : List Transaction) (rs : List (Transaction × D))
      → attach ts ≡ ok rs
      → length rs ≡ length ts
  unfolding attach
  attach-length [] rs h = ground arith
  attach-length (t ∷ ts) rs h =
      let (d, _, k) =
        >>=-eq-ok (direct t.state.id) (λ d. attach ts >>= λ rest. ok ((t, d) ∷ rest)) h in
      let (rest, e, l) = >>=-eq-ok (attach ts) (λ rest. ok ((t, d) ∷ rest)) k in
      let n = attach-length ts rest e in ground (arith, l, n)

  first_facts-length : (n : ℕ) (ts : List Transaction) → length (first_facts n ts) ≤ n
  unfolding first_facts
  first_facts-length zero ts = omega arith
  first_facts-length (suc n) [] = omega arith
  first_facts-length (suc n) (t ∷ ts) = omega (arith, first_facts-length n ts)

  limit_bound : (input : HistoryInput) → bad_history input ≡ false → pos_part (limit_of input) ≤ 100
  unfolding bad_history
  limit_bound input h = ground arith

  page_of-length :
      (n : ℕ) (facts : List Transaction) (h : History D)
      → page_of n facts ≡ ok h
      → length h.records ≤ n
  unfolding page_of
  page_of-length n facts h e =
      let (rs, made, k) =
        >>=-eq-ok (attach (first_facts n facts))
          (λ records. ok (record { records = records; next = next_position n facts })) e in
      let same = attach-length (first_facts n facts) rs made in
      let bound = first_facts-length n facts in ground (arith, k, same, bound)

  -- A page of the history that List returns answers a valid request, and has at most the limit of
  -- the request, and at most 100 records.
  pub list_history-length :
      (input : HistoryInput) (h : History D)
      → list_history input ≡ ok h
      → (bad_history input ≡ false)
        × (length h.records ≤ pos_part (limit_of input))
        × (length h.records ≤ 100)
  unfolding list_history
  list_history-length input h e =
      let (valid, facts, page) =
        passed owned (bad_history input) (query (record input { limit = limit_of input +ℤ pos 1 }))
          (page_of (pos_part (limit_of input))) h e in
      let short = page_of-length (pos_part (limit_of input)) facts h page in
      (valid, short, omega (arith, short, limit_bound input valid))
