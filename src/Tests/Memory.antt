-- ===== src/Tests/Memory.antt =====
-- A store in memory that keeps what the ports of backend/internal/transaction/application/ports.go
-- promise.
use mathlib.Core.List.{Perm}
use mathlib.Core.List.Perm
use mathlib.Core.Path.{subst}
use ai_portfolio_research_as.Text.Equality.{equal→eq}
use ai_portfolio_research_as.Prelude.{
  ◌≡◌, refl, sym, ap, arith, ℕ, ◌+◌, Bool, Bool-cases, inl, inr, true, false, not, ◌&&◌, ◌||◌, List,
  [], ◌∷◌, ◌++◌, Option, none, some, Result, ok, err, ◌>>=◌, >>=-eq-ok, ◌==◌, if◌then◌else◌, All,
}
use ai_portfolio_research_as.Prelude.Int.{ℤ, pos}
use ai_portfolio_research_as.Prelude.Time.{Instant, zero_time}
use ai_portfolio_research_as.Text.{Bytes, codes, equal}
use ai_portfolio_research_as.Asset.{Asset, equity}
use ai_portfolio_research_as.Portfolio.Record.{Portfolio, active}
use ai_portfolio_research_as.Tests.Data.{monday}
use ai_portfolio_research_as.Transaction.Value.{Uuid, currency_usd}
use ai_portfolio_research_as.Transaction.Decimal.{Decimal, scaled, is_valid, decimal_from_scaled}
use ai_portfolio_research_as.Transaction.Decimal.Arithmetic.{
  IsCanonical, decimal_from_scaled-IsCanonical,
}
use ai_portfolio_research_as.Transaction.Fact.{Transaction}
use ai_portfolio_research_as.Transaction.Replay.{key_of, same_key, has_id, ids_of}
use ai_portfolio_research_as.Transaction.Replay.Positions.{HasQuantity}
use ai_portfolio_research_as.Transaction.Service.{ServiceError, transaction_not_found, persistence}
use ai_portfolio_research_as.Transaction.Service.Repeated.{Keys, IsKeyStore}
use ai_portfolio_research_as.Transaction.Service.Ports.{
  Ports, Rows, IsLawful, with_row, Idempotency,
}

pub record Memory : Type 0 where
  pub facts : List Transaction
  pub clock : Instant
  pub next : ℕ
  pub keys : List (Bytes × Idempotency)

-- the facts of an asset of a portfolio
unfoldable pub rows_of : Uuid → Uuid → List Transaction → List Transaction
rows_of p a [] = []
rows_of p a (t ∷ ts) =
    let rest = rows_of p a ts in
    if t.state.has_asset && same_key (p, a) (key_of t) then t ∷ rest else rest

-- the fact of a portfolio that has an identifier
unfoldable pub find_stored : Uuid → Uuid → List Transaction → Result ServiceError Transaction
find_stored p id [] = err transaction_not_found
find_stored p id (t ∷ ts) =
    let rest = find_stored p id ts in
    if id == t.state.id && p == t.state.portfolio_id then ok t else rest

-- A quantity is read as the number that it stands for.
unfoldable pub reads_back : Option ℤ → Decimal → Bool
reads_back none d = false
reads_back (some n) d = equal d.canonical (decimal_from_scaled n).canonical

unfoldable pub is_readable : Decimal → Bool
is_readable d = not (is_valid d) || reads_back (scaled d) d

unfoldable pub readable_rows : List Transaction → Result ServiceError (List Transaction)
readable_rows [] = ok []
readable_rows (t ∷ ts) =
    let rest = readable_rows ts >>= λ us. ok (t ∷ us) in
    if is_readable t.state.quantity then rest else err persistence

decimal_ext : (d e : Decimal) → d.canonical ≡ e.canonical → d ≡ e
decimal_ext d e h = cc

ok-injective : {A : Type 0} {a b : A} → ◌≡◌ {A = Result ServiceError A} (ok a) (ok b) → a ≡ b
ok-injective h = cc

reads_back-IsCanonical : (n : Option ℤ) (d : Decimal) → reads_back n d ≡ true → IsCanonical d
unfolding reads_back
reads_back-IsCanonical none d h = cc
reads_back-IsCanonical (some n) d h =
    subst IsCanonical
      (sym (
        decimal_ext d (decimal_from_scaled n)
          (equal→eq d.canonical (decimal_from_scaled n).canonical h)))
      (decimal_from_scaled-IsCanonical n)

is_readable-IsCanonical : (d : Decimal) → is_readable d ≡ true → is_valid d ≡ true → IsCanonical d
unfolding is_readable
is_readable-IsCanonical d h v = reads_back-IsCanonical (scaled d) d (ground (arith, v))

readable_rows-lem :
    (ts us : List Transaction) → readable_rows ts ≡ ok us → (ts ≡ us) × All HasQuantity ts
unfolding readable_rows
readable_rows-lem [] us h = (cc, tt)
readable_rows-lem (t ∷ ts) us h = elim (Bool-cases (is_readable t.state.quantity)) [
  | inl b ↦
      let (vs, e, k) = >>=-eq-ok (readable_rows ts) (λ vs. ok (t ∷ vs)) (rw b at h) in
      let (same, quantities) = readable_rows-lem ts vs e in
      (rw same (ok-injective k), (is_readable-IsCanonical t.state.quantity b, quantities))
  | inr b ↦ let wrong = rw b at h in cc
]

rows_of-insert :
    (p a : Uuid) (t : Transaction) (ts : List Transaction)
    → rows_of p a (ts ++ (t ∷ [])) ≡ with_row t p a (rows_of p a ts)
unfolding rows_of
rows_of-insert p a t [] = ground arith
rows_of-insert p a t (u ∷ us) = ground (arith, rows_of-insert p a t us)

find_stored-found :
    (p id : Uuid) (t : Transaction) (ts : List Transaction)
    → find_stored p id ts ≡ ok t
    → (t.state.id ≡ id) × (t.state.portfolio_id ≡ p)
unfolding find_stored
find_stored-found p id t [] h = cc
find_stored-found p id t (u ∷ us) h = ground (arith, find_stored-found p id t us)

find_stored-rows_of :
    (p id : Uuid) (t : Transaction) (ts : List Transaction)
    → find_stored p id ts ≡ ok t
    → t.state.has_asset ≡ true
    → has_id id (ids_of (rows_of p t.state.asset.id ts)) ≡ true
unfolding find_stored rows_of has_id ids_of
find_stored-rows_of p id t [] h asset = cc
find_stored-rows_of p id t (u ∷ us) h asset = ground (arith, find_stored-rows_of p id t us)

abbrev pub home : Portfolio
home = record {
  id = 1;
  owner_id = 2;
  name = record { value = codes "Home" };
  base_currency = currency_usd;
  status = active;
  archived_at = zero_time;
  has_archived_at = false;
  created_at = monday;
  updated_at = monday;
}

abbrev pub stock : Asset
stock = record {
  id = 7;
  symbol = codes "ACME";
  name = codes "Acme";
  asset_type = equity;
  exchange = codes "NASDAQ";
  currency = currency_usd;
  normalized_symbol = codes "ACME";
  normalized_exchange = codes "NASDAQ";
  created_at = monday;
  updated_at = monday;
}

-- the record of a key
unfoldable pub find_key : Bytes → List (Bytes × Idempotency) → Option Idempotency
find_key k [] = none
find_key k ((j, i) ∷ rest) = let later = find_key k rest in if equal k j then some i else later

abbrev pub memory_ports : Ports Memory
memory_ports = record {
  now = λ s. (s.clock, s);
  new_id = λ s. (ok s.next, record s { next = s.next + 1 });
  digest = λ scope target input. 5;
  get_portfolio = λ principal id s. ok home;
  get_asset = λ principal id s. ok stock;
  lock_key = λ p scope key s. ok tt;
  idempotency = λ p scope key at s. (ok (find_key key s.keys), s);
  complete = λ p scope key digest target result at s. (
    ok tt,
    record s {
      keys =
          (
            key,
            record {
              fingerprint = digest;
              primary_id = result.transaction.state.id;
              correction_id = 0;
            },
          )
          ∷ s.keys;
    },
  );
  allocate = λ p both s. (ok (pos s.next, pos (s.next + 1)), record s { next = s.next + 2 });
  replay = λ p a s. readable_rows (rows_of p a s.facts);
  get = λ p id s. find_stored p id s.facts;
  direct_correction = λ p id s. ok none;
  find_correction = λ p id s. err persistence;
  insert = λ t s. (ok tt, record s { facts = s.facts ++ (t ∷ []) });
  insert_correction = λ c s. (ok tt, s);
  append_audit = λ r s. (ok tt, s);
  append_rejection = λ r s. (ok tt, s);
  append_event = λ e s. (ok tt, s);
  begin = λ s. ok tt;
  commit = λ s. ok tt;
  rollback = λ s s'. record s { next = s'.next };
}

abbrev pub memory_rows : Rows Memory
memory_rows s p a = rows_of p a s.facts

pub memory-IsLawful : IsLawful memory_ports memory_rows
memory-IsLawful = record {
  now-rows = λ s. refl;
  new_id-rows = λ s. refl;
  idempotency-rows = λ p c k at s. refl;
  complete-rows = λ p c k d t r at s. refl;
  allocate-rows = λ p both s. refl;
  insert_correction-rows = λ c s. refl;
  append_audit-rows = λ r s. refl;
  append_rejection-rows = λ r s. refl;
  append_event-rows = λ e s. refl;
  rollback-rows = λ s s'. refl;
  insert-rows = λ t s s' h p a.
      subst (λ (x : Memory). Perm (rows_of p a x.facts) (with_row t p a (rows_of p a s.facts)))
        (ap (λ (x : Result ServiceError (Unit {0}) × Memory). x.1) h)
        (rw (rows_of-insert p a t s.facts) (Perm.refl _));
  replay-rows = λ p a s ts h.
      subst (λ (x : List Transaction). Perm (rows_of p a s.facts) x)
        (readable_rows-lem (rows_of p a s.facts) ts h).0 (Perm.refl _);
  replay-quantities = λ p a s ts h.
      let (same, quantities) = readable_rows-lem (rows_of p a s.facts) ts h in
      subst (All HasQuantity) same quantities;
  get-portfolio = λ p id s t h. find_stored-found p id t s.facts h;
  get-replay = λ p id s t ts h asset read.
      let same = (readable_rows-lem (rows_of p t.state.asset.id s.facts) ts read).0 in
      subst (λ (x : List Transaction). has_id id (ids_of x) ≡ true) same
        (find_stored-rows_of p id t s.facts h asset);
}

abbrev pub memory_keys : Keys Memory
memory_keys s p scope key at = find_key key s.keys

pub memory-IsKeyStore : IsKeyStore memory_ports memory_keys
memory-IsKeyStore = record {
  now-keys = λ s. refl;
  now-get = λ p id s. refl;
  lookup-keys = λ p c k at s s' found h. cc;
  lookup-get = λ p c k at s p' id. refl;
}
