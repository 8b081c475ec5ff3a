-- ===== src/Platform/Delivery/Backoff.antt =====
-- `retryCap` of backend/internal/platform/worker/delivery.go.
use native.Mathlib.Nat.{pow-suc, mul-one, mul_assoc, add-mul, le-mul_of_pos_right}
use ai_portfolio_research_as.Prelude.{
  ◌≡◌, ◌≤◌, arith, ℕ, zero, suc, ◌+◌, ◌-◌, ◌*◌, ◌^◌, leb, if◌then◌else◌, ◌∙◌, ap,
}
use ai_portfolio_research_as.Prelude.Int.{pos, ◌+ℤ◌}
use ai_portfolio_research_as.Platform.Delivery.{
  DeliveryConfig, max_int64, double, half, retry_loop, retry_cap,
}

abbrev pub min : ℕ → ℕ → ℕ
min a b = if leb a b then a else b

-- The base delay, doubled `k` times, and never more than the maximum.
unfoldable pub capped : ℕ → ℕ → ℕ → ℕ
capped max zero c = min c max
capped max (suc k) c = capped max k (c + c)

double-small : (c : ℕ) → c + c ≤ max_int64 → double (pos c) ≡ pos (c + c)
unfolding double ◌+ℤ◌
double-small c h = ground arith

capped_top : (max k c : ℕ) → max ≤ c → capped max k c ≡ max
unfolding capped
capped_top max zero c h = ground arith
capped_top max (suc k) c h = capped_top max k (c + c) (omega arith)

pub retry_loop-capped :
    (max k c : ℕ)
    → c ≤ max
    → max ≤ max_int64
    → retry_loop (pos max) k (pos c) ≡ pos (capped max k c)
unfolding retry_loop capped half
retry_loop-capped max zero c h m = ground arith
retry_loop-capped max (suc k) c h m = ground (
  arith,
  capped_top max (suc k) c,
  capped_top max k (c + c),
  double-small c,
  retry_loop-capped max k (c + c),
)

doubled : (c k : ℕ) → c * 2 ^ suc k ≡ (c + c) * 2 ^ k
doubled c k =
    ap (λ (n : ℕ). c * n) (pow-suc 2 k) ∙ omega (arith, mul_assoc c (2 ^ k) 2, add-mul c c (2 ^ k))

two_pow : (k : ℕ) → 1 ≤ 2 ^ k
two_pow zero = omega arith
two_pow (suc k) = omega (arith, two_pow k, pow-suc 2 k)

grows : (c k : ℕ) → c ≤ c * 2 ^ k
grows c k = le-mul_of_pos_right c (two_pow k)

capped-min : (max k c : ℕ) → capped max k c ≡ min (c * 2 ^ k) max
unfolding capped
capped-min max zero c = ground (arith, mul-one c)
capped-min max (suc k) c =
    ground (arith, capped-min max k (c + c), doubled c k, grows (c + c) k, capped_top max k (c + c))

suc_minus : (k : ℕ) → suc k - 1 ≡ k
suc_minus k = omega arith

-- With a base delay of at most the maximum, which fits an int64, the bound on the delay after k
-- retries is the base delay times 2^k or the maximum, whichever is less.
pub retry_cap-min :
    (config : DeliveryConfig) (base max k : ℕ)
    → config.retry_base_delay ≡ pos base
    → config.retry_max_delay ≡ pos max
    → base ≤ max
    → max ≤ max_int64
    → retry_cap config (pos (suc k)) ≡ pos (min (base * 2 ^ k) max)
unfolding retry_cap
retry_cap-min config base max k b m h top =
    rw (suc_minus k)
      (rw b (rw m (retry_loop-capped max k base h top ∙ ap pos (capped-min max k base))))
