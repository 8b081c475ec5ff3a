-- ===== src/Identity/RateLimit/Bounded.antt =====
-- What `Check` of backend/internal/identity/infrastructure/ratelimit/postgres.go does to the number
-- of active events of a key.
use ai_portfolio_research_as.Prelude.{
  ◌≡◌, refl, ◌∙◌, sym, ap, arith, ℕ, ◌+◌, ◌-◌, ◌≤◌, Bool-cases, inl, inr, true, false, Result, ok,
  err, leb,
}
use mathlib.Core.Path.{subst}
use ai_portfolio_research_as.Prelude.Int.{pos}
use ai_portfolio_research_as.Prelude.Time.{Instant}
use ai_portfolio_research_as.Prelude.Actions.{
  lift, bind-eq-ok, lift-eq-ok, pure-eq-ok, rename-eq-ok, rename_error, ◌>>=◌,
}
use ai_portfolio_research_as.Prelude.Transactions.{bracketed, bracketed-ok, bracketed-rolled}
use ai_portfolio_research_as.Text.{Bytes}
use ai_portfolio_research_as.Identity.Service.{RateLimitPolicy, RateLimitResult}
use ai_portfolio_research_as.Identity.RateLimit.{
  StoreError, LimitError, RateLimitKey, EventPorts, limit_of_policy, event_of, check, check_within,
  refuse_attempt, allow_attempt, safely, safe_store_error,
}

-- the number of the events of a key that are active at a time
abbrev pub Active : Type 0 → Type 0
Active S = S → RateLimitPolicy → Bytes → Instant → ℕ

-- What the limiter relies on: expired events do not count, the count is that of the active events, a
-- new event is active when it occurs, and a rollback restores the events.
pub record Counts {S : Type 0} (ports : EventPorts S) (active : Active S) : Type 0 where
  pub delete_expired-active :
      (p : RateLimitPolicy) (k : Bytes) (now : Instant) (s s' : S)
      → ports.delete_expired p k now s ≡ (ok tt, s')
      → active s' p k now ≡ active s p k now
  pub count_active-active :
      (p : RateLimitPolicy) (k : Bytes) (now : Instant) (s : S) (n : ℕ)
      → ports.count_active p k now s ≡ ok n
      → n ≡ active s p k now
  pub insert-active :
      (p : RateLimitPolicy) (k : Bytes) (now : Instant) (s s' : S)
      → ports.insert (event_of p k now) s ≡ (ok tt, s')
      → active s' p k now ≡ active s p k now + 1
  pub rollback-active : (s s' : S) → active (ports.bracket.rollback s s') ≡ active s

-- What a check may decide, by the numbers of active events before and after it.
pub data Decision (limit before after : ℕ) (r : RateLimitResult) : Type 0 where
  let_through :
      r.allowed ≡ true
      → before + 1 ≤ limit
      → after ≡ before + 1
      → r.remaining ≡ pos (limit - after)
      → Decision limit before after r
  held_back : r.allowed ≡ false → limit ≤ before → after ≡ before → Decision limit before after r

Decision-bounded :
    (limit before after : ℕ) (r : RateLimitResult)
    → Decision limit before after r
    → before ≤ limit
    → after ≤ limit
Decision-bounded limit before after r (let_through a room added left) bound = omega arith
Decision-bounded limit before after r (held_back a full same) bound = omega arith

module _ {S : Type 0} (ports : EventPorts S) (active : Active S) (law : Counts ports active)
    (p : RateLimitPolicy) where
  allow_attempt-Decision :
      (k : Bytes) (now : Instant) (count : ℕ) (s s' : S) (r : RateLimitResult)
      → leb (limit_of_policy p) count ≡ false
      → count ≡ active s p k now
      → allow_attempt ports p k now count s ≡ (ok r, s')
      → Decision (limit_of_policy p) (active s p k now) (active s' p k now) r
  unfolding allow_attempt
  allow_attempt-Decision k now count s s' r below counted h =
      let (_, s1, e1, h1) = bind-eq-ok _ _ _ _ _ h in
      let (e, same) = pure-eq-ok _ s1 s' r h1 in
      let added : active s' p k now ≡ active s p k now + 1 =
        ap (λ (x : S). active x p k now) (sym same) ∙ law.insert-active p k now s s1 e1 in
      let_through (ap (λ (x : RateLimitResult). x.allowed) (sym e)) (ground (arith, below, counted))
        added
        (ap (λ (x : RateLimitResult). x.remaining) (sym e) ∙ ap pos (omega (arith, added, counted)))

  refuse_attempt-Decision :
      (k : Bytes) (now : Instant) (s s' : S) (r : RateLimitResult)
      → limit_of_policy p ≤ active s p k now
      → refuse_attempt ports p k now s ≡ (ok r, s')
      → Decision (limit_of_policy p) (active s p k now) (active s' p k now) r
  unfolding refuse_attempt
  refuse_attempt-Decision k now s s' r full h =
      let (earliest, s1, e1, h1) = bind-eq-ok _ _ _ _ _ h in
      let (_, still) = lift-eq-ok _ s s1 earliest e1 in
      let (e, same) = pure-eq-ok _ s1 s' r h1 in
      held_back (ap (λ (x : RateLimitResult). x.allowed) (sym e)) full
        (ap (λ (x : S). active x p k now) (sym (still ∙ same)))

  check_within-Decision :
      (k : Bytes) (now : Instant) (s s' : S) (r : RateLimitResult)
      → check_within ports p k now s ≡ (ok r, s')
      → Decision (limit_of_policy p) (active s p k now) (active s' p k now) r
  unfolding check_within
  check_within-Decision k now s s' r h =
      let (_, s1, e1, h1) = bind-eq-ok _ _ _ _ _ h in
      let (_, s2, e2, h2) = bind-eq-ok _ _ _ _ _ h1 in
      let (count, s3, e3, h3) = bind-eq-ok _ _ _ _ _ h2 in
      let (_, k1) = lift-eq-ok _ s s1 tt e1 in
      let (counted, k3) = lift-eq-ok _ s2 s3 count e3 in
      let before : active s3 p k now ≡ active s p k now =
        ap (λ (x : S). active x p k now) (sym k3)
        ∙ law.delete_expired-active p k now s1 s2 e2
        ∙ ap (λ (x : S). active x p k now) (sym k1) in
      let exact : count ≡ active s3 p k now =
        law.count_active-active p k now s2 count counted ∙ ap (λ (x : S). active x p k now) k3 in
      rw⁻¹ before (elim (Bool-cases (leb (limit_of_policy p) count)) [
        | inl b ↦ refuse_attempt-Decision k now s3 s' r (ground (arith, b, exact)) (rw b at h3)
        | inr b ↦ allow_attempt-Decision k now count s3 s' r b exact (rw b at h3)
      ])

  bracketed-Decision :
      (k : Bytes) (now : Instant) (s s' : S) (r : RateLimitResult)
      → safely (bracketed ports.bracket (check_within ports p k now)) s ≡ (ok r, s')
      → Decision (limit_of_policy p) (active s p k now) (active s' p k now) r
  bracketed-Decision k now s s' r h = check_within-Decision k now s s' r (
      bracketed-ok ports.bracket (check_within ports p k now) s s' r (λ i. (
        rename-eq-ok safe_store_error (bracketed ports.bracket (check_within ports p k now) s).0 r
            (ap (λ (x : Result LimitError RateLimitResult × S). x.0) h) i,
        ap (λ (x : Result LimitError RateLimitResult × S). x.1) h i,
      )))

  -- Over a table that counts its events, a check that returns a result has decided by the number
  -- of active events of the key: below the limit it lets the request through, one event is added
  -- and the rest of the limit reported; at the limit it holds the request back and adds none.
  pub check-Decision :
      (key : RateLimitKey) (now : Instant) (s s' : S) (r : RateLimitResult)
      → check ports p key now s ≡ (ok r, s')
      → Decision (limit_of_policy p) (active s p key.value now) (active s' p key.value now) r
  unfolding check
  check-Decision key now s s' r h =
      let (_, s1, e1, h1) = bind-eq-ok _ _ _ _ _ h in
      let (_, same) = lift-eq-ok _ s s1 tt e1 in
      subst
        (λ (x : S).
          Decision (limit_of_policy p) (active x p key.value now) (active s' p key.value now) r)
        (sym same) (bracketed-Decision key.value now s1 s' r h1)

  safely-rolled :
      (k : Bytes) (now : Instant) (s s' : S) (e : LimitError)
      (out : Result StoreError RateLimitResult × S)
      → bracketed ports.bracket (check_within ports p k now) s ≡ out
      → ◌≡◌ {A = Result LimitError RateLimitResult × S}
          (rename_error safe_store_error out.0, out.1)
          (err e, s')
      → active s' ≡ active s
  safely-rolled k now s s' e (ok r, t) same h = cc
  safely-rolled k now s s' e (err d, t) same h =
      ap active (ap (λ (x : Result LimitError RateLimitResult × S). x.1) (sym h))
      ∙ bracketed-rolled ports.bracket active law.rollback-active (check_within ports p k now) s t d
          same

  guarded-rolled :
      (guard : Result LimitError (Unit {0})) (k : Bytes) (now : Instant) (s s' : S) (e : LimitError)
      → (lift guard >>= λ _. safely (bracketed ports.bracket (check_within ports p k now))) s
        ≡ (err e, s')
      → active s' ≡ active s
  unfolding ◌>>=◌
  guarded-rolled (err d) k now s s' e h =
      ap active (ap (λ (x : Result LimitError RateLimitResult × S). x.1) (sym h))
  guarded-rolled (ok _) k now s s' e h = safely-rolled k now s s' e _ refl h

  -- Over a table that counts its events, whatever Check returns, the number of active events of a
  -- key that was at most the limit of the policy is at most that limit after it.
  pub check-bounded :
      (key : RateLimitKey) (now : Instant) (s s' : S) (out : Result LimitError RateLimitResult)
      → check ports p key now s ≡ (out, s')
      → active s p key.value now ≤ limit_of_policy p
      → active s' p key.value now ≤ limit_of_policy p
  unfolding check
  check-bounded key now s s' (ok r) h bound =
      Decision-bounded (limit_of_policy p) (active s p key.value now) (active s' p key.value now) r
        (check-Decision key now s s' r h) bound
  check-bounded key now s s' (err e) h bound =
      let same = guarded-rolled _ key.value now s s' e h in
      rw (ap (λ (x : RateLimitPolicy → Bytes → Instant → ℕ). x p key.value now) same) bound
