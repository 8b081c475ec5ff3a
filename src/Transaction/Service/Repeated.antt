-- ===== src/Transaction/Service/Repeated.antt =====
-- What a key that was used before does in `execute` of
-- backend/internal/transaction/application/service.go.
use mathlib.Core.Path.{subst}
use ai_portfolio_research_as.Prelude.{
  ◌≡◌, refl, sym, ap, ◌∙◌, arith, ℕ, Bool, not, Option, some, Result, ok, err, fail_if, ◌==◌,
}
use ai_portfolio_research_as.Prelude.Time.{Instant}
use ai_portfolio_research_as.Prelude.Actions.{
  Action, reads, next, ◌>>=◌, bind-eq-ok, lift-eq-ok, pure-eq-ok, rename-eq-ok,
}
use ai_portfolio_research_as.Text.{Bytes}
use ai_portfolio_research_as.Portfolio.Record.{Portfolio}
use ai_portfolio_research_as.Transaction.Value.{Uuid}
use ai_portfolio_research_as.Transaction.Fact.{Transaction}
use ai_portfolio_research_as.Transaction.Service.{
  ServiceError, idempotency_conflict, CommandInput, CommandMetadata, normalize,
}
use ai_portfolio_research_as.Transaction.Service.Ports.{
  Ports, Recorded, Idempotency, Scope, Rows, IsLawful,
}
use ai_portfolio_research_as.Transaction.Service.Evidence.{service_now, truncate}
use ai_portfolio_research_as.Transaction.Service.Guards.{scope_of}
use ai_portfolio_research_as.Transaction.Service.Execute.{
  execute, execute_within, replay_result, replay_or_record,
}
use ai_portfolio_research_as.Transaction.Service.Atomicity.{execute-ok, execute-atomic}
use ai_portfolio_research_as.Transaction.Service.Keeps.{replay_result-Keeps}

-- The completed keys that have not expired at an instant.
abbrev pub Keys : Type 0 → Type 0
Keys S = S → Uuid → Scope → Bytes → Instant → Option Idempotency

-- What the service relies on of the table of keys: a look-up answers the unexpired key, and may
-- delete an expired one; it leaves the facts that can be read, as does a reading of the clock.
pub record IsKeyStore {S : Type 0} (ports : Ports S) (keys : Keys S) : Type 0 where
  pub now-keys : (s : S) → keys (ports.now s).1 ≡ keys s
  pub now-get : (p id : Uuid) (s : S) → ports.get p id (ports.now s).1 ≡ ports.get p id s
  pub lookup-keys :
      (p : Uuid) (c : Scope) (k : Bytes) (at : Instant) (s s' : S) (found : Option Idempotency)
      → ports.idempotency p c k at s ≡ (ok found, s')
      → found ≡ keys s p c k at
  pub lookup-get :
      (p : Uuid) (c : Scope) (k : Bytes) (at : Instant) (s : S) (p' id : Uuid)
      → ports.get p' id (ports.idempotency p c k at s).1 ≡ ports.get p' id s

module _ {S E A B : Type 0} where
  next_then :
      (f : A → Action S E B) (out : Result E A) (s s' : S) (b : B)
      → next f out s ≡ (ok b, s')
      → (a : A) × (out ≡ ok a) × (f a s ≡ (ok b, s'))
  next_then f (ok a) s s' b h = (a, refl, h)
  next_then f (err e) s s' b h = cc

  -- a chain that succeeds and whose first step only reads
  reads_then :
      (read : S → Result E A) (f : A → Action S E B) (s s' : S) (b : B)
      → (reads read >>= f) s ≡ (ok b, s')
      → (a : A) × (read s ≡ ok a) × (f a s ≡ (ok b, s'))
  unfolding ◌>>=◌
  reads_then read f s s' b h = next_then f (read s) s s' b h

same_digest :
    (digest : ℕ) (previous : Idempotency)
    → fail_if {E = ServiceError} (not (previous.fingerprint == digest)) idempotency_conflict ≡ ok tt
    → previous.fingerprint ≡ digest
same_digest digest previous h = ground arith

module _ {S : Type 0} (ports : Ports S) where
  -- the readings of the clock at the beginning of a call, and at its look-up of the key
  abbrev pub first_reading : S → Instant
  first_reading s = truncate (ports.now s).0

  abbrev pub lookup_reading : S → Instant
  lookup_reading s = first_reading (ports.now s).1

  now_then :
      {B : Type 0} (f : Instant → Action S ServiceError B) (s s' : S) (b : B)
      → (service_now ports >>= f) s ≡ (ok b, s')
      → f (first_reading s) (ports.now s).1 ≡ (ok b, s')
  unfolding service_now ◌>>=◌
  now_then f s s' b h = h

module _ {S : Type 0} (ports : Ports S) (principal portfolio_id : Uuid) where
  replayed :
      (correlation : Bytes) (digest : ℕ) (previous : Idempotency) (s s' : S) (r : Recorded)
      → replay_result ports principal portfolio_id correlation digest previous s ≡ (ok r, s')
      → (previous.fingerprint ≡ digest)
        × (ports.get portfolio_id previous.primary_id s ≡ ok r.transaction)
  unfolding replay_result
  replayed correlation digest previous s s' r h =
      let (_, s1, e1, h1) = bind-eq-ok _ _ _ _ _ h in
      let (same, k1) = lift-eq-ok _ s s1 tt e1 in
      let (fact, s2, e2, h2) = bind-eq-ok _ _ _ _ _ h1 in
      let (read, k2) = lift-eq-ok _ s1 s2 fact e2 in
      let (facts, s3, e3, h3) = bind-eq-ok _ _ _ _ _ h2 in
      let (_, s4, e4, h4) = bind-eq-ok _ _ _ _ _ h3 in
      let (result, _) = pure-eq-ok _ s4 s' r h4 in
      (
        same_digest digest previous same,
        subst (λ (x : S). ports.get portfolio_id previous.primary_id x ≡ ok r.transaction) (sym k1)
            (read ∙ ap (λ (x : Recorded). ok x.transaction) result),
      )

  module _ (target : Uuid) (input : CommandInput) (metadata : CommandMetadata)
      (correction : Bool) where
    -- What a call that found its key has answered: a command with the fingerprint that is stored
    -- for the key, and the fact that is stored for it.
    abbrev pub Replays : Idempotency → S → Recorded → Type 0
    Replays previous s r =
        (normalized : CommandInput) × (normalize input (first_reading ports s) ≡ ok normalized)
        × (previous.fingerprint ≡ ports.digest (scope_of correction) target normalized)
        × (ports.get portfolio_id previous.primary_id s ≡ ok r.transaction)

    -- the look-up of a call whose body succeeds, and what follows it
    looked_up :
        (s s' : S) (r : Recorded)
        → execute_within ports principal portfolio_id target input metadata correction s
          ≡ (ok r, s')
        → (p : Portfolio) × (normalized : CommandInput) × (found : Option Idempotency) × (t : S)
          × (normalize input (first_reading ports s) ≡ ok normalized)
          × (ports.idempotency portfolio_id
                (scope_of correction)
                metadata.idempotency_key
                (lookup_reading ports s)
                (ports.now (ports.now s).1).1
              ≡ (ok found, t))
          × (replay_or_record ports principal p portfolio_id target normalized metadata correction
                (ports.digest (scope_of correction) target normalized)
                (first_reading ports s)
                found
                t
              ≡ (ok r, s'))
    unfolding execute_within
    looked_up s s' r h =
        let (p, _, h1) = reads_then _ _ s s' r h in
        let (_, _, h2) = reads_then (λ _. _) _ s s' r h1 in
        let (_, _, h3) = reads_then (λ _. _) _ s s' r h2 in
        let h4 = now_then ports _ s s' r h3 in
        let (normalized, norm, h5) = reads_then (λ _. _) _ (ports.now s).1 s' r h4 in
        let (_, _, h6) = reads_then _ _ (ports.now s).1 s' r h5 in
        let h7 = now_then ports _ (ports.now s).1 s' r h6 in
        let (found, t, e, h8) = bind-eq-ok _ _ (ports.now (ports.now s).1).1 s' r h7 in
        (p, normalized, found, t, rename-eq-ok _ _ normalized norm, e, h8)

    replayed_within :
        (rows : Rows S) (law : IsLawful ports rows) (keys : Keys S) (store : IsKeyStore ports keys)
        (previous : Idempotency) (s s' : S) (r : Recorded)
        → keys s portfolio_id
            (scope_of correction)
            metadata.idempotency_key
            (lookup_reading ports s)
          ≡ some previous
        → execute_within ports principal portfolio_id target input metadata correction s
          ≡ (ok r, s')
        → (rows s' ≡ rows s) × Replays previous s r
    unfolding replay_or_record
    replayed_within rows law keys store previous s s' r known h =
        let (p, normalized, found, t, norm, e, h1) = looked_up s s' r h in
        let scope = scope_of correction in
        let key = metadata.idempotency_key in
        let at = lookup_reading ports s in
        let now_once = (ports.now s).1 in
        let now_twice = (ports.now now_once).1 in
        let same_keys : keys now_twice ≡ keys s = store.now-keys now_once ∙ store.now-keys s in
        let is_found : found ≡ some previous =
          store.lookup-keys portfolio_id scope key at now_twice t found e
          ∙ ap
              (λ (k : Uuid → Scope → Bytes → Instant → Option Idempotency).
                k portfolio_id scope key at)
              same_keys
          ∙ known in
        let digest = ports.digest scope target normalized in
        let h2 : replay_result ports principal portfolio_id metadata.correlation_id digest previous
              t
            ≡ (ok r, s') =
          rw is_found at h1 in
        let (same, read) = replayed metadata.correlation_id digest previous t s' r h2 in
        let kept : (ports.idempotency portfolio_id scope key at now_twice).1 ≡ t =
          ap (λ (x : Result ServiceError (Option Idempotency) × S). x.1) e in
        let get : S → Result ServiceError Transaction =
          ports.get portfolio_id previous.primary_id in
        let get_kept : get t ≡ get s =
          ap get (sym kept)
          ∙ store.lookup-get portfolio_id scope key at now_twice portfolio_id previous.primary_id
          ∙ store.now-get portfolio_id previous.primary_id now_once
          ∙ store.now-get portfolio_id previous.primary_id s in
        (
          sym (ap (λ (x : Result ServiceError Recorded × S). rows x.1) h2)
              ∙ replay_result-Keeps ports rows law principal portfolio_id metadata.correlation_id
                  digest previous t
              ∙ ap rows (sym kept)
              ∙ law.idempotency-rows portfolio_id scope key at now_twice
              ∙ law.now-rows now_once
              ∙ law.now-rows s,
          (normalized, norm, same, sym get_kept ∙ read),
        )

    -- Over lawful ports, a call of Create or Correct that finds its key unexpired, at its second
    -- reading of the clock, records no fact, whatever the outcome. If it succeeds, the command, as
    -- it was normalized, has the fingerprint that is stored for the key, and the answer is the
    -- fact that is stored for it.
    pub execute-repeated :
        (rows : Rows S) (law : IsLawful ports rows) (keys : Keys S) (store : IsKeyStore ports keys)
        (previous : Idempotency) (s s' : S) (out : Result ServiceError Recorded)
        → keys s portfolio_id
            (scope_of correction)
            metadata.idempotency_key
            (lookup_reading ports s)
          ≡ some previous
        → execute ports principal portfolio_id target input metadata correction s ≡ (out, s')
        → (rows s' ≡ rows s) × ((r : Recorded) → out ≡ ok r → Replays previous s r)
    execute-repeated rows law keys store previous s s' (err e) known h = (
      execute-atomic ports principal portfolio_id target input metadata correction rows law s s' e
          h,
      λ r same. cc,
    )
    execute-repeated rows law keys store previous s s' (ok r) known h = (
      (replayed_within rows law keys store previous s s' r known
          (execute-ok ports principal portfolio_id target input metadata correction s s' r h)).0,
      λ q same.
          (replayed_within rows law keys store previous s s' q known (
            execute-ok ports principal portfolio_id target input metadata correction s s' q
              (h ∙ ap (λ (x : Result ServiceError Recorded). (x, s')) same))).1,
    )
