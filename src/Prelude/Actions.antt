-- ===== src/Prelude/Actions.antt =====
-- Methods that change a store and may return an error. The store comes back beside an error too.
use mathlib.Core.Path.{◌≡◌, refl, ap}
use ai_portfolio_research_as.Prelude.Results.{Result, ok, err}

abbrev pub Action : Type 0 → Type 0 → Type 0 → Type 0
Action S E A = S → Result E A × S

module _ {S E A : Type 0} where
  abbrev pub pure : A → Action S E A
  pure value s = (ok value, s)

  abbrev pub lift : Result E A → Action S E A
  lift r s = (r, s)

  -- a call that only reads
  abbrev pub reads : (S → Result E A) → Action S E A
  reads f s = (f s, s)

-- an error of a callee, as the caller returns it
abbrev pub rename_error : {E F A : Type 0} → (F → E) → Result F A → Result E A
rename_error name (ok value) = ok value
rename_error name (err code) = err (name code)

module _ {S E A B : Type 0} where
  abbrev pub next : (A → Action S E B) → Result E A → Action S E B
  next rest (err code) s = (err code, s)
  next rest (ok value) s = rest value s

  infixl 5 ◌>>=◌
  unfoldable pub ◌>>=◌ : Action S E A → (A → Action S E B) → Action S E B
  ◌>>=◌ first rest s = let (r, s') = first s in next rest r s'

infixl 5 ◌>>◌
abbrev pub ◌>>◌ : {S E B : Type 0} → Action S E (Unit {0}) → Action S E B → Action S E B
first >> rest = first >>= λ _. rest

-- From a store with `P`, a successful run leaves a result and a store with `Q`.
abbrev pub Ensures : {S E A : Type 0} → (S → Type 0) → Action S E A → (A → S → Type 0) → Type 0
Ensures {S} {E} {A} P m Q = (s s' : S) (a : A) → P s → m s ≡ (ok a, s') → Q a s'

module _ {S E A B : Type 0} where
  next-eq-ok :
      (r : Result E A) (rest : A → Action S E B) (s s' : S) (b : B)
      → next rest r s ≡ (ok b, s')
      → (a : A) × (r ≡ ok a) × (rest a s ≡ (ok b, s'))
  next-eq-ok (err code) rest s s' b h = cc
  next-eq-ok (ok value) rest s s' b h = (value, refl, h)

  -- Inversion of a successful chain.
  pub bind-eq-ok :
      (m : Action S E A) (f : A → Action S E B) (s s' : S) (b : B)
      → (m >>= f) s ≡ (ok b, s')
      → (a : A) × (t : S) × (m s ≡ (ok a, t)) × (f a t ≡ (ok b, s'))
  unfolding ◌>>=◌
  bind-eq-ok m f s s' b h =
      let (a, e, k) = next-eq-ok (m s).0 f (m s).1 s' b h in (a, (m s).1, λ i. (e i, (m s).1), k)

  pub Ensures-bind :
      {P : S → Type 0} {Q : A → S → Type 0} {R : B → S → Type 0} (m : Action S E A)
      (f : A → Action S E B)
      → Ensures P m Q
      → ((a : A) → Ensures (Q a) (f a) R)
      → Ensures P (m >>= f) R
  Ensures-bind m f hm hf s s' b p h =
      let (a, t, e, k) = bind-eq-ok m f s s' b h in hf a t s' b (hm s t a p e) k

-- What a step that cannot fail half way has returned.
module _ {S E A : Type 0} where
  pub lift-eq-ok : (r : Result E A) (s t : S) (a : A) → lift r s ≡ (ok a, t) → (r ≡ ok a) × (s ≡ t)
  lift-eq-ok r s t a h = (ap (λ (x : Result E A × S). x.0) h, ap (λ (x : Result E A × S). x.1) h)

  pub pure-eq-ok :
      (b : A) (s t : S) (a : A) → pure {S = S} {E = E} b s ≡ (ok a, t) → (b ≡ a) × (s ≡ t)
  pure-eq-ok b s t a h = (cc, cc)

pub rename-eq-ok :
    {E F A : Type 0} (name : F → E) (r : Result F A) (a : A) → rename_error name r ≡ ok a → r ≡ ok a
rename-eq-ok name (ok b) a h = cc
rename-eq-ok name (err e) a h = cc
