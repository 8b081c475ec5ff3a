-- ===== src/Transaction/Replay/Sorting.antt =====
-- The order of the replay in backend/internal/transaction/domain/replay.go: the stream that is
-- replayed is the only one that `sort.Slice` may leave of facts with different identifiers.
use ai_portfolio_research_as.Prelude.{
  ◌≡◌, ◌≢◌, ◌<◌, ◌⊎◌, ◌↔◌, inl, inr, refl, sym, ap, ◌∙◌, arith, true, false, List, [], ◌∷◌,
  Bool-cases, All,
}
use mathlib.Core.Path.{subst}
use mathlib.Core.List.{Permᴰ}
use mathlib.Core.List.Permᴰ
use ai_portfolio_research_as.Prelude.Int.{◌<ℤ◌}
use ai_portfolio_research_as.Transaction.Fact.{Transaction}
use ai_portfolio_research_as.Transaction.Replay.{precedes, insert_fact, sort_facts}

-- The order of two facts: by effective time, then by sequence, then by identifier.
abbrev pub IsBefore : Transaction → Transaction → Type 0
IsBefore a b =
    (a.state.effective_at < b.state.effective_at)
    ⊎ ((a.state.effective_at ≡ b.state.effective_at)
        × ((a.state.portfolio_sequence <ℤ b.state.portfolio_sequence)
            ⊎ ((a.state.portfolio_sequence ≡ b.state.portfolio_sequence)
                × (a.state.id < b.state.id))))

-- Each fact stands before all that follow it.
abbrev pub IsSorted : List Transaction → Type 0
IsSorted [] = Unit
IsSorted (t ∷ ts) = All (IsBefore t) ts × IsSorted ts

abbrev pub HasDistinctIds : List Transaction → Type 0
HasDistinctIds [] = Unit
HasDistinctIds (t ∷ ts) = All (λ u. t.state.id ≢ u.state.id) ts × HasDistinctIds ts

IsBefore-asymm : (a b : Transaction) → IsBefore a b → IsBefore b a → ⊥
IsBefore-asymm a b h k = ground arith

IsBefore-trans : (a b c : Transaction) → IsBefore a b → IsBefore b c → IsBefore a c
IsBefore-trans a b c h k = ground arith

precedes-IsBefore : (a b : Transaction) → precedes a b ≡ true → IsBefore a b
unfolding precedes
precedes-IsBefore a b h = ground arith

follows-IsBefore :
    (a b : Transaction) → a.state.id ≢ b.state.id → precedes b a ≡ false → IsBefore a b
unfolding precedes
follows-IsBefore a b n h = ground arith

module _ {ℓ} (P : Transaction → Type ℓ) where
  insert_fact-All :
      (t : Transaction) (ts : List Transaction) → P t → All P ts → All P (insert_fact t ts)
  unfolding insert_fact
  insert_fact-All t [] h hs = (h, tt)
  insert_fact-All t (u ∷ us) h hs = elim (Bool-cases (precedes u t)) [
    | inl e ↦ rw e (hs.0, insert_fact-All t us h hs.1)
    | inr e ↦ rw e (h, hs)
  ]

  pub sort_facts-All : (ts : List Transaction) → All P ts → All P (sort_facts ts)
  unfolding sort_facts
  sort_facts-All [] h = tt
  sort_facts-All (t ∷ ts) h = insert_fact-All t (sort_facts ts) h.0 (sort_facts-All ts h.1)

IsBefore-All :
    (t u : Transaction) (us : List Transaction)
    → IsBefore t u
    → All (IsBefore u) us
    → All (IsBefore t) us
IsBefore-All t u [] h hs = tt
IsBefore-All t u (v ∷ us) h hs = (IsBefore-trans t u v h hs.0, IsBefore-All t u us h hs.1)

insert_fact-IsSorted :
    (t : Transaction) (ts : List Transaction)
    → All (λ u. t.state.id ≢ u.state.id) ts
    → IsSorted ts
    → IsSorted (insert_fact t ts)
unfolding insert_fact
insert_fact-IsSorted t [] n h = (tt, tt)
insert_fact-IsSorted t (u ∷ us) n (hu, hus) = elim (Bool-cases (precedes u t)) [
  | inl e ↦ rw e (
    insert_fact-All (IsBefore u) t us (precedes-IsBefore u t e) hu,
    insert_fact-IsSorted t us n.1 hus,
  )
  | inr e ↦
      let first = follows-IsBefore t u n.0 e in
      rw e ((first, IsBefore-All t u us first hu), (hu, hus))
]

sort_facts-IsSorted : (ts : List Transaction) → HasDistinctIds ts → IsSorted (sort_facts ts)
unfolding sort_facts
sort_facts-IsSorted [] d = tt
sort_facts-IsSorted (t ∷ ts) d =
    insert_fact-IsSorted t (sort_facts ts) (sort_facts-All (λ u. t.state.id ≢ u.state.id) ts d.0)
      (sort_facts-IsSorted ts d.1)

insert_fact-perm : (t : Transaction) (ts : List Transaction) → Permᴰ (insert_fact t ts) (t ∷ ts)
unfolding insert_fact
insert_fact-perm t [] = Permᴰ.refl (t ∷ [])
insert_fact-perm t (u ∷ us) = elim (Bool-cases (precedes u t)) [
  | inl e ↦ rw e (Permᴰ.trans (Permᴰ.cons refl (insert_fact-perm t us)) (Permᴰ.swap refl refl))
  | inr e ↦ rw e (Permᴰ.refl (t ∷ u ∷ us))
]

sort_facts-perm : (ts : List Transaction) → Permᴰ (sort_facts ts) ts
unfolding sort_facts
sort_facts-perm [] = Permᴰ.nil
sort_facts-perm (t ∷ ts) =
    Permᴰ.trans (insert_fact-perm t (sort_facts ts)) (Permᴰ.cons refl (sort_facts-perm ts))

-- the members of a list
abbrev In : Transaction → List Transaction → Type 0
In t [] = ⊥
In t (u ∷ us) = (t ≡ u) ⊎ In t us

Permᴰ-In : {us vs : List Transaction} (t : Transaction) → Permᴰ us vs → In t us → In t vs
Permᴰ-In t Permᴰ.nil h = h
Permᴰ-In t (Permᴰ.cons e p) (inl h) = inl (h ∙ e)
Permᴰ-In t (Permᴰ.cons e p) (inr h) = inr (Permᴰ-In t p h)
Permᴰ-In t (Permᴰ.swap e f) (inl h) = inr (inl (h ∙ e))
Permᴰ-In t (Permᴰ.swap e f) (inr (inl h)) = inl (h ∙ f)
Permᴰ-In t (Permᴰ.swap e f) (inr (inr h)) = inr (inr h)
Permᴰ-In t (Permᴰ.trans p q) h = Permᴰ-In t q (Permᴰ-In t p h)

All-In :
    (P : Transaction → Type 0) (t : Transaction) (us : List Transaction) → All P us → In t us → P t
All-In P t [] h m = elim m [ ]
All-In P t (u ∷ us) h (inl e) = subst P (sym e) h.0
All-In P t (u ∷ us) h (inr m) = All-In P t us h.1 m

-- the members behind the first one of a sorted list
behind_first :
    (u v t : Transaction) (us vs : List Transaction)
    → IsSorted (u ∷ us)
    → u ≡ v
    → ((x : Transaction) → In x (u ∷ us) → In x (v ∷ vs))
    → In t us
    → In t vs
behind_first u v t us vs h e sub m = elim (sub t (inr m)) [
  | inl same ↦
      let later = All-In (IsBefore u) t us h.0 m in
      let itself = subst (IsBefore u) (same ∙ sym e) later in
      absurd (IsBefore-asymm u u itself itself)
  | inr more ↦ more
]

same_first :
    (u v : Transaction) (us vs : List Transaction)
    → IsSorted (u ∷ us)
    → IsSorted (v ∷ vs)
    → In u (v ∷ vs)
    → In v (u ∷ us)
    → u ≡ v
same_first u v us vs h k (inl e) m = e
same_first u v us vs h k (inr n) (inl e) = sym e
same_first u v us vs h k (inr n) (inr m) =
    absurd (IsBefore-asymm u v (All-In (IsBefore u) v us h.0 m) (All-In (IsBefore v) u vs k.0 n))

-- Two sorted lists with the same members are equal.
sorted_unique :
    (us vs : List Transaction)
    → IsSorted us
    → IsSorted vs
    → ((x : Transaction) → In x us → In x vs)
    → ((x : Transaction) → In x vs → In x us)
    → us ≡ vs
sorted_unique [] [] h k f g = refl
sorted_unique [] (v ∷ vs) h k f g = absurd (g v (inl refl))
sorted_unique (u ∷ us) [] h k f g = absurd (f u (inl refl))
sorted_unique (u ∷ us) (v ∷ vs) h k f g =
    let e = same_first u v us vs h k (f u (inl refl)) (g v (inl refl)) in
    let rest =
      sorted_unique us vs h.1 k.1 (λ x. behind_first u v x us vs h e f)
        (λ x. behind_first v u x vs us k (sym e) g) in
    ap (λ (t : Transaction). t ∷ us) e ∙ ap (λ (ts : List Transaction). v ∷ ts) rest

-- Of facts with different identifiers, the stream that is replayed is the one list with these
-- facts in which each stands before all that follow it, by effective time, then by sequence, then
-- by identifier: every sorting by the comparison of the code yields it.
pub sort_facts_iff :
    (ts us : List Transaction)
    → HasDistinctIds ts
    → (us ≡ sort_facts ts) ↔ (Permᴰ us ts × IsSorted us)
sort_facts_iff ts us d =
    let sorted = sort_facts-IsSorted ts d in
    let perm = sort_facts-perm ts in
    (
      λ e. (
        subst (λ (l : List Transaction). Permᴰ l ts) (sym e) perm,
        subst IsSorted (sym e) sorted,
      ),
      λ h.
          sorted_unique us (sort_facts ts) h.1 sorted
            (λ x m. Permᴰ-In x (Permᴰ.symm perm) (Permᴰ-In x h.0 m))
            (λ x m. Permᴰ-In x (Permᴰ.symm h.0) (Permᴰ-In x perm m)),
    )
