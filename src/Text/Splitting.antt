-- ===== src/Text/Splitting.antt =====
-- What `split` and `trim_right` return.
use ai_portfolio_research_as.Prelude.{
  ◌∙◌, ap, ℕ, zero, suc, ◌≡◌, ◌≢◌, refl, List, [], ◌∷◌, ◌++◌, arith, ◌==◌, Bool-cases, ==_iff,
  replicate, All, inl, inr,
}
use ai_portfolio_research_as.Text.{Bytes, split, push, trim_right, keep}
use ai_portfolio_research_as.Text.Digits.{IsDigit}

-- A text that is not split has no separator.
abbrev pub Lacks : ℕ → Bytes → Type 0
Lacks sep = All (λ c. c ≢ sep)

pub digits-Lacks : (s : Bytes) → All IsDigit s → Lacks b'.' s
digits-Lacks [] h = tt
digits-Lacks (c ∷ s) h = (omega arith, digits-Lacks s h.1)

pub split-Lacks : (sep : ℕ) (s : Bytes) → Lacks sep s → split s sep ≡ s ∷ []
unfolding split
split-Lacks sep [] h = refl
split-Lacks sep (c ∷ s) h = ground (arith, split-Lacks sep s h.1)

pub split-append :
    (sep : ℕ) (s t : Bytes) → Lacks sep s → split (s ++ sep ∷ t) sep ≡ s ∷ split t sep
unfolding split
split-append sep [] t h = ground arith
split-append sep (c ∷ s) t h = ground (arith, split-append sep s t h.1)

-- Texts with the separator between them.
abbrev pub joined : ℕ → List Bytes → Bytes
joined sep [] = []
joined sep (p ∷ []) = p
joined sep (p ∷ q ∷ ps) = p ++ sep ∷ joined sep (q ∷ ps)

joined-push : (sep c : ℕ) (ps : List Bytes) → joined sep (push c ps) ≡ c ∷ joined sep ps
joined-push sep c [] = refl
joined-push sep c (p ∷ []) = refl
joined-push sep c (p ∷ q ∷ ps) = refl

split-ne-nil : (sep : ℕ) (s : Bytes) → split s sep ≢ []
unfolding split
split-ne-nil sep [] = λ h. cc
split-ne-nil sep (c ∷ s) = ground (arith, split-ne-nil sep s)

joined-nil : (sep : ℕ) (ps : List Bytes) → ps ≢ [] → joined sep ([] ∷ ps) ≡ sep ∷ joined sep ps
joined-nil sep [] h = absurd (h refl)
joined-nil sep (p ∷ ps) h = refl

pub joined-split : (sep : ℕ) (s : Bytes) → joined sep (split s sep) ≡ s
unfolding split
joined-split sep [] = refl
joined-split sep (c ∷ s) = ground (
  arith,
  joined-split sep s,
  joined-nil sep (split s sep) (split-ne-nil sep s),
  joined-push sep c (split s sep),
)

keep-append :
    (cut c : ℕ) (t : Bytes) (k : ℕ)
    → (j : ℕ) × (c ∷ (t ++ replicate k cut) ≡ keep cut c t ++ replicate j cut)
keep-append cut c [] k = elim (Bool-cases (c == cut)) [
  | inl e ↦ (suc k, rw e (ap (λ (x : ℕ). x ∷ replicate k cut) ((==_iff c cut).0 e)))
  | inr n ↦ (k, rw n)
]
keep-append cut c (d ∷ t) k = (k, refl)

keep-tail : (cut c : ℕ) (t s : Bytes) → keep cut c t ≡ c ∷ s → t ≡ s
keep-tail cut c [] s h = ground arith
keep-tail cut c (d ∷ t) s h = ground arith

keep-All : (cut c : ℕ) (t : Bytes) → IsDigit c → All IsDigit t → All IsDigit (keep cut c t)
keep-All cut c [] d h = ground arith
keep-All cut c (e ∷ t) d h = (d, h)

-- What `trim_right` cuts off is a run of the byte.
pub trimmed : (cut : ℕ) (s : Bytes) → (k : ℕ) × (s ≡ trim_right s cut ++ replicate k cut)
unfolding trim_right
trimmed cut [] = (0, refl)
trimmed cut (c ∷ s) =
    let (k, e) = trimmed cut s in
    let (j, e') = keep-append cut c (trim_right s cut) k in (j, ap (λ (r : Bytes). c ∷ r) e ∙ e')

pub trim_right-trim_right :
    (cut : ℕ) (s : Bytes) → trim_right (trim_right s cut) cut ≡ trim_right s cut
unfolding trim_right
trim_right-trim_right cut [] = refl
trim_right-trim_right cut (c ∷ s) = ground (arith, trim_right-trim_right cut s)

-- A run of the byte is cut off whole.
pub trim_right-append :
    (cut : ℕ) (s : Bytes) (k : ℕ) → trim_right s cut ≡ s → trim_right (s ++ replicate k cut) cut ≡ s
unfolding trim_right
trim_right-append cut [] zero h = refl
trim_right-append cut [] (suc k) h = ground (arith, trim_right-append cut [] k h)
trim_right-append cut (c ∷ s) k h =
    let t : trim_right s cut ≡ s = keep-tail cut c (trim_right s cut) s h in
    ground (arith, trim_right-append cut s k t)

pub trim_right-All : (cut : ℕ) (s : Bytes) → All IsDigit s → All IsDigit (trim_right s cut)
unfolding trim_right
trim_right-All cut [] h = tt
trim_right-All cut (c ∷ s) h = keep-All cut c (trim_right s cut) h.0 (trim_right-All cut s h.1)
