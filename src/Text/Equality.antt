-- ===== src/Text/Equality.antt =====
-- `equal` decides equality of texts.
use ai_portfolio_research_as.Prelude.{
  ◌≡◌, ◌≢◌, refl, true, false, [], ◌∷◌, arith, Bool-cases, inl, inr,
}
use ai_portfolio_research_as.Text.{Bytes, equal}

pub equal→eq : (s t : Bytes) → equal s t ≡ true → s ≡ t
unfolding equal
equal→eq [] [] h = refl
equal→eq [] (b ∷ t) h = cc
equal→eq (a ∷ s) [] h = cc
equal→eq (a ∷ s) (b ∷ t) h = ground (arith, equal→eq s t)

pub equal_refl : (s : Bytes) → equal s s ≡ true
unfolding equal
equal_refl [] = refl
equal_refl (a ∷ s) = ground (arith, equal_refl s)

pub equal-ne : (s t : Bytes) → s ≢ t → equal s t ≡ false
equal-ne s t h = elim (Bool-cases (equal s t)) [ inl e ↦ absurd (h (equal→eq s t e)) | inr e ↦ e ]
