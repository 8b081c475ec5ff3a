-- ===== src/Transaction/Decimal/Arithmetic.antt =====
-- Decimals as exact numbers: what `Add`, `Sub` and `Compare` of
-- backend/internal/transaction/domain/decimal.go do to the numbers that the texts stand for.
use mathlib.Core.Path.{subst}
use ai_portfolio_research_as.Prelude.{
  ◌∙◌, ap, sym, ◌≡◌, ◌≢◌, ◌⊎◌, ◌↔◌, inl, inr, refl, arith, ℕ, zero, suc, true, false, [], ◌∷◌, some,
  ok, not,
}
use ai_portfolio_research_as.Prelude.Int.{ℤ, pos, negsuc, ◌+ℤ◌, ◌-ℤ◌, ltb_ℤ}
use ai_portfolio_research_as.Text.{Bytes, is_empty, has_first}
use ai_portfolio_research_as.Text.Equality.{equal-ne}
use ai_portfolio_research_as.Text.Digits.{numeral}
use ai_portfolio_research_as.Transaction.Decimal.{
  Decimal, point, scaled, magnitude_text, decimal_from_scaled, neg, is_valid, is_positive,
  is_non_negative, add, sub, cmp, compare_decimals,
}
use ai_portfolio_research_as.Transaction.Decimal.Canonical.{
  IsUnsigned, magnitude, is_empty-IsWhole, trim_minus-IsWhole, scaled-point, scaled-minus,
}
use ai_portfolio_research_as.Transaction.Decimal.Magnitude.{
  magnitude_text-magnitude, magnitude-magnitude_text,
}

-- The decimals that the package makes: a canonical text, or one behind a minus if it is not zero.
abbrev pub IsCanonical : Decimal → Type 0
IsCanonical d =
    IsUnsigned d.canonical
    ⊎ ((t : Bytes) × IsUnsigned t × (t ≢ b'0' ∷ []) × (d.canonical ≡ b'-' ∷ t))

magnitude_text_zero : magnitude_text 0 ≡ b'0' ∷ []
unfolding magnitude_text numeral
magnitude_text_zero = refl

decimal_from_scaled-pos :
    (m : ℕ) → decimal_from_scaled (pos m) ≡ record { canonical = magnitude_text m }
unfolding decimal_from_scaled
decimal_from_scaled-pos zero = λ i. record { canonical = sym magnitude_text_zero i }
decimal_from_scaled-pos (suc m) = refl

neg-pos : (m : ℕ) → neg (pos (suc m)) ≡ negsuc m
neg-pos m = ground arith

decimal_from_scaled-neg :
    (m : ℕ)
    → m ≢ 0
    → decimal_from_scaled (neg (pos m)) ≡ record { canonical = b'-' ∷ magnitude_text m }
unfolding decimal_from_scaled
decimal_from_scaled-neg zero h = absurd (h refl)
decimal_from_scaled-neg (suc m) h = ap decimal_from_scaled (neg-pos m)

magnitude_text-IsUnsigned : (m : ℕ) → IsUnsigned (magnitude_text m)
magnitude_text-IsUnsigned m = let (w, f, h, k, t, v) = magnitude_text-magnitude m in (w, f, h, k, t)

scaled-magnitude_text : (m : ℕ) → scaled (record { canonical = magnitude_text m }) ≡ some (pos m)
scaled-magnitude_text m =
    let (w, f, h, k, t, v) = magnitude_text-magnitude m in rw t (scaled-point w f h k ∙ rw v)

scaled-minus_magnitude_text :
    (m : ℕ) → scaled (record { canonical = b'-' ∷ magnitude_text m }) ≡ some (neg (pos m))
scaled-minus_magnitude_text m =
    let (w, f, h, k, t, v) = magnitude_text-magnitude m in rw t (scaled-minus w f h k ∙ rw v)

magnitude_text-ne-zero : (m : ℕ) → m ≢ 0 → magnitude_text m ≢ b'0' ∷ []
magnitude_text-ne-zero m h e =
    let same_number : some (pos m) ≡ some (pos 0) =
      sym (scaled-magnitude_text m)
      ∙ ap (λ (t : Bytes). scaled (record { canonical = t })) (e ∙ sym magnitude_text_zero)
      ∙ scaled-magnitude_text 0 in
    h (ground arith)

-- Every integer number of units is read back from the decimal that decimalFromScaled makes of it.
pub scaled-decimal_from_scaled : (n : ℤ) → scaled (decimal_from_scaled n) ≡ some n
scaled-decimal_from_scaled (pos m) = rw (decimal_from_scaled-pos m) (scaled-magnitude_text m)
scaled-decimal_from_scaled (negsuc m) =
    unfold decimal_from_scaled in scaled-minus_magnitude_text (suc m) ∙ ap some (neg-pos m)

pub decimal_from_scaled-IsCanonical : (n : ℤ) → IsCanonical (decimal_from_scaled n)
decimal_from_scaled-IsCanonical (pos m) =
    rw (decimal_from_scaled-pos m) (inl (magnitude_text-IsUnsigned m))
decimal_from_scaled-IsCanonical (negsuc m) =
    unfold decimal_from_scaled in
    inr (
      magnitude_text (suc m),
      magnitude_text-IsUnsigned (suc m),
      magnitude_text-ne-zero (suc m) (omega arith),
      refl,
    )

pub decimal_ext : (d : Decimal) {t : Bytes} → d.canonical ≡ t → record { canonical = t } ≡ d
decimal_ext d e = λ i. record { canonical = sym e i }

-- A canonical decimal stands for a number, and is the decimal that is made from this number.
pub IsCanonical-scaled :
    (d : Decimal) → IsCanonical d → (n : ℤ) × (scaled d ≡ some n) × (decimal_from_scaled n ≡ d)
IsCanonical-scaled d (inl (w, f, h, k, t)) = (
  pos (magnitude w f),
  ap scaled (sym (decimal_ext d t)) ∙ scaled-point w f h k,
  decimal_from_scaled-pos (magnitude w f)
      ∙ decimal_ext d (t ∙ sym (magnitude-magnitude_text w f h k)),
)
IsCanonical-scaled d (inr (t, (w, f, h, k, e), ne, m)) =
    let text = magnitude-magnitude_text w f h k in
    let positive : magnitude w f ≢ 0 =
      λ z. ne (e ∙ sym text ∙ ap magnitude_text z ∙ magnitude_text_zero) in
    (
      neg (pos (magnitude w f)),
      ap scaled (sym (decimal_ext d (m ∙ ap (λ (r : Bytes). b'-' ∷ r) e))) ∙ scaled-minus w f h k,
      decimal_from_scaled-neg (magnitude w f) positive
          ∙ decimal_ext d (m ∙ ap (λ (r : Bytes). b'-' ∷ r) (e ∙ sym text)),
    )

-- Two canonical decimals that stand for one number are one text: `==` on them is numeric.
pub scaled-injective : (a b : Decimal) → IsCanonical a → IsCanonical b → scaled a ≡ scaled b → a ≡ b
scaled-injective a b ca cb e =
    let (m, sa, da) = IsCanonical-scaled a ca in
    let (n, sb, db) = IsCanonical-scaled b cb in
    let number : m ≡ n = cc in sym da ∙ ap decimal_from_scaled number ∙ db

IsCanonical-is_valid : (d : Decimal) → IsCanonical d → is_valid d ≡ true
unfolding is_valid
IsCanonical-is_valid d (inl (w, f, h, k, t)) =
    ap not (ap is_empty t ∙ is_empty-IsWhole w (point f) h)
IsCanonical-is_valid d (inr (t, u, ne, m)) = ap not (ap is_empty m)

-- The number of a canonical decimal.
unfoldable pub Stands : Decimal → ℤ → Type 0
Stands d n = IsCanonical d × (scaled d ≡ some n)

module _ (a b : Decimal) (m n : ℤ) (ha : Stands a m) (hb : Stands b n) where
  -- Two canonical decimals that stand for two numbers of units have a sum, which is canonical and
  -- stands for exactly the sum of the numbers.
  pub add-Stands : (c : Decimal) × (add a b ≡ ok c) × Stands c (m +ℤ n)
  unfolding add Stands
  add-Stands = (
    decimal_from_scaled (m +ℤ n),
    rw (IsCanonical-is_valid a ha.0, IsCanonical-is_valid b hb.0) (rw (ha.1, hb.1)),
    (decimal_from_scaled-IsCanonical (m +ℤ n), scaled-decimal_from_scaled (m +ℤ n)),
  )

  -- Two canonical decimals that stand for two numbers of units have a difference, which is
  -- canonical and stands for exactly the difference of the numbers.
  pub sub-Stands : (c : Decimal) × (sub a b ≡ ok c) × Stands c (m -ℤ n)
  unfolding sub Stands
  sub-Stands = (
    decimal_from_scaled (m -ℤ n),
    rw (IsCanonical-is_valid a ha.0, IsCanonical-is_valid b hb.0) (rw (ha.1, hb.1)),
    (decimal_from_scaled-IsCanonical (m -ℤ n), scaled-decimal_from_scaled (m -ℤ n)),
  )

  -- `Compare` is the order of the numbers.
  pub compare-Stands : compare_decimals a b ≡ ok (cmp m n)
  unfolding compare_decimals Stands
  compare-Stands = rw (IsCanonical-is_valid a ha.0, IsCanonical-is_valid b hb.0) (rw (ha.1, hb.1))

cmp-zero : (m n : ℤ) → cmp m n ≡ pos 0 → m ≡ n
cmp-zero m n h = ground arith

cmp-eq : (m n : ℤ) → m ≡ n → cmp m n ≡ pos 0
cmp-eq m n h = ground arith

-- Compare reports 0 on two canonical decimals exactly when they are equal.
pub compare-zero :
    (a b : Decimal) → IsCanonical a → IsCanonical b → (compare_decimals a b ≡ ok (pos 0)) ↔ (a ≡ b)
compare-zero a b ca cb =
    let (m, sa, da) = IsCanonical-scaled a ca in
    let (n, sb, db) = IsCanonical-scaled b cb in
    let c : compare_decimals a b ≡ ok (cmp m n) =
      unfold Stands in compare-Stands a b m n (ca, sa) (cb, sb) in
    (
      λ h.
          let z : cmp m n ≡ pos 0 = cc in
          scaled-injective a b ca cb (sa ∙ ap some (cmp-zero m n z) ∙ sym sb),
      λ e. let number : some m ≡ some n = sym sa ∙ ap scaled e ∙ sb in c ∙ ap ok (cmp-eq m n (cc)),
    )

sign_of_text :
    (n : ℤ)
    → (is_non_negative (decimal_from_scaled n) ≡ not (ltb_ℤ n (pos 0)))
      × (is_positive (decimal_from_scaled n) ≡ ltb_ℤ (pos 0) n)
unfolding is_non_negative is_positive decimal_from_scaled
sign_of_text (pos zero) = (refl, refl)
sign_of_text (pos (suc m)) =
    let t = magnitude_text (suc m) in
    let (w, f, h, k, e, v) = magnitude_text-magnitude (suc m) in
    let filled : is_empty t ≡ false = ap is_empty e ∙ is_empty-IsWhole w (point f) h in
    let unsigned : has_first b'-' t ≡ false =
      ap (has_first b'-') e ∙ (trim_minus-IsWhole w (point f) h).1 in
    let nonzero = equal-ne t (b'0' ∷ []) (magnitude_text-ne-zero (suc m) (omega arith)) in
    rw (filled, unsigned, nonzero) (ground arith, ground arith)
sign_of_text (negsuc m) = ground arith

-- On a canonical decimal that stands for a number, IsNonNegative and IsPositive are the tests of
-- the sign of that number.
pub sign-Stands :
    (d : Decimal) (n : ℤ)
    → Stands d n
    → (is_non_negative d ≡ not (ltb_ℤ n (pos 0))) × (is_positive d ≡ ltb_ℤ (pos 0) n)
unfolding Stands
sign-Stands d n h =
    let (m, s, e) = IsCanonical-scaled d h.0 in
    let both : some m ≡ some n = sym s ∙ h.1 in
    let number : m ≡ n = cc in
    let text : decimal_from_scaled n ≡ d = ap decimal_from_scaled (sym number) ∙ e in
    subst
      (λ (c : Decimal).
        (is_non_negative c ≡ not (ltb_ℤ n (pos 0))) × (is_positive c ≡ ltb_ℤ (pos 0) n))
      text (sign_of_text n)
