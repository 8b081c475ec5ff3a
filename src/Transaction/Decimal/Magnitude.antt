-- ===== src/Transaction/Decimal/Magnitude.antt =====
-- The text of a magnitude and the magnitude of a text are inverse: the printing half of
-- `decimalFromScaled` of backend/internal/transaction/domain/decimal.go.
use mathlib.Core.List.{append-nil}
use native.Mathlib.Nat.{zero-mul, one-le-pow}
use ai_portfolio_research_as.Prelude.{
  ◌∙◌, ap, sym, ◌≡◌, ◌≢◌, inl, inr, refl, arith, ◌≤◌, ◌<◌, length-append, length-replicate, All,
  All-append, Bool-cases, ℕ, zero, suc, ◌+◌, ◌-◌, ◌*◌, ◌/◌, ◌%◌, ◌^◌, [], ◌∷◌, ◌++◌, ◌==◌,
  if◌then◌else◌, length, replicate, ℕ_discrete,
}
use ai_portfolio_research_as.Text.{Bytes, trim_right}
use ai_portfolio_research_as.Text.Digits.{
  numeral, IsDigit, IsWhole, IsWhole→All, value, value-cons, value-append, value-zeros,
  value-numeral, value_place, numeral-value, numeral-IsWhole, length-numeral, value-lt,
}
use ai_portfolio_research_as.Text.Splitting.{
  trimmed, trim_right-trim_right, trim_right-append, trim_right-All,
}
use ai_portfolio_research_as.Transaction.Decimal.{point, magnitude_text, unit, padded}
use ai_portfolio_research_as.Transaction.Decimal.Canonical.{IsFraction, magnitude}

zeros-All : (k : ℕ) → All IsDigit (replicate k b'0')
zeros-All zero = tt
zeros-All (suc k) = ((omega arith, omega arith), zeros-All k)

-- Cutting the zeros off a fraction of twelve digits keeps the number.
fraction_units :
    (q k : ℕ) (s f : Bytes)
    → s ≡ f ++ replicate k b'0'
    → length s ≡ 12
    → value q f * 10 ^ (12 - length f) ≡ value q s
fraction_units q k s f e l =
    let m : 12 - length f ≡ k = omega (
      arith,
      l,
      ap length e,
      length-append f (replicate k b'0'),
      length-replicate {A = ℕ} k b'0',
    ) in
    rw (m, e) (sym (value-append q f (replicate k b'0') ∙ value-zeros (value q f) k))

module _ (r : ℕ) (small : r < unit) where
  numeral_fits : length (numeral r) ≤ 12
  numeral_fits = length-numeral r 11 small

  length-padded : length (padded (numeral r)) ≡ 12
  length-padded = omega (
    arith,
    numeral_fits,
    length-append (replicate (12 - length (numeral r)) b'0') (numeral r),
    length-replicate {A = ℕ} (12 - length (numeral r)) b'0',
  )

  value-padded : (q : ℕ) → value q (padded (numeral r)) ≡ q * unit + r
  value-padded q =
      let k = 12 - length (numeral r) in
      let zeros = replicate k b'0' in
      let z : value 0 zeros ≡ 0 = value-zeros 0 k ∙ zero-mul (10 ^ k) in
      let v : value 0 (zeros ++ numeral r) ≡ r =
        value-append 0 zeros (numeral r) ∙ rw z (value-numeral r) in
      let l : 10 ^ length (zeros ++ numeral r) ≡ unit = ap (λ (i : ℕ). 10 ^ i) length-padded in
      value_place q (padded (numeral r)) ∙ rw (v, l)

  padded-All : All IsDigit (padded (numeral r))
  padded-All =
      All-append IsDigit (replicate (12 - length (numeral r)) b'0') (numeral r)
        (zeros-All (12 - length (numeral r))) (IsWhole→All (numeral r) (numeral-IsWhole r))

  -- A positive remainder leaves a fraction.
  trim_padded_ne_nil : 0 < r → trim_right (padded (numeral r)) b'0' ≢ []
  trim_padded_ne_nil p e =
      let (k, cut) = trimmed b'0' (padded (numeral r)) in
      let v : value 0 (padded (numeral r)) ≡ 0 =
        ap (value 0) cut ∙ rw e (value-zeros 0 k ∙ zero-mul (10 ^ k)) in
      absurd (omega (arith, v, value-padded 0))

point_ne_nil : (f : Bytes) → f ≢ [] → b'.' ∷ f ≡ point f
point_ne_nil [] h = absurd (h refl)
point_ne_nil (c ∷ f) h = refl

-- The whole part and the fraction of a magnitude.
pub whole_of : ℕ → Bytes
whole_of n = numeral (n / unit)

pub fraction_of : ℕ → Bytes
fraction_of n = if n % unit == 0 then [] else trim_right (padded (numeral (n % unit))) b'0'

fraction_of-IsFraction : (n : ℕ) → IsFraction (fraction_of n)
unfolding fraction_of
fraction_of-IsFraction n = elim (Bool-cases (n % unit == 0)) [
  | inl e ↦ rw e (tt, omega arith, unfold trim_right in refl)
  | inr e ↦
      let small : n % unit < unit = omega arith in
      let s = padded (numeral (n % unit)) in
      let (k, cut) = trimmed b'0' s in
      rw e (
        trim_right-All b'0' s (padded-All (n % unit) small),
        omega (
          arith,
          length-padded (n % unit) small,
          ap length cut,
          length-append (trim_right s b'0') (replicate k b'0'),
        ),
        trim_right-trim_right b'0' s,
      )
]

magnitude_text_parts : (n : ℕ) → magnitude_text n ≡ whole_of n ++ point (fraction_of n)
unfolding magnitude_text whole_of fraction_of
magnitude_text_parts n = elim (Bool-cases (n % unit == 0)) [
  | inl e ↦ rw e (sym (append-nil (numeral (n / unit))))
  | inr e ↦ rw e (
      ap (λ (t : Bytes). numeral (n / unit) ++ t)
        (point_ne_nil (trim_right (padded (numeral (n % unit))) b'0')
          (trim_padded_ne_nil (n % unit) (omega arith) (ground arith))))
]

magnitude_parts : (n : ℕ) → magnitude (whole_of n) (fraction_of n) ≡ n
unfolding whole_of fraction_of
magnitude_parts n =
    let v = value-numeral (n / unit) in
    elim (Bool-cases (n % unit == 0)) [
      | inl e ↦ rw e (rw (append-nil (numeral (n / unit))) (rw v (ground arith)))
      | inr e ↦
          let small : n % unit < unit = omega arith in
          let s = padded (numeral (n % unit)) in
          let (k, cut) = trimmed b'0' s in
          rw e (
            rw (value-append 0 (numeral (n / unit)) (trim_right s b'0')) (
              rw v (
                fraction_units (n / unit) k s (trim_right s b'0') cut
                  (length-padded (n % unit) small)
                ∙ value-padded (n % unit) small (n / unit)
                ∙ omega arith)))
    ]

-- What the text of a magnitude looks like, and that it spells the magnitude.
pub magnitude_text-magnitude :
    (n : ℕ)
    → (w : Bytes) × (f : Bytes) × IsWhole w
      × IsFraction f
      × (magnitude_text n ≡ w ++ point f)
      × (magnitude w f ≡ n)
magnitude_text-magnitude n = (
  whole_of n,
  fraction_of n,
  unfold whole_of in numeral-IsWhole (n / unit),
  fraction_of-IsFraction n,
  magnitude_text_parts n,
  magnitude_parts n,
)

-- Digits that spell zero are zeros, and `trim_right` cuts all of them off.
trim_right-zero : (s : Bytes) → All IsDigit s → value 0 s ≡ 0 → trim_right s b'0' ≡ []
unfolding trim_right
trim_right-zero [] d e = refl
trim_right-zero (c ∷ s) d e =
    let v = value_place (0 * 10 + (c - b'0')) s in
    let one = one-le-pow (length s) 10 (omega arith) in
    let zero_first : c ≡ b'0' = grind (arith, v, one, value-cons 0 c s) in
    let zero_rest : value 0 s ≡ 0 = omega (arith, v, value-cons 0 c s) in
    ground (arith, trim_right-zero s d.1 zero_rest)

padded_zero :
    (s : Bytes)
    → All IsDigit s
    → 0 < value 0 s
    → replicate (length s - length (numeral (value 0 s))) b'0' ++ numeral (value 0 s) ≡ s
    → replicate (suc (length s) - length (numeral (value 0 s))) b'0' ++ numeral (value 0 s)
      ≡ b'0' ∷ s
padded_zero [] d p ih = unfold value in absurd (omega arith)
padded_zero (c ∷ s) d p ih =
    let fits = length-numeral (value 0 (c ∷ s)) (length s) (value-lt (c ∷ s) d) in
    let e : suc (length (c ∷ s)) - length (numeral (value 0 (c ∷ s)))
        ≡ suc (length (c ∷ s) - length (numeral (value 0 (c ∷ s)))) =
      omega (arith, fits) in
    rw e (ap (λ (t : Bytes). b'0' ∷ t) ih)

nonzero-IsWhole : (c : ℕ) (s : Bytes) → All IsDigit (c ∷ s) → c ≢ b'0' → IsWhole (c ∷ s)
nonzero-IsWhole c [] d h = d.0
nonzero-IsWhole c (e ∷ s) d h = (d.0, h, d.1)

-- A positive number of a given width is written again, padded.
padded-value :
    (s : Bytes)
    → All IsDigit s
    → 0 < value 0 s
    → replicate (length s - length (numeral (value 0 s))) b'0' ++ numeral (value 0 s) ≡ s
padded-value [] d p = unfold value in absurd (omega arith)
padded-value (c ∷ s) d p = elim (ℕ_discrete c b'0') [
  | yes e ↦ rw e (
      rw (value-cons 0 b'0' s) (
        let q : 0 < value 0 s = rw e at (rw (value-cons 0 c s) at p) in
        padded_zero s d.1 q (padded-value s d.1 q)))
  | no h ↦
      let all : numeral (value 0 (c ∷ s)) ≡ c ∷ s =
        numeral-value (c ∷ s) (nonzero-IsWhole c s d h) in
      let e : length (c ∷ s) - length (c ∷ s) ≡ 0 = omega arith in rw (all, e)
]

module _ (w f : Bytes) (h : IsWhole w) (k : IsFraction f) where
  -- the fraction with its zeros, as `padded` spells it
  spelled : Bytes
  spelled = f ++ replicate (12 - length f) b'0'

  length-spelled : length spelled ≡ 12
  unfolding spelled
  length-spelled = omega (
    arith,
    k.1,
    length-append f (replicate (12 - length f) b'0'),
    length-replicate {A = ℕ} (12 - length f) b'0',
  )

  spelled-All : All IsDigit spelled
  unfolding spelled
  spelled-All = All-append IsDigit f _ k.0 (zeros-All (12 - length f))

  trim_right-spelled : trim_right spelled b'0' ≡ f
  unfolding spelled
  trim_right-spelled = trim_right-append b'0' f (12 - length f) k.2

  value-spelled : (value 0 spelled < unit) × (magnitude w f ≡ value 0 w * unit + value 0 spelled)
  value-spelled =
      let p : 10 ^ length spelled ≡ unit = ap (λ (i : ℕ). 10 ^ i) length-spelled in
      (
        rw p at (value-lt spelled spelled-All),
        ap (λ (i : ℕ). i * 10 ^ (12 - length f)) (value-append 0 w f)
            ∙ fraction_units (value 0 w) (12 - length f) spelled f (unfold spelled in refl)
                length-spelled
            ∙ value_place (value 0 w) spelled
            ∙ rw p,
      )

  whole_of-magnitude : whole_of (magnitude w f) ≡ w
  unfolding whole_of
  whole_of-magnitude =
      let q : magnitude w f / unit ≡ value 0 w = omega (arith, value-spelled) in
      rw q (numeral-value w h)

  fraction_of-magnitude : fraction_of (magnitude w f) ≡ f
  unfolding fraction_of
  fraction_of-magnitude =
      let r : magnitude w f % unit ≡ value 0 spelled = omega (arith, value-spelled) in
      rw r (elim (Bool-cases (value 0 spelled == 0)) [
        | inl e ↦
            rw e (sym (trim_right-zero spelled spelled-All (ground arith)) ∙ trim_right-spelled)
        | inr e ↦
            let again : padded (numeral (value 0 spelled)) ≡ spelled =
              rw length-spelled at (padded-value spelled spelled-All (ground arith)) in
            rw e (rw again trim_right-spelled)
      ])

  -- The text of the magnitude of a canonical text is that text.
  pub magnitude-magnitude_text : magnitude_text (magnitude w f) ≡ w ++ point f
  magnitude-magnitude_text =
      magnitude_text_parts (magnitude w f) ∙ rw (whole_of-magnitude, fraction_of-magnitude)
