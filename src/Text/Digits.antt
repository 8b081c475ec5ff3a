-- ===== src/Text/Digits.antt =====
-- Decimal numerals: `big.Int.String` and the digits part of `big.Int.SetString`, on magnitudes.
use ai_portfolio_research_as.Prelude.{
  ◌∙◌, ℕ, zero, suc, ◌+◌, ◌-◌, ◌*◌, ◌/◌, ◌%◌, ◌^◌, ◌≤◌, ◌<◌, ◌≡◌, ◌≢◌, refl, true, Option, none,
  some, [], ◌∷◌, ◌++◌, arith, ltb, if◌then◌else◌, Bool-cases, length, replicate, All, inl, inr,
}
use ai_portfolio_research_as.Text.{Bytes, all_digits}
use mathlib.Core.List.{append-nil}
use native.Mathlib.Nat.{pow-suc}

abbrev pub IsDigit : ℕ → Type 0
IsDigit c = (b'0' ≤ c) × (c ≤ b'9')

-- The number that digits spell behind `n`.
unfoldable pub value : ℕ → Bytes → ℕ
value n [] = n
value n (c ∷ s) = value (n * 10 + (c - b'0')) s

-- An unsigned numeral: one digit or more, and nothing else.
unfoldable pub unsigned : Bytes → Option ℕ
unfolding all_digits value
unsigned [] = none
unsigned (c ∷ s) = if all_digits (c ∷ s) then some (value 0 (c ∷ s)) else none

-- The digits of `n` in front of `out`. A round divides by ten, so the fuel `n + 1` is enough.
unfoldable pub digits : ℕ → ℕ → Bytes → Bytes
digits zero n out = out
digits (suc f) n out =
    let more = digits f (n / 10) ((b'0' + n % 10) ∷ out) in
    if ltb n 10 then (b'0' + n) ∷ out else more

unfoldable pub numeral : ℕ → Bytes
unfolding digits
numeral n = digits (suc n) n []

pub all_digits→All : (s : Bytes) → all_digits s ≡ true → All IsDigit s
unfolding all_digits
all_digits→All [] h = tt
all_digits→All (c ∷ s) h = ground (arith, all_digits→All s)

pub All→all_digits : (s : Bytes) → All IsDigit s → all_digits s ≡ true
unfolding all_digits
All→all_digits [] h = refl
All→all_digits (c ∷ s) h = ground (arith, All→all_digits s h.1)

pub value-append : (n : ℕ) (s t : Bytes) → value n (s ++ t) ≡ value (value n s) t
unfolding value
value-append n [] t = refl
value-append n (c ∷ s) t = value-append (n * 10 + (c - b'0')) s t

pub value-cons : (n c : ℕ) (s : Bytes) → value n (c ∷ s) ≡ value (n * 10 + (c - b'0')) s
unfolding value
value-cons n c s = refl

-- One more digit is one place more.
place : (n d p q : ℕ) → q ≡ p * 10 → (n * 10 + d) * p ≡ n * q + d * p
place n d p q e = rw e (omega arith)

-- The number before a text of digits counts as often as its place says.
pub value_place : (n : ℕ) (s : Bytes) → value n s ≡ n * 10 ^ length s + value 0 s
value_place n [] = unfold value in omega arith
value_place n (c ∷ s) =
    let p : 10 ^ length (c ∷ s) ≡ 10 ^ length s * 10 = pow-suc 10 (length s) in
    omega (
      arith,
      value-cons n c s,
      value-cons 0 c s,
      value_place (n * 10 + (c - b'0')) s,
      value_place (0 * 10 + (c - b'0')) s,
      place n (c - b'0') (10 ^ length s) (10 ^ length (c ∷ s)) p,
      place 0 (c - b'0') (10 ^ length s) (10 ^ length (c ∷ s)) p,
    )

pub value-zeros : (n k : ℕ) → value n (replicate k b'0') ≡ n * 10 ^ k
value-zeros n zero = unfold value in omega arith
value-zeros n (suc k) =
    value-cons n b'0' (replicate k b'0')
    ∙ value-zeros (n * 10 + (b'0' - b'0')) k
    ∙ omega (arith, place n 0 (10 ^ k) (10 ^ suc k) (pow-suc 10 k))

pub value-lt : (s : Bytes) → All IsDigit s → value 0 s < 10 ^ length s
unfolding value
value-lt [] h = omega arith
value-lt (c ∷ s) h =
    grind (arith, value-lt s h.1, value_place (0 * 10 + (c - b'0')) s, pow-suc 10 (length s))

pub value-digits : (f n : ℕ) (out : Bytes) → n < f → value 0 (digits f n out) ≡ value n out
unfolding digits value
value-digits zero n out h = absurd (omega arith)
value-digits (suc f) n out h = ground (arith, value-digits f (n / 10) ((b'0' + n % 10) ∷ out))

-- More fuel than the number changes nothing.
digits_fuel : (f g n : ℕ) (out : Bytes) → n < f → n < g → digits f n out ≡ digits g n out
unfolding digits
digits_fuel zero g n out h k = absurd (omega arith)
digits_fuel (suc f) zero n out h k = absurd (omega arith)
digits_fuel (suc f) (suc g) n out h k =
    ground (arith, digits_fuel f g (n / 10) ((b'0' + n % 10) ∷ out))

digits-All : (f n : ℕ) (out : Bytes) → All IsDigit out → All IsDigit (digits f n out)
unfolding digits
digits-All zero n out h = h
digits-All (suc f) n out h = elim (Bool-cases (ltb n 10)) [
  | inl small ↦ rw small (ground arith)
  | inr large ↦
      rw large (digits-All f (n / 10) ((b'0' + n % 10) ∷ out) ((omega arith, omega arith), h))
]

length-digits :
    (f n k : ℕ) (out : Bytes)
    → n < f
    → n < 10 ^ suc k
    → length (digits f n out) ≤ suc k + length out
unfolding digits
length-digits zero n k out h p = absurd (omega arith)
length-digits (suc f) n zero out h p = ground arith
length-digits (suc f) n (suc k) out h p =
    ground (arith, length-digits f (n / 10) k ((b'0' + n % 10) ∷ out), pow-suc 10 (suc k))

-- A text that begins with a digit other than zero, followed by digits.
abbrev LeadsNonzero : Bytes → Type 0
LeadsNonzero [] = ⊥
LeadsNonzero (c ∷ s) = IsDigit c × (c ≢ b'0') × All IsDigit s

-- A numeral with no needless zero in front.
abbrev pub IsWhole : Bytes → Type 0
IsWhole [] = ⊥
IsWhole (c ∷ []) = IsDigit c
IsWhole (c ∷ d ∷ s) = IsDigit c × (c ≢ b'0') × All IsDigit (d ∷ s)

pub IsWhole→All : (s : Bytes) → IsWhole s → All IsDigit s
IsWhole→All [] h = absurd h
IsWhole→All (c ∷ []) h = (h, tt)
IsWhole→All (c ∷ d ∷ s) h = (h.0, h.2)

LeadsNonzero→IsWhole : (s : Bytes) → LeadsNonzero s → IsWhole s
LeadsNonzero→IsWhole [] h = absurd h
LeadsNonzero→IsWhole (c ∷ []) h = h.0
LeadsNonzero→IsWhole (c ∷ d ∷ s) h = h

digits-LeadsNonzero :
    (f n : ℕ) (out : Bytes) → 0 < n → n < f → All IsDigit out → LeadsNonzero (digits f n out)
unfolding digits
digits-LeadsNonzero zero n out p h k = absurd (omega arith)
digits-LeadsNonzero (suc f) n out p h k = elim (Bool-cases (ltb n 10)) [
  | inl small ↦ rw small ((omega arith, ground arith), omega arith, k)
  | inr large ↦ rw large (
      digits-LeadsNonzero f (n / 10) ((b'0' + n % 10) ∷ out) (ground arith) (ground arith)
        ((omega arith, omega arith), k))
]

pub numeral-IsWhole : (n : ℕ) → IsWhole (numeral n)
unfolding numeral
numeral-IsWhole zero = omega arith
numeral-IsWhole (suc n) =
    LeadsNonzero→IsWhole _
      (digits-LeadsNonzero (suc (suc n)) (suc n) [] (omega arith) (omega arith) tt)

pub value-numeral : (n : ℕ) → value 0 (numeral n) ≡ n
unfolding numeral value
value-numeral n = value-digits (suc n) n [] (omega arith)

pub length-numeral : (n k : ℕ) → n < 10 ^ suc k → length (numeral n) ≤ suc k
unfolding numeral
length-numeral n k h = omega (arith, length-digits (suc n) n k [] (omega arith) h)

-- The digits that were read behind a positive number are written again.
digits_step :
    (f n c : ℕ) (out : Bytes)
    → 0 < n
    → IsDigit c
    → n * 10 + (c - b'0') < f
    → digits f (n * 10 + (c - b'0')) out ≡ digits (suc n) n (c ∷ out)
unfolding digits
digits_step zero n c out p d h = absurd (omega arith)
digits_step (suc f) n c out p d h =
    let e : (n * 10 + (c - b'0')) / 10 ≡ n = omega arith in
    let m : b'0' + (n * 10 + (c - b'0')) % 10 ≡ c = omega arith in
    ground (arith, digits_fuel f (suc n) n (c ∷ out))

digits-value :
    (s : Bytes) (f n : ℕ) (out : Bytes)
    → 0 < n
    → All IsDigit s
    → value n s < f
    → digits f (value n s) out ≡ digits (suc n) n (s ++ out)
unfolding value
digits-value [] f n out p d h = digits_fuel f (suc n) n out h (omega arith)
digits-value (c ∷ s) f n out p d h =
    digits-value s f (n * 10 + (c - b'0')) out (omega arith) d.1 h
    ∙ digits_step (suc (n * 10 + (c - b'0'))) n c (s ++ out) p d.0 (omega arith)

numeral-value_nonzero : (s : Bytes) → LeadsNonzero s → numeral (value 0 s) ≡ s
unfolding numeral value digits
numeral-value_nonzero [] h = absurd h
numeral-value_nonzero (c ∷ s) h =
    digits-value s (suc (value (0 * 10 + (c - b'0')) s)) (0 * 10 + (c - b'0')) [] (omega arith) h.2
      (omega arith)
    ∙ ground (arith, append-nil s)

-- A numeral that begins with no needless zero is written again as it was read.
pub numeral-value : (s : Bytes) → IsWhole s → numeral (value 0 s) ≡ s
unfolding numeral value digits
numeral-value [] h = absurd h
numeral-value (c ∷ []) h = ground arith
numeral-value (c ∷ d ∷ s) h = numeral-value_nonzero (c ∷ d ∷ s) h
