-- ===== src/Transaction/Decimal/Canonical.antt =====
-- Canonical texts, the number that each stands for, and the way back: `scaled` and
-- `decimalFromScaled` of backend/internal/transaction/domain/decimal.go.
use mathlib.Core.List.{append-nil}
use native.Mathlib.Nat.{zero-mul}
use ai_portfolio_research_as.Prelude.{
  ◌≡◌, ◌≢◌, refl, arith, ◌≤◌, All, All-append, ℕ, ◌-◌, ◌*◌, ◌^◌, Bool, true, false, [], ◌∷◌, ◌++◌,
  some, if◌then◌else◌, length,
}
use ai_portfolio_research_as.Prelude.Int.{pos}
use ai_portfolio_research_as.Text.{Bytes, is_empty, has_first, split, trim_right}
use ai_portfolio_research_as.Text.Digits.{
  unsigned, IsDigit, IsWhole, IsWhole→All, value, All→all_digits,
}
use ai_portfolio_research_as.Text.Splitting.{digits-Lacks, split-Lacks, split-append}
use ai_portfolio_research_as.Transaction.Decimal.{
  point, set_string, units, scaled, neg, scale, trim_minus, digits_of, fraction_length,
}

-- At most twelve digits, the last of which is no zero; or none.
abbrev pub IsFraction : Bytes → Type 0
IsFraction f = All IsDigit f × (length f ≤ 12) × (trim_right f b'0' ≡ f)

-- The canonical text of a number that is not negative.
abbrev pub IsUnsigned : Bytes → Type 0
IsUnsigned t = (w : Bytes) × (f : Bytes) × IsWhole w × IsFraction f × (t ≡ w ++ point f)

-- The units of 10^-12 that a whole part and a fraction stand for.
abbrev pub magnitude : Bytes → Bytes → ℕ
magnitude w f = value 0 (w ++ f) * 10 ^ (12 - length f)

IsWhole-ne-nil : (w t : Bytes) → IsWhole w → w ++ t ≢ []
IsWhole-ne-nil [] t h = absurd h
IsWhole-ne-nil (c ∷ w) t h = λ e. cc

unsigned-digits : (s : Bytes) → s ≢ [] → All IsDigit s → unsigned s ≡ some (value 0 s)
unfolding unsigned
unsigned-digits [] h d = absurd (h refl)
unsigned-digits (c ∷ s) h d = rw (All→all_digits (c ∷ s) d)

set_string-digits : (s : Bytes) → s ≢ [] → All IsDigit s → set_string s ≡ some (pos (value 0 s))
unfolding set_string
set_string-digits [] h d = absurd (h refl)
set_string-digits (c ∷ s) h d = ground (arith, unsigned-digits (c ∷ s) h d)

-- A digit is no sign.
pub trim_minus-IsWhole :
    (w t : Bytes) → IsWhole w → (trim_minus (w ++ t) ≡ w ++ t) × (has_first b'-' (w ++ t) ≡ false)
trim_minus-IsWhole [] t h = absurd h
trim_minus-IsWhole (c ∷ []) t h = ground arith
trim_minus-IsWhole (c ∷ d ∷ w) t h = ground arith

digits_of-point :
    (w f : Bytes)
    → IsWhole w
    → All IsDigit f
    → (digits_of (split (w ++ point f) b'.') ≡ w ++ f)
      × (fraction_length (split (w ++ point f) b'.') ≡ length f)
digits_of-point w [] h d =
    rw (append-nil w) (rw (split-Lacks b'.' w (digits-Lacks w (IsWhole→All w h))) (refl, refl))
digits_of-point w (c ∷ f) h d =
    rw (split-append b'.' w (c ∷ f) (digits-Lacks w (IsWhole→All w h)))
      (rw (split-Lacks b'.' (c ∷ f) (digits-Lacks (c ∷ f) d)) (refl, refl))

scale-pos : (n k : ℕ) → scale (pos n) k ≡ pos (n * k)
scale-pos n k = rw (zero-mul k) (ground arith)

units-point :
    (negative : Bool) (w f : Bytes)
    → IsWhole w
    → All IsDigit f
    → units negative (split (w ++ point f) b'.')
      ≡ some (if negative then neg (pos (magnitude w f)) else pos (magnitude w f))
unfolding units
units-point negative w f h d =
    let e = digits_of-point w f h d in
    rw
      (
        e.0,
        e.1,
        set_string-digits (w ++ f) (IsWhole-ne-nil w f h)
            (All-append IsDigit w f (IsWhole→All w h) d),
      )
      (rw (scale-pos (value 0 (w ++ f)) (10 ^ (12 - length f))))

pub is_empty-IsWhole : (w t : Bytes) → IsWhole w → is_empty (w ++ t) ≡ false
is_empty-IsWhole [] t h = absurd h
is_empty-IsWhole (c ∷ w) t h = refl

-- The number of a canonical text, with no sign and with one.
pub scaled-point :
    (w f : Bytes)
    → IsWhole w
    → IsFraction f
    → scaled (record { canonical = w ++ point f }) ≡ some (pos (magnitude w f))
unfolding scaled
scaled-point w f h k =
    let e = trim_minus-IsWhole w (point f) h in
    rw (is_empty-IsWhole w (point f) h) (rw (e.0, e.1) (rw (units-point false w f h k.0)))

pub scaled-minus :
    (w f : Bytes)
    → IsWhole w
    → IsFraction f
    → scaled (record { canonical = b'-' ∷ (w ++ point f) }) ≡ some (neg (pos (magnitude w f)))
unfolding scaled
scaled-minus w f h k = rw (units-point true w f h k.0)
