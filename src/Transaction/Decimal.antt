-- ===== src/Transaction/Decimal.antt =====
-- backend/internal/transaction/domain/decimal.go: exact decimals as canonical text.
pub mod Canonical
pub mod Magnitude
pub mod Parsing
pub mod Arithmetic
use Prim.Native.Nat.{compare, Ordering}
use mathlib.Core.Option
use ai_portfolio_research_as.Prelude.{
  ℕ, zero, suc, ◌+◌, ◌-◌, ◌*◌, ◌/◌, ◌%◌, ◌^◌, Bool, true, false, not, ◌&&◌, ◌||◌, List, [], ◌∷◌,
  ◌++◌, Option, none, some, ltb, leb, ◌==◌, if◌then◌else◌, length, replicate, Result, ok, err,
  ◌>>=◌, ◌>>◌, fail_if,
}
use ai_portfolio_research_as.Prelude.Int.{
  ℤ, pos, negsuc, pos_part, neg_part, ◌+ℤ◌, ◌-ℤ◌, sub_ℕ, ltb_ℤ,
}
use ai_portfolio_research_as.Text.{
  Bytes, is_empty, has_first, equal, all_digits, split, part0, part1, trim_right,
}
use ai_portfolio_research_as.Text.Digits.{unsigned, numeral}
use ai_portfolio_research_as.Transaction.Errors.{Outcome, invalid_decimal, nil_pointer}

-- The zero value, with the empty text, is an absent decimal.
pub record Decimal : Type 0 where
  pub canonical : Bytes

abbrev pub no_decimal : Decimal
no_decimal = record { canonical = [] }

-- `"." + fraction`, unless the fraction is empty
abbrev pub point : Bytes → Bytes
point [] = []
point (c ∷ s) = b'.' ∷ c ∷ s

abbrev pub bad_fraction : Bytes → Bool
bad_fraction f = length f == 0 || ltb 12 (length f) || not (all_digits f)

-- The text that is stored for the parts of an accepted text.
abbrev pub canonical_of : List Bytes → Bytes
canonical_of parts =
    if length parts == 2 then part0 parts ++ point (trim_right (part1 parts) b'0') else part0 parts

-- `parts[0] == ""`, or a needless zero in front
abbrev pub bad_whole : Bytes → Bool
bad_whole w = is_empty w || (ltb 1 (length w) && has_first b'0' w)

-- `parseDecimal` from `strings.Split(value, ".")` on
unfoldable pub parse_parts : List Bytes → Bool → Outcome Decimal
parse_parts parts allow_zero = do
  fail_if (ltb 2 (length parts) || bad_whole (part0 parts)) invalid_decimal
  fail_if (not (all_digits (part0 parts))) invalid_decimal
  fail_if (length parts == 2 && bad_fraction (part1 parts)) invalid_decimal
  fail_if (equal (canonical_of parts) (b'0' ∷ []) && not allow_zero) invalid_decimal
  ok (record { canonical = canonical_of parts })

unfoldable pub parse_decimal : Bytes → Bool → Outcome Decimal
parse_decimal value allow_zero = do
  fail_if (is_empty value) invalid_decimal
  parse_parts (split value b'.') allow_zero

unfoldable pub parse_positive_decimal : Bytes → Outcome Decimal
unfolding parse_decimal
parse_positive_decimal value = parse_decimal value false

unfoldable pub parse_non_negative_decimal : Bytes → Outcome Decimal
unfolding parse_decimal
parse_non_negative_decimal value = parse_decimal value true

unfoldable pub is_valid : Decimal → Bool
is_valid d = not (is_empty d.canonical)

unfoldable pub is_positive : Decimal → Bool
unfolding is_valid equal
is_positive d =
    is_valid d && not (equal d.canonical (b'0' ∷ [])) && not (has_first b'-' d.canonical)

unfoldable pub is_non_negative : Decimal → Bool
unfolding is_valid
is_non_negative d = is_valid d && not (has_first b'-' d.canonical)

abbrev pub neg : ℤ → ℤ
neg n = sub_ℕ (neg_part n) (pos_part n)

abbrev pub scale : ℤ → ℕ → ℤ
scale n k = sub_ℕ (pos_part n * k) (neg_part n * k)

-- `new(big.Int).SetString(digits, 10)`
set_string : Bytes → Option ℤ
unfolding unsigned
set_string [] = none
set_string (c ∷ s) =
    if c == b'-'
    then Option.map (λ n. neg (pos n)) (unsigned s)
    else if c == b'+'
    then Option.map pos (unsigned s)
    else Option.map pos (unsigned (c ∷ s))

-- `strings.TrimPrefix(s, "-")`
abbrev pub trim_minus : Bytes → Bytes
trim_minus [] = []
trim_minus (c ∷ s) = if c == b'-' then s else c ∷ s

abbrev digits_of : List Bytes → Bytes
digits_of parts = if length parts == 2 then part0 parts ++ part1 parts else part0 parts

abbrev fraction_length : List Bytes → ℕ
fraction_length parts = if length parts == 2 then length (part1 parts) else 0

-- The number of units of 10^-12 that the parts of a text spell, by its sign. An exponent below 0,
-- which a fraction of more than twelve digits would give, is raised as 0 by `Exp`, as `-` does here.
unfoldable pub units : Bool → List Bytes → Option ℤ
unfolding set_string
units negative parts =
    Option.map
      (λ n. let m = scale n (10 ^ (12 - fraction_length parts)) in if negative then neg m else m)
      (set_string (digits_of parts))

-- `none` stands for the nil pointer.
unfoldable pub scaled : Decimal → Option ℤ
unfolding is_valid split units
scaled d =
    if not (is_valid d)
    then none
    else units (has_first b'-' d.canonical) (split (trim_minus d.canonical) b'.')

-- `strings.Repeat("0", 12-len(frac)) + frac`
abbrev pub padded : Bytes → Bytes
padded f = replicate (12 - length f) b'0' ++ f

abbrev pub unit : ℕ
unit = 1000000000000

-- The text of a magnitude.
unfoldable pub magnitude_text : ℕ → Bytes
magnitude_text n =
    if n % unit == 0
    then numeral (n / unit)
    else numeral (n / unit) ++ b'.' ∷ trim_right (padded (numeral (n % unit))) b'0'

unfoldable pub decimal_from_scaled : ℤ → Decimal
decimal_from_scaled (pos zero) = record { canonical = b'0' ∷ [] }
decimal_from_scaled (pos (suc n)) = record { canonical = magnitude_text (suc n) }
decimal_from_scaled (negsuc n) = record { canonical = b'-' ∷ magnitude_text (suc n) }

-- `x.Op(y)` on two numbers, which panics on a nil pointer
abbrev pub on_numbers : {A : Type 0} → Option ℤ → Option ℤ → (ℤ → ℤ → A) → Outcome A
on_numbers none n f = err nil_pointer
on_numbers (some m) none f = err nil_pointer
on_numbers (some m) (some n) f = ok (f m n)

unfoldable pub add : Decimal → Decimal → Outcome Decimal
add d other = do
  fail_if (not (is_valid d) || not (is_valid other)) invalid_decimal
  on_numbers (scaled d) (scaled other) (λ m n. decimal_from_scaled (m +ℤ n))

unfoldable pub sub : Decimal → Decimal → Outcome Decimal
sub d other = do
  fail_if (not (is_valid d) || not (is_valid other)) invalid_decimal
  on_numbers (scaled d) (scaled other) (λ m n. decimal_from_scaled (m -ℤ n))

-- `Cmp` returns -1, 0 or 1.
abbrev pub cmp : ℤ → ℤ → ℤ
cmp m n = if ltb_ℤ m n then negsuc 0 else if ltb_ℤ n m then pos 1 else pos 0

unfoldable pub compare_decimals : Decimal → Decimal → Outcome ℤ
compare_decimals d other = do
  fail_if (not (is_valid d) || not (is_valid other)) invalid_decimal
  on_numbers (scaled d) (scaled other) cmp
