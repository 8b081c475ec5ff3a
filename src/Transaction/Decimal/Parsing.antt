-- ===== src/Transaction/Decimal/Parsing.antt =====
-- What `ParsePositiveDecimal` and `ParseNonNegativeDecimal` of
-- backend/internal/transaction/domain/decimal.go accept, and what they return.
use mathlib.Core.List.{append-nil, append_assoc}
use Prim.Native.Nat.add
use native.Mathlib.Nat.{pow-zero, pow-suc, mul_assoc, mul_right_comm}
use ai_portfolio_research_as.Prelude.{
  ◌∙◌, ap, sym, ◌≡◌, ◌≢◌, ◌⊎◌, inl, inr, refl, arith, ◌≤◌, ℕ, zero, suc, ◌+◌, ◌-◌, ◌*◌, ◌^◌, Bool,
  true, false, List, [], ◌∷◌, ◌++◌, some, ok, not, ◌&&◌, length, All, replicate, length-append,
  length-replicate,
}
use ai_portfolio_research_as.Prelude.Int.{pos}
use ai_portfolio_research_as.Text.{Bytes, is_empty, all_digits, split, trim_right, equal}
use ai_portfolio_research_as.Text.Equality.{equal_refl, equal-ne}
use ai_portfolio_research_as.Text.Digits.{
  IsDigit, IsWhole, IsWhole→All, value, value-append, value-zeros, all_digits→All, All→all_digits,
}
use ai_portfolio_research_as.Text.Splitting.{
  digits-Lacks, split-Lacks, split-append, joined, joined-split, trimmed, trim_right-All,
  trim_right-trim_right,
}
use ai_portfolio_research_as.Transaction.Decimal.{
  Decimal, point, bad_whole, bad_fraction, parse_parts, parse_decimal, scaled,
}
use ai_portfolio_research_as.Transaction.Decimal.Canonical.{
  IsFraction, IsUnsigned, magnitude, scaled-point, is_empty-IsWhole,
}
use ai_portfolio_research_as.Transaction.Decimal.Arithmetic.{decimal_ext, Stands}

-- A whole part with no needless zero, and up to twelve digits behind a point.
abbrev pub Written : Bytes → Bytes → Bytes → Type 0
Written v w r = IsWhole w × All IsDigit r × (length r ≤ 12) × (v ≡ w ++ point r)

bad_whole-IsWhole : (w : Bytes) → bad_whole w ≡ false → all_digits w ≡ true → IsWhole w
bad_whole-IsWhole [] h d = cc
bad_whole-IsWhole (c ∷ []) h d = (all_digits→All (c ∷ []) d).0
bad_whole-IsWhole (c ∷ e ∷ w) h d =
    let (p, q) = all_digits→All (c ∷ e ∷ w) d in (p, ground arith, q)

IsWhole-bad_whole : (w : Bytes) → IsWhole w → bad_whole w ≡ false
IsWhole-bad_whole [] h = absurd h
IsWhole-bad_whole (c ∷ []) h = ground arith
IsWhole-bad_whole (c ∷ e ∷ w) h = ground arith

-- The parts of an accepted text.
abbrev AcceptedParts : List Bytes → Bool → Decimal → Type 0
AcceptedParts parts allow_zero d =
    (w : Bytes) × (r : Bytes) × IsWhole w
    × All IsDigit r
    × (length r ≤ 12)
    × (joined b'.' parts ≡ w ++ point r)
    × (d.canonical ≡ w ++ point (trim_right r b'0'))
    × ((d.canonical ≢ b'0' ∷ []) ⊎ (allow_zero ≡ true))

one_part :
    (w : Bytes) (allow_zero : Bool) (d : Decimal)
    → parse_parts (w ∷ []) allow_zero ≡ ok d
    → (bad_whole w ≡ false)
      × (all_digits w ≡ true)
      × (d.canonical ≡ w)
      × ((equal w (b'0' ∷ []) ≡ false) ⊎ (allow_zero ≡ true))
unfolding parse_parts
one_part w allow_zero d h = ground arith

two_parts :
    (w r : Bytes) (allow_zero : Bool) (d : Decimal)
    → parse_parts (w ∷ r ∷ []) allow_zero ≡ ok d
    → (bad_whole w ≡ false)
      × (all_digits w ≡ true)
      × (bad_fraction r ≡ false)
      × (d.canonical ≡ w ++ point (trim_right r b'0'))
      × ((equal (w ++ point (trim_right r b'0')) (b'0' ∷ []) ≡ false) ⊎ (allow_zero ≡ true))
unfolding parse_parts
two_parts w r allow_zero d h = ground arith

bad_fraction-All :
    (r : Bytes) → bad_fraction r ≡ false → All IsDigit r × (length r ≤ 12) × (b'.' ∷ r ≡ point r)
bad_fraction-All [] h = ground arith
bad_fraction-All (c ∷ r) h = (all_digits→All (c ∷ r) (ground arith), ground arith, refl)

not_zero :
    (t : Bytes) (d : Decimal) (allow_zero : Bool)
    → d.canonical ≡ t
    → (equal t (b'0' ∷ []) ≡ false) ⊎ (allow_zero ≡ true)
    → (d.canonical ≢ b'0' ∷ []) ⊎ (allow_zero ≡ true)
not_zero t d allow_zero e (inl h) =
    inl (λ z. cc (h, ap (λ (u : Bytes). equal u (b'0' ∷ [])) (sym e ∙ z), equal_refl (b'0' ∷ [])))
not_zero t d allow_zero e (inr h) = inr h

parse_parts_sound :
    (parts : List Bytes) (allow_zero : Bool) (d : Decimal)
    → parse_parts parts allow_zero ≡ ok d
    → AcceptedParts parts allow_zero d
parse_parts_sound [] allow_zero d h = unfold parse_parts in cc
parse_parts_sound (w ∷ []) allow_zero d h =
    let (good, digits, text, nonzero) = one_part w allow_zero d h in
    (
      w,
      [],
      bad_whole-IsWhole w good digits,
      tt,
      omega arith,
      sym (append-nil w),
      unfold trim_right in text ∙ sym (append-nil w),
      not_zero w d allow_zero text nonzero,
    )
parse_parts_sound (w ∷ r ∷ []) allow_zero d h =
    let (good, digits, fraction, text, nonzero) = two_parts w r allow_zero d h in
    let (all, short, dot) = bad_fraction-All r fraction in
    (
      w,
      r,
      bad_whole-IsWhole w good digits,
      all,
      short,
      ap (λ (t : Bytes). w ++ t) dot,
      text,
      not_zero (w ++ point (trim_right r b'0')) d allow_zero text nonzero,
    )
parse_parts_sound (w ∷ r ∷ s ∷ parts) allow_zero d h = absurd (unfold parse_parts in ground arith)

-- An accepted text is written by the grammar; the stored text is the whole part and the fraction
-- without its last zeros, and is not zero where zero is refused.
pub parse_decimal_sound :
    (v : Bytes) (allow_zero : Bool) (d : Decimal)
    → parse_decimal v allow_zero ≡ ok d
    → (w : Bytes) × (r : Bytes) × Written v w r
      × (d.canonical ≡ w ++ point (trim_right r b'0'))
      × ((d.canonical ≢ b'0' ∷ []) ⊎ (allow_zero ≡ true))
unfolding parse_decimal
parse_decimal_sound v allow_zero d h =
    let inner : parse_parts (split v b'.') allow_zero ≡ ok d = ground arith in
    let (w, r, whole, all, short, text, stored, nonzero) =
      parse_parts_sound (split v b'.') allow_zero d inner in
    (w, r, (whole, all, short, sym (joined-split b'.' v) ∙ text), stored, nonzero)

parse_one :
    (w : Bytes) (allow_zero : Bool)
    → IsWhole w
    → (equal w (b'0' ∷ []) && not allow_zero) ≡ false
    → parse_parts (w ∷ []) allow_zero ≡ ok (record { canonical = w })
unfolding parse_parts
parse_one w allow_zero h z =
    rw (IsWhole-bad_whole w h, All→all_digits w (IsWhole→All w h)) (ground arith)

parse_two :
    (w r : Bytes) (allow_zero : Bool)
    → IsWhole w
    → All IsDigit r
    → r ≢ []
    → length r ≤ 12
    → (equal (w ++ point (trim_right r b'0')) (b'0' ∷ []) && not allow_zero) ≡ false
    → parse_parts (w ∷ r ∷ []) allow_zero
      ≡ ok (record { canonical = w ++ point (trim_right r b'0') })
unfolding parse_parts
parse_two w [] allow_zero h d e l z = absurd (e refl)
parse_two w (c ∷ r) allow_zero h d e l z =
    rw (IsWhole-bad_whole w h, All→all_digits w (IsWhole→All w h), All→all_digits (c ∷ r) d)
      (ground arith)

nonzero_test :
    (t : Bytes) (allow_zero : Bool)
    → (t ≢ b'0' ∷ []) ⊎ (allow_zero ≡ true)
    → (equal t (b'0' ∷ []) && not allow_zero) ≡ false
nonzero_test t allow_zero (inl h) = rw (equal-ne t (b'0' ∷ []) h)
nonzero_test t allow_zero (inr h) = ground arith

-- parseDecimal accepts every text of a whole part with no needless zero and at most twelve
-- fraction digits, unless the number is zero and zero is refused, and stores it without the last
-- zeros of the fraction.
pub parse_decimal_complete :
    (v w r : Bytes) (allow_zero : Bool)
    → Written v w r
    → (w ++ point (trim_right r b'0') ≢ b'0' ∷ []) ⊎ (allow_zero ≡ true)
    → parse_decimal v allow_zero ≡ ok (record { canonical = w ++ point (trim_right r b'0') })
unfolding parse_decimal
parse_decimal_complete v w [] allow_zero (h, d, l, e) z =
    let text : v ≡ w = e ∙ append-nil w in
    let same : w ++ point (trim_right [] b'0') ≡ w = unfold trim_right in append-nil w in
    let zero_ok = nonzero_test w allow_zero (rw same at z) in
    rw same (
      rw text (
        rw (ap is_empty (sym (append-nil w)) ∙ is_empty-IsWhole w [] h) (
          rw (split-Lacks b'.' w (digits-Lacks w (IsWhole→All w h)))
            (parse_one w allow_zero h zero_ok))))
parse_decimal_complete v w (c ∷ r) allow_zero (h, d, l, e) z = rw e (
    rw (is_empty-IsWhole w (b'.' ∷ c ∷ r) h) (
      rw (split-append b'.' w (c ∷ r) (digits-Lacks w (IsWhole→All w h))) (
        rw (split-Lacks b'.' (c ∷ r) (digits-Lacks (c ∷ r) d)) (
          parse_two w (c ∷ r) allow_zero h d (λ n. cc) l
            (nonzero_test (w ++ point (trim_right (c ∷ r) b'0')) allow_zero z)))))

trim_right-IsFraction : (r : Bytes) → All IsDigit r → length r ≤ 12 → IsFraction (trim_right r b'0')
trim_right-IsFraction r d l =
    let (k, cut) = trimmed b'0' r in
    (
      trim_right-All b'0' r d,
      omega (arith, l, ap length cut, length-append (trim_right r b'0') (replicate k b'0')),
      trim_right-trim_right b'0' r,
    )

pow-add : (a k j : ℕ) → a ^ (k + j) ≡ a ^ k * a ^ j
pow-add a zero j = rw (add.zero j) (rw (pow-zero a) (omega arith))
pow-add a (suc k) j =
    rw (add.suc k j)
      (rw (pow-suc a (k + j), pow-suc a k) (rw (pow-add a k j) (mul_right_comm (a ^ k) (a ^ j) a)))

-- Cutting off the last zeros keeps the number.
magnitude-trim_right :
    (w r : Bytes)
    → length r ≤ 12
    → magnitude w (trim_right r b'0') ≡ value 0 (w ++ r) * 10 ^ (12 - length r)
magnitude-trim_right w r l =
    let f = trim_right r b'0' in
    let (k, cut) = trimmed b'0' r in
    let width : 12 - length f ≡ k + (12 - length r) = omega (
      arith,
      l,
      ap length cut,
      length-append f (replicate k b'0'),
      length-replicate {A = ℕ} k b'0',
    ) in
    let units : value 0 (w ++ r) ≡ value 0 (w ++ f) * 10 ^ k =
      ap (λ (t : Bytes). value 0 (w ++ t)) cut
      ∙ ap (value 0) (sym (append_assoc w f (replicate k b'0')))
      ∙ value-append 0 (w ++ f) (replicate k b'0')
      ∙ value-zeros (value 0 (w ++ f)) k in
    rw width (
      rw (pow-add 10 k (12 - length r))
        (rw units (sym (mul_assoc (value 0 (w ++ f)) (10 ^ k) (10 ^ (12 - length r))))))

-- A text that parseDecimal accepts is a whole part with no needless zero and at most twelve
-- fraction digits; the decimal is canonical and stands for exactly the number written, which is
-- not zero unless zero is allowed.
pub parse_decimal-Stands :
    (v : Bytes) (allow_zero : Bool) (d : Decimal)
    → parse_decimal v allow_zero ≡ ok d
    → (w : Bytes) × (r : Bytes) × Written v w r
      × Stands d (pos (value 0 (w ++ r) * 10 ^ (12 - length r)))
      × ((d.canonical ≢ b'0' ∷ []) ⊎ (allow_zero ≡ true))
unfolding Stands
parse_decimal-Stands v allow_zero d e =
    let (w, r, h, text, nonzero) = parse_decimal_sound v allow_zero d e in
    let fraction = trim_right-IsFraction r h.1 h.2 in
    (
      w,
      r,
      h,
      (
        inl (w, trim_right r b'0', h.0, fraction, text),
        ap scaled (sym (decimal_ext d text))
            ∙ scaled-point w (trim_right r b'0') h.0 fraction
            ∙ ap (λ (n : ℕ). some (pos n)) (magnitude-trim_right w r h.2),
      ),
      nonzero,
    )

-- The stored text of a number that is not negative is read back as the same decimal.
pub parse-canonical : (d : Decimal) → IsUnsigned d.canonical → parse_decimal d.canonical true ≡ ok d
parse-canonical d (w, f, h, k, t) =
    let cut : w ++ point (trim_right f b'0') ≡ d.canonical = rw (k.2) (sym t) in
    parse_decimal_complete d.canonical w f true (h, k.0, k.1, t) (inr refl)
    ∙ ap ok (decimal_ext d (sym cut))
