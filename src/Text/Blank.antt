-- ===== src/Text/Blank.antt =====
-- `strings.TrimSpace(s) == ""`: a text of white space alone, in UTF-8. The spaces beyond ASCII are
-- U+0085, U+00A0, U+1680, U+2000 to U+200A, U+2028, U+2029, U+202F, U+205F and U+3000.
use ai_portfolio_research_as.Prelude.{
  ℕ, Bool, true, false, ◌&&◌, ◌||◌, [], ◌∷◌, leb, ◌==◌, if◌then◌else◌,
}
use ai_portfolio_research_as.Text.{Bytes}

-- What has been read of the current character.
pub data Scan : Type 0 where
  between : Scan
  after_one : ℕ → Scan
  after_two : ℕ → ℕ → Scan
  stopped : Scan

abbrev pub is_ascii_space : ℕ → Bool
is_ascii_space c = (leb 9 c && leb c 13) || c == 32

abbrev pub is_space_of_two : ℕ → ℕ → Bool
is_space_of_two a b = a == 194 && (b == 133 || b == 160)

abbrev pub is_space_of_three : ℕ → ℕ → ℕ → Bool
is_space_of_three a b c =
    (a == 225 && b == 154 && c == 128)
    || (a == 226 && b == 128 && ((leb 128 c && leb c 138) || c == 168 || c == 169 || c == 175))
    || (a == 226 && b == 129 && c == 159)
    || (a == 227 && b == 128 && c == 128)

abbrev pub scan : Scan → ℕ → Scan
scan between c =
    if is_ascii_space c
    then between
    else if c == 194 || c == 225 || c == 226 || c == 227
    then after_one c
    else stopped
scan (after_one a) b =
    if is_space_of_two a b then between else if a == 194 then stopped else after_two a b
scan (after_two a b) c = if is_space_of_three a b c then between else stopped
scan stopped c = stopped

abbrev pub scanned : Scan → Bytes → Bool
scanned between [] = true
scanned _ [] = false
scanned state (c ∷ s) = scanned (scan state c) s

unfoldable pub is_blank : Bytes → Bool
is_blank s = scanned between s
