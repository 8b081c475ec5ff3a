-- ===== src/Text.antt =====
-- Go strings as lists of bytes, and the functions of packages strings and unicode/utf8 that the
-- backend calls. A `range` over a string yields runes, but each such loop here only compares them
-- with ASCII bounds, which no byte of a longer encoding lies in, so the loops run over bytes.
pub mod Digits
pub mod Splitting
pub mod Equality
pub mod Utf8
pub mod Blank
pub mod Trimming
use Prim.Native.Char.{code}
use Prim.Native.String.{String}
use mathlib.Core.List.{List-discrete}
use ai_portfolio_research_as.Prelude.{
  ℕ, Bool, true, false, ◌&&◌, ◌||◌, List, [], ◌∷◌, ◌++◌, leb, ◌==◌, if◌then◌else◌, ℕ_discrete,
}

abbrev pub Bytes : Type 0
Bytes = List ℕ

abbrev pub Bytes-discrete : Discrete Bytes
Bytes-discrete = List-discrete ℕ_discrete

-- The bytes of an ASCII literal.
abbrev pub codes : String → Bytes
codes String.[] = []
codes (String.◌∷◌ c s) = code c ∷ codes s

abbrev pub is_empty : Bytes → Bool
is_empty [] = true
is_empty (_ ∷ _) = false

-- `s[0] == c`, for a test that has excluded the empty string
abbrev pub has_first : ℕ → Bytes → Bool
has_first c [] = false
has_first c (d ∷ s) = d == c

-- a comparison with a literal, `s == "…"`
unfoldable pub equal : Bytes → Bytes → Bool
equal [] [] = true
equal [] (_ ∷ _) = false
equal (_ ∷ _) [] = false
equal (a ∷ s) (b ∷ t) = a == b && equal s t

-- `ch >= '0' && ch <= '9'`
abbrev pub is_digit : ℕ → Bool
is_digit c = leb b'0' c && leb c b'9'

unfoldable pub all_digits : Bytes → Bool
all_digits [] = true
all_digits (c ∷ s) = is_digit c && all_digits s

abbrev push : ℕ → List Bytes → List Bytes
push c [] = (c ∷ []) ∷ []
push c (p ∷ ps) = (c ∷ p) ∷ ps

-- `strings.Split` with a separator of one byte
unfoldable pub split : Bytes → ℕ → List Bytes
split [] sep = [] ∷ []
split (c ∷ s) sep = let rest = split s sep in if c == sep then [] ∷ rest else push c rest

-- `parts[i]`, at an index that the caller has checked
abbrev pub part0 : List Bytes → Bytes
part0 [] = []
part0 (p ∷ _) = p

abbrev pub part1 : List Bytes → Bytes
part1 (_ ∷ p ∷ _) = p
part1 _ = []

abbrev keep : ℕ → ℕ → Bytes → Bytes
keep cut c [] = if c == cut then [] else c ∷ []
keep cut c (d ∷ t) = c ∷ d ∷ t

-- `strings.TrimRight` with a cutset of one byte
unfoldable pub trim_right : Bytes → ℕ → Bytes
trim_right [] cut = []
trim_right (c ∷ s) cut = keep cut c (trim_right s cut)
