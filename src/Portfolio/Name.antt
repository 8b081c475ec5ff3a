-- ===== src/Portfolio/Name.antt =====
-- backend/internal/portfolio/domain/name.go: the name of a portfolio.
use ai_portfolio_research_as.Prelude.{
  ◌≡◌, ◌∙◌, refl, ap, arith, ℕ, Bool, true, not, ◌&&◌, ◌||◌, [], ◌∷◌, ◌++◌, Result, ok, ◌>>◌,
  fail_if, leb, ltb, ◌==◌, if◌then◌else◌, All, Bool-cases, inl, inr,
}
use ai_portfolio_research_as.Text.{Bytes, is_empty}
use ai_portfolio_research_as.Text.Utf8.{valid_string, rune_count}

pub data PortfolioError : Type 0 where
  invalid_portfolio_name invalid_base_currency invalid_portfolio_status : PortfolioError
  invalid_portfolio portfolio_archived : PortfolioError

pub record PortfolioName : Type 0 where
  pub value : Bytes

-- `isPortfolioTrimByte`
abbrev pub is_trim_byte : ℕ → Bool
is_trim_byte c = c == 32 || (leb 9 c && leb c 13)

-- the first loop of `trimPortfolioEdgeWhitespace`
unfoldable pub trim_start : Bytes → Bytes
trim_start [] = []
trim_start (c ∷ s) = let rest = trim_start s in if is_trim_byte c then rest else c ∷ s

abbrev pub keep_byte : ℕ → Bytes → Bytes
keep_byte c [] = if is_trim_byte c then [] else c ∷ []
keep_byte c (d ∷ t) = c ∷ d ∷ t

-- the second loop
unfoldable pub trim_end : Bytes → Bytes
trim_end [] = []
trim_end (c ∷ s) = keep_byte c (trim_end s)

unfoldable pub trim_edge_whitespace : Bytes → Bytes
trim_edge_whitespace s = trim_end (trim_start s)

unfoldable pub new_portfolio_name : Bytes → Result PortfolioError PortfolioName
new_portfolio_name value = do
  fail_if (not (valid_string value)) invalid_portfolio_name
  let trimmed = trim_edge_whitespace value
  fail_if (is_empty trimmed || ltb 200 (rune_count trimmed)) invalid_portfolio_name
  ok (record { value = trimmed })

abbrev pub name_is_zero : PortfolioName → Bool
name_is_zero name = is_empty name.value

abbrev pub IsSpace : ℕ → Type 0
IsSpace c = is_trim_byte c ≡ true

-- the last byte, if any, stays
abbrev pub ends_bare : Bytes → Bool
ends_bare [] = true
ends_bare (c ∷ []) = not (is_trim_byte c)
ends_bare (c ∷ d ∷ s) = ends_bare (d ∷ s)

abbrev pub starts_bare : Bytes → Bool
starts_bare [] = true
starts_bare (c ∷ s) = not (is_trim_byte c)

trim_start-split :
    (s : Bytes)
    → (pre : Bytes) × (s ≡ pre ++ trim_start s)
      × All IsSpace pre
      × (starts_bare (trim_start s) ≡ true)
unfolding trim_start
trim_start-split [] = ([], refl, tt, refl)
trim_start-split (c ∷ s) = elim (Bool-cases (is_trim_byte c)) [
  | inl e ↦
      let (pre, eq, spaces, bare) = trim_start-split s in
      (c ∷ pre, rw e (ap (λ (x : Bytes). c ∷ x) eq), (e, spaces), rw e bare)
  | inr e ↦ ([], rw e refl, tt, rw e (rw e refl))
]

-- How a text ends in white space, without which it is another one.
abbrev EndSplit : Bytes → Bytes → Type 0
EndSplit s t =
    (post : Bytes) × (s ≡ t ++ post)
    × All IsSpace post
    × (ends_bare t ≡ true)
    × (starts_bare s ≡ true → starts_bare t ≡ true)

keep_byte-split : (c : ℕ) (s t : Bytes) → EndSplit s t → EndSplit (c ∷ s) (keep_byte c t)
keep_byte-split c s [] (post, e, spaces, _, _) = elim (Bool-cases (is_trim_byte c)) [
  | inl h ↦ (
    c ∷ post,
    rw h (ap (λ (x : Bytes). c ∷ x) e),
    (h, spaces),
    rw h refl,
    λ n. ground (arith, h, n),
  )
  | inr h ↦ (post, rw h (ap (λ (x : Bytes). c ∷ x) e), spaces, rw h (rw h refl), λ n. rw h n)
]
keep_byte-split c s (d ∷ t) (post, e, spaces, ends, _) =
    (post, ap (λ (x : Bytes). c ∷ x) e, spaces, ends, λ n. n)

trim_end-split : (s : Bytes) → EndSplit s (trim_end s)
unfolding trim_end
trim_end-split [] = ([], refl, tt, refl, λ h. h)
trim_end-split (c ∷ s) = keep_byte-split c s (trim_end s) (trim_end-split s)

-- What trimPortfolioEdgeWhitespace removes from a text is white space at its two edges, and
-- neither edge of the rest is white space.
pub trim_edge_whitespace-split :
    (s : Bytes)
    → (pre post : Bytes) × (s ≡ pre ++ (trim_edge_whitespace s ++ post))
      × All IsSpace pre
      × All IsSpace post
      × (starts_bare (trim_edge_whitespace s) ≡ true)
      × (ends_bare (trim_edge_whitespace s) ≡ true)
unfolding trim_edge_whitespace
trim_edge_whitespace-split s =
    let (pre, e, before, bare) = trim_start-split s in
    let (post, f, after, ends, starts) = trim_end-split (trim_start s) in
    (pre, post, e ∙ ap (λ (x : Bytes). pre ++ x) f, before, after, starts bare, ends)
