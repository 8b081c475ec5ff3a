-- ===== src/Text/Trimming.antt =====
-- `strings.TrimSpace`, on the bytes of a string.
use ai_portfolio_research_as.Prelude.{ℕ, [], ◌∷◌, if◌then◌else◌}
use ai_portfolio_research_as.Text.{Bytes}
use ai_portfolio_research_as.Text.Blank.{is_ascii_space, is_space_of_two, is_space_of_three}

-- without the spaces in front
abbrev trim_left_space : Bytes → Bytes
trim_left_space [] = []
trim_left_space (a ∷ []) = if is_ascii_space a then [] else a ∷ []
trim_left_space (a ∷ b ∷ []) =
    let rest = trim_left_space (b ∷ []) in
    if is_ascii_space a then rest else if is_space_of_two a b then [] else a ∷ b ∷ []
trim_left_space (a ∷ b ∷ c ∷ s) =
    let rest = trim_left_space (b ∷ c ∷ s) in
    let after_two = trim_left_space (c ∷ s) in
    let after_three = trim_left_space s in
    if is_ascii_space a
    then rest
    else if is_space_of_two a b
    then after_two
    else if is_space_of_three a b c
    then after_three
    else a ∷ b ∷ c ∷ s

-- a byte in front of a string without spaces at its end, where the two may be a space
abbrev ends_with : ℕ → Bytes → Bytes
ends_with a [] = if is_ascii_space a then [] else a ∷ []
ends_with a (b ∷ []) = if is_space_of_two a b then [] else a ∷ b ∷ []
ends_with a (b ∷ c ∷ []) = if is_space_of_three a b c then [] else a ∷ b ∷ c ∷ []
ends_with a (b ∷ c ∷ d ∷ s) = a ∷ b ∷ c ∷ d ∷ s

abbrev trim_right_space : Bytes → Bytes
trim_right_space [] = []
trim_right_space (a ∷ s) = ends_with a (trim_right_space s)

unfoldable pub trim_space : Bytes → Bytes
trim_space s = trim_right_space (trim_left_space s)
