-- ===== src/Text/Utf8.antt =====
-- `utf8.ValidString`, and `utf8.RuneCountInString` of a valid text.
use ai_portfolio_research_as.Prelude.{
  ℕ, zero, suc, Bool, true, false, ◌&&◌, [], ◌∷◌, Option, none, some, ltb, leb, ◌==◌, if◌then◌else◌,
}
use ai_portfolio_research_as.Text.{Bytes}

-- What a first byte asks for: the number of bytes that follow, and the range of the next one.
abbrev lead : ℕ → Option (ℕ × ℕ × ℕ)
lead c =
    if ltb c 0x80
    then some (0, 0, 0)
    else if ltb c 0xc2
    then none
    else if ltb c 0xe0
    then some (1, 0x80, 0xbf)
    else if c == 0xe0
    then some (2, 0xa0, 0xbf)
    else if c == 0xed
    then some (2, 0x80, 0x9f)
    else if ltb c 0xf0
    then some (2, 0x80, 0xbf)
    else if c == 0xf0
    then some (3, 0x90, 0xbf)
    else if ltb c 0xf4
    then some (3, 0x80, 0xbf)
    else if c == 0xf4
    then some (3, 0x80, 0x8f)
    else none

-- The scan of a text in which `need` more bytes of a rune are due, the next in the range.
scan : ℕ → ℕ → ℕ → Bytes → Bool
scan zero lo hi [] = true
scan (suc need) lo hi [] = false
scan (suc need) lo hi (c ∷ s) = let rest = scan need 0x80 0xbf s in leb lo c && leb c hi && rest
scan zero lo hi (c ∷ s) = elim (lead c) [
  | none ↦ false
  | some (need, lo', hi') ↦ scan need lo' hi' s
]

unfoldable pub valid_string : Bytes → Bool
unfolding scan
valid_string s = scan 0 0 0 s

-- A rune has one byte that is no continuation byte.
unfoldable pub rune_count : Bytes → ℕ
rune_count [] = 0
rune_count (c ∷ s) = let rest = rune_count s in if leb 0x80 c && leb c 0xbf then rest else suc rest
