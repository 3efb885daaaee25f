-- ===== src/Prelude/Utf8.antt =====
-- The texts among the byte strings.
use sharerr_rs.Prelude.{
  Bool, Bytes, Option, [], false, if◌then◌else◌, leb, list_eq, nat_eq, none, some, suc, true, zero,
  ℕ, ◌&&◌, ◌==◌, ◌∷◌,
}
use sharerr_rs.Paths.Resolver.{component_eq}

abbrev pub between : ℕ → ℕ → ℕ → Bool
between low high c = leb low c && leb c high

-- What follows a first byte of a character: how many bytes, and the bounds of the next.
abbrev pub utf8_lead : ℕ → Option (ℕ × ℕ × ℕ)
utf8_lead c =
    if leb c 0x7f
    then some (0, 0, 0)
    else if between 0xc2 0xdf c
    then some (1, 0x80, 0xbf)
    else if c == 0xe0
    then some (2, 0xa0, 0xbf)
    else if c == 0xed
    then some (2, 0x80, 0x9f)
    else if between 0xe1 0xef c
    then some (2, 0x80, 0xbf)
    else if c == 0xf0
    then some (3, 0x90, 0xbf)
    else if between 0xf1 0xf3 c
    then some (3, 0x80, 0xbf)
    else if c == 0xf4
    then some (3, 0x80, 0x8f)
    else none

-- `str::from_utf8(…).is_ok()`, with some bytes of a character still to come.
unfoldable pub is_utf8_from : ℕ → ℕ → ℕ → Bytes → Bool
is_utf8_from zero low high [] = true
is_utf8_from (suc n) low high [] = false
is_utf8_from zero low high (c ∷ s) = elim (utf8_lead c) [
  | none ↦ false
  | some (n, next_low, next_high) ↦ is_utf8_from n next_low next_high s
]
is_utf8_from (suc n) low high (c ∷ s) = between low high c && is_utf8_from n 0x80 0xbf s

unfoldable pub is_utf8 : Bytes → Bool
unfolding is_utf8_from
is_utf8 s = is_utf8_from 0 0 0 s
