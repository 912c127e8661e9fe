-- ===== src/Common/Utf8.antt =====
-- `utf8.Valid` of Go's standard library: whether bytes are UTF-8.
use cdn_edge.Common.{
  ℕ, zero, suc, Bool, true, false, ◌&&◌, leb, ◌==◌, if◌then◌else◌, [], ◌∷◌, Option, none, some,
  Text,
}

-- The continuation bytes that a first byte asks for, with the bounds of the next one; `none` if no
-- character starts with it.
abbrev pub lead : ℕ → Option (ℕ × ℕ × ℕ)
lead c =
    if leb c 0x7F
    then some (0, 0, 0)
    else if leb 0xC2 c && leb c 0xDF
    then some (1, 0x80, 0xBF)
    else if c == 0xE0
    then some (2, 0xA0, 0xBF)
    else if c == 0xED
    then some (2, 0x80, 0x9F)
    else if leb 0xE1 c && leb c 0xEF
    then some (2, 0x80, 0xBF)
    else if c == 0xF0
    then some (3, 0x90, 0xBF)
    else if leb 0xF1 c && leb c 0xF3
    then some (3, 0x80, 0xBF)
    else if c == 0xF4
    then some (3, 0x80, 0x8F)
    else none

-- The bytes that are left, `need` of them of the character that has begun.
unfoldable pub utf8_rest : ℕ → ℕ → ℕ → Text → Bool
utf8_rest zero lo hi [] = true
utf8_rest (suc need) lo hi [] = false
utf8_rest zero lo hi (c ∷ l) = elim (lead c) [
  | none ↦ false
  | some (need, from, to) ↦ utf8_rest need from to l
]
utf8_rest (suc need) lo hi (c ∷ l) =
    let rest = utf8_rest need 0x80 0xBF l in leb lo c && leb c hi && rest

unfoldable pub valid_utf8 : Text → Bool
valid_utf8 l = utf8_rest 0 0 0 l
