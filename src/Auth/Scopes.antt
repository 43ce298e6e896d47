-- ===== src/Auth/Scopes.antt =====
-- strings.Fields, which cuts a scope claim at white space. The white space of Unicode beyond ASCII
-- is matched by its UTF-8 bytes; no lead byte is a continuation byte, so this matches at the
-- boundaries of characters only.
use homelab_api.Base.{
  Text, ℕ, zero, suc, Bool, ◌&&◌, ◌||◌, if◌then◌else◌, List, [], ◌∷◌, ◌++◌, leb, eqb,
}

-- The ASCII white space: \t, \n, \v, \f, \r and the space.
ascii_space : ℕ → Bool
ascii_space b = (leb 9 b && leb b 13) || eqb b 32

two_byte_space : ℕ → ℕ → Bool
two_byte_space a b = eqb a 0xc2 && (eqb b 0x85 || eqb b 0xa0)

three_byte_space : ℕ → ℕ → ℕ → Bool
three_byte_space a b c =
    (eqb a 0xe1 && eqb b 0x9a && eqb c 0x80)
    || (eqb a 0xe2
        && eqb b 0x80
        && ((leb 0x80 c && leb c 0x8a) || eqb c 0xa8 || eqb c 0xa9 || eqb c 0xaf))
    || (eqb a 0xe2 && eqb b 0x81 && eqb c 0x9f)
    || (eqb a 0xe3 && eqb b 0x80 && eqb c 0x80)

-- The bytes of the white space at the head, or 0.
space_width : Text → ℕ
unfolding ascii_space two_byte_space three_byte_space
space_width [] = 0
space_width (a ∷ []) = if ascii_space a then 1 else 0
space_width (a ∷ b ∷ []) = if ascii_space a then 1 else if two_byte_space a b then 2 else 0
space_width (a ∷ b ∷ c ∷ s) =
    if ascii_space a
    then 1
    else if two_byte_space a b
    then 2
    else if three_byte_space a b c
    then 3
    else 0

-- A field ends: it counts unless it is empty.
flush : Text → List Text → List Text
flush [] rest = rest
flush (b ∷ cur) rest = (b ∷ cur) ∷ rest

-- `skip` bytes of the current white space are still to be passed over; `cur` is the current field.
fields_from : ℕ → Text → Text → List Text
fields_from skip cur [] = flush cur []
fields_from (suc skip) cur (b ∷ s) = fields_from skip cur s
fields_from zero cur (b ∷ s) = elim (space_width (b ∷ s)) [
  | zero ↦ fields_from zero (cur ++ b ∷ []) s
  | suc w ↦ flush cur (fields_from w [] s)
]

pub fields : Text → List Text
unfolding fields_from space_width flush
fields s = fields_from 0 [] s
