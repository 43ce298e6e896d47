-- ===== src/Base/Int/Parse.antt =====
-- strconv.ParseInt(s, 10, 64), for callers that take the value whether or not there is an error: a
-- text that is no number gives 0, and a number out of range the nearest int64.
pub mod Printed
use Prim.Native.Nat.{ℕ, ◌+◌, ◌-◌, ◌*◌, ◌^◌}
use mathlib.Core.Bool.{Bool, ◌&&◌, not}
use mathlib.Core.Option.{Option, none, some}
use mathlib.Core.List.{[], ◌∷◌}
use homelab_api.Base.Tests.{leb, ltb, eqb, if◌then◌else◌}
use homelab_api.Base.Strings.{Text}
use homelab_api.Base.Float.{neg}
use homelab_api.Base.Int.{ℤ, pos}

unfoldable pub is_digit : ℕ → Bool
is_digit c = leb b'0' c && leb c b'9'

-- What strconv.ParseUint makes of a text.
pub data Parsed : Type 0 where
  value : ℕ → Parsed
  syntax : Parsed
  range : Parsed

-- The value of digits behind those read so far; a value out of the range of a uint64 ends the search,
-- whatever follows.
unfoldable pub digits_value : ℕ → Text → Parsed
digits_value acc [] = value acc
digits_value acc (c ∷ s) =
    let n = acc * 10 + (c - b'0') in
    let rest = digits_value n s in
    if not (is_digit c) then syntax else if ltb n (2 ^ 64) then rest else range

unfoldable pub unsigned : Text → Parsed
unsigned [] = syntax
unsigned (c ∷ s) = digits_value 0 (c ∷ s)

positive : Parsed → ℤ
positive syntax = pos 0
positive range = pos (2 ^ 63 - 1)
positive (value n) = if ltb n (2 ^ 63) then pos n else pos (2 ^ 63 - 1)

negative : Parsed → ℤ
negative syntax = pos 0
negative range = neg (2 ^ 63)
negative (value n) = if leb n (2 ^ 63) then neg n else neg (2 ^ 63)

unfoldable pub parse_int : Text → ℤ
unfolding unsigned positive negative
parse_int [] = pos 0
parse_int (c ∷ s) =
    if eqb c b'-'
    then negative (unsigned s)
    else if eqb c b'+'
    then positive (unsigned s)
    else positive (unsigned (c ∷ s))

-- strconv.ParseInt(s, 10, 64), for callers that test for an error, which is none.
checked_positive : Parsed → Option ℤ
checked_positive syntax = none
checked_positive range = none
checked_positive (value n) = if ltb n (2 ^ 63) then some (pos n) else none

checked_negative : Parsed → Option ℤ
checked_negative syntax = none
checked_negative range = none
checked_negative (value n) = if leb n (2 ^ 63) then some (neg n) else none

unfoldable pub try_parse_int : Text → Option ℤ
unfolding checked_positive checked_negative
try_parse_int [] = none
try_parse_int (c ∷ s) =
    if eqb c b'-'
    then checked_negative (unsigned s)
    else if eqb c b'+'
    then checked_positive (unsigned s)
    else checked_positive (unsigned (c ∷ s))
