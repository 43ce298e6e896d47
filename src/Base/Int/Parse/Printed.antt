-- ===== src/Base/Int/Parse/Printed.antt =====
-- A number that %d has printed is parsed again.
use Prim.Native.Nat.{ℕ, ◌+◌, ◌-◌, ◌*◌, ◌^◌, ◌<◌, ◌≤◌}
use mathlib.Core.Path.{◌≡◌, refl}
use mathlib.Core.Logic.{◌≢◌}
use mathlib.Core.Option.{some}
use mathlib.Core.List.{[], ◌∷◌}
use native.Mathlib.Omega.{arith}
use homelab_api.Base.Lists.{All}
use homelab_api.Base.Strings.{Text}
use homelab_api.Base.Int.{pos}
use homelab_api.Base.Int.Decimal.{
  format, format_nat, value, value-format_nat, IsDigit, format_nat-IsDigit, format-filled,
}
use homelab_api.Base.Int.Parse.{
  Parsed, is_digit, digits_value, unsigned, try_parse_int, checked_positive,
}

value-grows : (acc : ℕ) (s : Text) → acc ≤ value acc s
unfolding value
value-grows acc [] = omega arith
value-grows acc (c ∷ s) = omega (arith, value-grows (acc * 10 + (c - b'0')) s)

digits_value-value :
    (acc : ℕ) (s : Text)
    → All IsDigit s
    → value acc s < 2 ^ 64
    → digits_value acc s ≡ Parsed.value (value acc s)
unfolding digits_value value is_digit
digits_value-value acc [] h small = refl
digits_value-value acc (c ∷ s) (d, h) small =
    let n = acc * 10 + (c - b'0') in ground (arith, digits_value-value n s h small, value-grows n s)

-- A text of digits that is not empty, and its value.
try_parse_int-digits :
    (n : ℕ) (s : Text)
    → s ≢ []
    → All IsDigit s
    → value 0 s ≡ n
    → n < 2 ^ 63
    → try_parse_int s ≡ some (pos n)
unfolding try_parse_int unsigned checked_positive
try_parse_int-digits n [] filled h v small = absurd (filled refl)
try_parse_int-digits n (c ∷ s) filled (d, h) v small =
    ground (arith, digits_value-value 0 (c ∷ s) (d, h))

pub try_parse_int-format : (n : ℕ) → n < 2 ^ 63 → try_parse_int (format (pos n)) ≡ some (pos n)
unfolding format
try_parse_int-format n small =
    try_parse_int-digits n (format_nat n) (format-filled (pos n)) (format_nat-IsDigit n)
      (value-format_nat n) small
