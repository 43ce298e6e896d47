-- ===== src/Base/Int/Decimal.antt =====
-- The verb %d: decimal digits, and why two integers never print alike.
use Prim.Native.Nat.{ℕ, zero, suc, ◌+◌, ◌-◌, ◌*◌, ◌/◌, ◌%◌, ◌≤◌, ◌<◌}
use mathlib.Core.Path.{◌≡◌, refl, ap, sym, ◌∙◌}
use mathlib.Core.Logic.{◌≢◌}
use mathlib.Core.List.{[], ◌∷◌}
use native.Mathlib.Omega.{arith}
use homelab_api.Base.Lists.{All}
use homelab_api.Base.Strings.{Text}
use homelab_api.Base.Strings.Cut.{Lacks}
use homelab_api.Base.Int.{ℤ, pos, negsuc}

-- Each round writes the last digit in front and divides by ten; `n` rounds are enough.
digits : ℕ → ℕ → Text → Text
digits zero n out = out
digits (suc f) zero out = out
digits (suc f) (suc n) out = digits f (suc n / 10) ((b'0' + suc n % 10) ∷ out)

unfoldable pub format_nat : ℕ → Text
unfolding digits
format_nat zero = b'0' ∷ []
format_nat (suc n) = digits (suc n) (suc n) []

unfoldable pub format : ℤ → Text
unfolding format_nat
format (pos n) = format_nat n
format (negsuc n) = b'-' ∷ format_nat (n + 1)

unfoldable pub value : ℕ → Text → ℕ
value acc [] = acc
value acc (c ∷ s) = value (acc * 10 + (c - b'0')) s

value-digits : (f n : ℕ) (out : Text) → n ≤ f → value 0 (digits f n out) ≡ value n out
unfolding digits value
value-digits zero n out h = ap (λ (k : ℕ). value k out) (omega arith)
value-digits (suc f) zero out h = refl
value-digits (suc f) (suc n) out h =
    value-digits f (suc n / 10) ((b'0' + suc n % 10) ∷ out) (omega arith)
    ∙ ap (λ (k : ℕ). value k out) (omega arith)

pub value-format_nat : (n : ℕ) → value 0 (format_nat n) ≡ n
unfolding format_nat value
value-format_nat zero = refl
value-format_nat (suc n) = value-digits (suc n) (suc n) [] (omega arith)

abbrev pub IsDigit : ℕ → Type 0
IsDigit c = (b'0' ≤ c) × (c ≤ b'9')

digits-IsDigit : (f n : ℕ) (out : Text) → All IsDigit out → All IsDigit (digits f n out)
unfolding digits
digits-IsDigit zero n out h = h
digits-IsDigit (suc f) zero out h = h
digits-IsDigit (suc f) (suc n) out h =
    digits-IsDigit f (suc n / 10) ((b'0' + suc n % 10) ∷ out) (omega arith, h)

pub format_nat-IsDigit : (n : ℕ) → All IsDigit (format_nat n)
unfolding format_nat
format_nat-IsDigit zero = omega arith
format_nat-IsDigit (suc n) = digits-IsDigit (suc n) (suc n) [] tt

Lacks-digits_above : (sep : ℕ) (s : Text) → (b'9' < sep) → All IsDigit s → Lacks sep s
Lacks-digits_above sep [] h d = tt
Lacks-digits_above sep (c ∷ s) h (dc, d) = (omega arith, Lacks-digits_above sep s h d)

pub format-Lacks_colon : (n : ℤ) → Lacks b':' (format n)
unfolding format
format-Lacks_colon (pos n) = Lacks-digits_above b':' _ (omega arith) (format_nat-IsDigit n)
format-Lacks_colon (negsuc n) =
    (omega arith, Lacks-digits_above b':' _ (omega arith) (format_nat-IsDigit (n + 1)))

-- No printed number begins with a minus sign unless it is negative.
format_nat-ne-minus : (n : ℕ) (s : Text) → format_nat n ≢ b'-' ∷ s
format_nat-ne-minus n s e = absurd (at_head (format_nat n) s e (format_nat-IsDigit n))
  where
    at_head : (t s : Text) → t ≡ b'-' ∷ s → All IsDigit t → ⊥
    at_head [] s e d = cc
    at_head (c ∷ t) s e (dc, d) = ground arith

-- Two integers with the same decimal text are equal.
pub format_inj : (a b : ℤ) → format a ≡ format b → a ≡ b
unfolding format
format_inj (pos a) (pos b) e =
    ap pos (sym (value-format_nat a) ∙ ap (value 0) e ∙ value-format_nat b)
format_inj (pos a) (negsuc b) e = absurd (format_nat-ne-minus a _ e)
format_inj (negsuc a) (pos b) e = absurd (format_nat-ne-minus b _ (sym e))
format_inj (negsuc a) (negsuc b) e =
    let t : format_nat (a + 1) ≡ format_nat (b + 1) = cc in
    ap negsuc
      (omega (arith, sym (value-format_nat (a + 1)) ∙ ap (value 0) t ∙ value-format_nat (b + 1)))

format_nat-filled : (n : ℕ) → format_nat n ≢ []
unfolding value format_nat
format_nat-filled zero e = cc
format_nat-filled (suc n) e =
    let v : value 0 (format_nat (suc n)) ≡ suc n = value-format_nat (suc n) in
    let z : value 0 [] ≡ suc n = ap (value 0) (sym e) ∙ v in omega (arith, z)

-- A printed number is not empty.
pub format-filled : (n : ℤ) → format n ≢ []
unfolding format
format-filled (pos n) e = format_nat-filled n e
format-filled (negsuc n) e = cc
