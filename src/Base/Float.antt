-- ===== src/Base/Float.antt =====
-- Go's float64, for the values that the backends report: finite, with at most three decimals, and
-- inside the range of int64 when truncated. Such a value is a number of thousandths.
use Prim.Native.Nat.{ℕ, zero, suc, ◌+◌, ◌/◌}
use mathlib.Core.Bool.{Bool}
use homelab_api.Base.Int.{ℤ, pos, negsuc}
use homelab_api.Base.Strings.{Text}

pub record Float64 : Type 0 where
  pub thousandths : ℤ

-- -n
abbrev pub neg : ℕ → ℤ
neg zero = pos zero
neg (suc n) = negsuc n

-- int(f), int64(f): toward zero.
unfoldable pub truncate : Float64 → ℤ
truncate f = elim f.thousandths [ pos n ↦ pos (n / 1000) | negsuc n ↦ neg ((n + 1) / 1000) ]

-- A field of type `any` after decoding JSON; arrays and objects are `other`.
pub data Any : Type 0 where
  null other : Any
  bool : Bool → Any
  number : Float64 → Any
  string : Text → Any
