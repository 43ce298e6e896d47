-- ===== src/Base/Int.antt =====
-- Go's int and int64, as integers: `negsuc n` is -(n + 1). Where a sum or a product can leave 64 bits,
-- the wrap-around is written out with wrap_int64.
pub mod Decimal
pub mod Parse
use Prim.Native.Nat.{ℕ, zero, suc, ◌+◌, ◌-◌, ◌*◌, ◌%◌, ◌^◌, compare, Ordering}
use mathlib.Core.Path.{◌≡◌}
use mathlib.Core.Logic.{◌↔◌}
use mathlib.Core.Bool.{Bool, true, false}
use native.Mathlib.Omega.{arith}
use homelab_api.Base.Tests.{ltb, eqb, if◌then◌else◌}

pub data ℤ : Type 0 where
  pos : ℕ → ℤ
  negsuc : ℕ → ℤ

-- a == b on int
abbrev pub int_eq : ℤ → ℤ → Bool
int_eq (pos a) (pos b) = eqb a b
int_eq (pos a) (negsuc b) = false
int_eq (negsuc a) (pos b) = false
int_eq (negsuc a) (negsuc b) = eqb a b

-- a > 0
abbrev pub is_pos : ℤ → Bool
is_pos (pos zero) = false
is_pos (pos (suc n)) = true
is_pos (negsuc n) = false

pub int_eq_iff : (a b : ℤ) → (int_eq a b ≡ true) ↔ (a ≡ b)
int_eq_iff a b = ground arith

-- -n
abbrev pub negated : ℤ → ℤ
negated (pos zero) = pos zero
negated (pos (suc n)) = negsuc n
negated (negsuc n) = pos (suc n)

-- m - n on naturals
abbrev pub difference : ℕ → ℕ → ℤ
difference m n = elim (compare m n) [ Ordering.lt ↦ negsuc (n - m - 1) | _ ↦ pos (m - n) ]

-- a + b, without the wrap-around
abbrev pub int_add : ℤ → ℤ → ℤ
int_add (pos a) (pos b) = pos (a + b)
int_add (pos a) (negsuc b) = difference a (suc b)
int_add (negsuc a) (pos b) = difference b (suc a)
int_add (negsuc a) (negsuc b) = negsuc (suc (a + b))

-- a * b, without the wrap-around
abbrev pub int_mul : ℤ → ℤ → ℤ
int_mul (pos a) (pos b) = pos (a * b)
int_mul (pos a) (negsuc b) = negated (pos (a * suc b))
int_mul (negsuc a) (pos b) = negated (pos (suc a * b))
int_mul (negsuc a) (negsuc b) = pos (suc a * suc b)

-- int64 wraps around: the representative of n modulo 2 ^ 64 from -2 ^ 63 to 2 ^ 63 - 1
abbrev signed : ℕ → ℤ
signed n = if ltb n (2 ^ 63) then pos n else negsuc (2 ^ 64 - 1 - n)

unfoldable pub wrap_int64 : ℤ → ℤ
wrap_int64 (pos n) = signed (n % 2 ^ 64)
wrap_int64 (negsuc n) = signed (2 ^ 64 - 1 - n % 2 ^ 64)

-- a < b
abbrev pub int_lt : ℤ → ℤ → Bool
int_lt (pos a) (pos b) = ltb a b
int_lt (pos a) (negsuc b) = false
int_lt (negsuc a) (pos b) = true
int_lt (negsuc a) (negsuc b) = ltb b a
