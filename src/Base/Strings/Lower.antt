-- ===== src/Base/Strings/Lower.antt =====
-- strings.ToLower. An ASCII text is mapped byte by byte; of other texts the tables of package
-- unicode decide, which are a parameter: the instance `Unicode`.
use homelab_api.Base.Tests.{leb, ltb, if◌then◌else◌}
use homelab_api.Base.Lists.{all}
use homelab_api.Base.Strings.{Text}
use Prim.Native.Nat.{ℕ, ◌+◌}
use mathlib.Core.Bool.{Bool, ◌&&◌}
use mathlib.Core.List.{map}

-- ToLower on the texts that are not ASCII.
pub record Unicode : Type 0 where
  pub lower : Text → Text

unfoldable pub lower_byte : ℕ → ℕ
lower_byte b = if leb b'A' b && leb b b'Z' then b + 32 else b

abbrev pub is_ascii : Text → Bool
is_ascii s = all (λ b. ltb b 128) s

unfoldable pub to_lower : ⦃u : Unicode⦄ → Text → Text
unfolding lower_byte
to_lower ⦃u⦄ s = if is_ascii s then map lower_byte s else u.lower s
