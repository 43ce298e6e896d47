-- ===== src/Base/Action.antt =====
-- Go methods on a pointer that change their receiver: the state is passed on, also after an error.
pub mod Cost
pub mod Inversion
use mathlib.Core.Bool.{Bool, true, false}
use mathlib.Core.List.{List}
use homelab_api.Base.Result.{Part, Error, Result, ok, err, wrap}

pub data Outcome (E A : Type 0) : Type 0 where
  good : A → Outcome E A
  bad : E → Outcome E A

abbrev pub map_error : {E F A : Type 0} → (E → F) → Outcome E A → Outcome F A
map_error f (good a) = good a
map_error f (bad e) = bad (f e)

-- A call of a method: what it returns, and the state that it leaves.
abbrev pub Stateful : Type 0 → Type 0 → Type 0 → Type 0
Stateful S E A = S → Outcome E A × S

module _ {S E A : Type 0} where
  unfoldable pub pure : A → Stateful S E A
  pure a s = (good a, s)

  unfoldable pub raise : E → Stateful S E A
  raise e s = (bad e, s)

  -- `if err != nil { return …, wrapped err }`
  unfoldable pub mapping : {F : Type 0} → (E → F) → Stateful S E A → Stateful S F A
  mapping f m s = (map_error f (m s).0, (m s).1)

  -- `if err != nil { return …, err }`, and the rest of the method
  abbrev pub proceed : {B : Type 0} → (A → Stateful S E B) → Outcome E A × S → Outcome E B × S
  proceed f (good a, s) = f a s
  proceed f (bad e, s) = (bad e, s)

infixl 5 ◌>>=◌
unfoldable pub ◌>>=◌ : {S E A B : Type 0} → Stateful S E A → (A → Stateful S E B) → Stateful S E B
◌>>=◌ m f s = proceed f (m s)

infixl 5 ◌>>◌
unfoldable pub ◌>>◌ : {S E A B : Type 0} → Stateful S E A → Stateful S E B → Stateful S E B
m >> k = m >>= λ _. k

-- `if err != nil { return …, fmt.Errorf("prefix: %w", err) }`
unfoldable pub from_result : {S A : Type 0} → List Part → Result A → Stateful S Error A
from_result prefix (ok a) s = (good a, s)
from_result prefix (err e) s = (bad (wrap prefix e), s)

-- `if !b { return …, e }`
unfoldable pub test : {S E : Type 0} → Bool → E → Stateful S E Unit
test true e s = (good tt, s)
test false e s = (bad e, s)
