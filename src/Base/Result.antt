-- ===== src/Base/Result.antt =====
-- Go's `(T, error)` results. An error is its message and whether errors.Is finds ErrNotFound in its
-- chain: `fmt.Errorf("…: %w", err)` prefixes the message and keeps the chain.
use mathlib.Core.Path.{◌≡◌, refl}
use mathlib.Core.Logic.{◌⊎◌, inl, inr}
use mathlib.Core.Bool.{Bool, true}
use mathlib.Core.List.{List, [], ◌∷◌, ◌++◌}
use homelab_api.Base.Strings.{Text, lit}

-- A piece of a message: text as it is, or the argument of a verb %q, which fmt quotes.
pub data Part : Type 0 where
  plain quoted : Text → Part

pub record Error : Type 0 where
  pub message : List Part
  pub not_found : Bool

pub data Result {ℓ} (A : Type ℓ) : Type ℓ where
  ok : A → Result A
  err : Error → Result A

infixl 5 ◌>>=◌
abbrev pub ◌>>=◌ {ℓ κ} : {A : Type ℓ} {B : Type κ} → Result A → (A → Result B) → Result B
ok a >>= f = f a
err e >>= f = err e

-- `fmt.Errorf("prefix: %w", err)`
unfoldable pub wrap : List Part → Error → Error
wrap prefix e = record e { message = prefix ++ plain (lit ": ") ∷ e.message }

-- `if err != nil { return fmt.Errorf("prefix: %w", err) }`
abbrev pub wrapping {ℓ} : {A : Type ℓ} → List Part → Result A → Result A
wrapping prefix (ok a) = ok a
wrapping prefix (err e) = err (wrap prefix e)

-- apierrors.ErrNotFound
unfoldable pub err_not_found : Error
err_not_found = record { message = plain (lit "not found") ∷ []; not_found = true }

pub Result-cases {ℓ} :
    {A : Type ℓ} (r : Result A) → ((a : A) × (r ≡ ok a)) ⊎ ((e : Error) × (r ≡ err e))
Result-cases (ok a) = inl (a, refl)
Result-cases (err e) = inr (e, refl)
