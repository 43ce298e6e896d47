-- ===== src/Base/Action/Inversion.antt =====
-- What a method that has succeeded went through, one step of its do block at a time.
use mathlib.Core.Path.{◌≡◌, refl}
use mathlib.Core.Bool.{Bool, true, false}
use mathlib.Core.List.{List}
use homelab_api.Base.Result.{Part, Result, ok, err}
use homelab_api.Base.Action.{
  Outcome, good, bad, map_error, proceed, Stateful, mapping, ◌>>=◌, ◌>>◌, from_result, test,
}

module _ {S : Type 0} where
  abbrev pub Succeeds : {E A : Type 0} → Stateful S E A → S → A → S → Type 0
  Succeeds m s a t = m s ≡ (good a, t)

  proceed_inv :
      {E A B : Type 0} (f : A → Stateful S E B) (r : Outcome E A × S) (b : B) (t : S)
      → proceed f r ≡ (good b, t)
      → (a : A) × (u : S) × (r ≡ (good a, u)) × Succeeds (f a) u b t
  proceed_inv f (good a, u) b t h = (a, u, refl, h)
  proceed_inv f (bad e, u) b t h = cc

  pub bind_inv :
      {E A B : Type 0} (m : Stateful S E A) (f : A → Stateful S E B) (s : S) (b : B) (t : S)
      → Succeeds (m >>= f) s b t
      → (a : A) × (u : S) × Succeeds m s a u × Succeeds (f a) u b t
  unfolding ◌>>=◌
  bind_inv m f s b t h = proceed_inv f (m s) b t h

  pub then_inv :
      {E A B : Type 0} (m : Stateful S E A) (k : Stateful S E B) (s : S) (b : B) (t : S)
      → Succeeds (m >> k) s b t
      → (a : A) × (u : S) × Succeeds m s a u × Succeeds k u b t
  unfolding ◌>>◌
  then_inv m k s b t h = bind_inv m (λ _. k) s b t h

  map_error_inv :
      {E F A : Type 0} (f : E → F) (r : Outcome E A × S) (a : A) (t : S)
      → ◌≡◌ {A = Outcome F A × S} (map_error f r.0, r.1) (good a, t)
      → r ≡ (good a, t)
  map_error_inv f (good a', u) a t h = cc
  map_error_inv f (bad e, u) a t h = cc

  pub mapping_inv :
      {E F A : Type 0} (f : E → F) (m : Stateful S E A) (s : S) (a : A) (t : S)
      → Succeeds (mapping f m) s a t
      → Succeeds m s a t
  unfolding mapping
  mapping_inv f m s a t h = map_error_inv f (m s) a t h

  pub test_inv :
      {E : Type 0} (b : Bool) (e : E) (s : S) (u : Unit) (t : S)
      → Succeeds (test b e) s u t
      → (b ≡ true) × (s ≡ t)
  unfolding test
  test_inv true e s u t h = (refl, cc)
  test_inv false e s u t h = cc

  pub from_result_inv :
      {A : Type 0} (prefix : List Part) (r : Result A) (s : S) (a : A) (t : S)
      → Succeeds (from_result prefix r) s a t
      → (r ≡ ok a) × (s ≡ t)
  unfolding from_result
  from_result_inv prefix (ok a') s a t h = (cc, cc)
  from_result_inv prefix (err e) s a t h = cc
