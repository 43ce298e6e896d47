-- ===== src/Base/Action/Cost.antt =====
-- What a method costs: a relation between the states before and after it, by a number that adds up
-- along a do block.
use Prim.Native.Nat.{ℕ, ◌+◌, ◌≤◌}
use mathlib.Core.Bool.{Bool, true, false}
use mathlib.Core.List.{List}
use native.Mathlib.Omega.{arith}
use homelab_api.Base.Result.{Part, Result, ok, err}
use homelab_api.Base.Action.{
  Outcome, good, bad, proceed, Stateful, pure, mapping, ◌>>=◌, ◌>>◌, from_result, test,
}

pub record Cost (S : Type 0) : Type 1 where
  pub within : ℕ → S → S → Type 0
  pub still : (s : S) → within 0 s s
  pub adds : (m n : ℕ) (s t u : S) → within m s t → within n t u → within (m + n) s u
  pub weaken : (m n : ℕ) (s t : S) → m ≤ n → within m s t → within n s t

module _ {S : Type 0} (cost : Cost S) where
  abbrev pub Runs : {E A : Type 0} → ℕ → Stateful S E A → Type 0
  Runs n m = (s : S) → cost.within n s (m s).1

  pub Runs-mapping :
      {E F A : Type 0} (n : ℕ) (f : E → F) (m : Stateful S E A) → Runs n m → Runs n (mapping f m)
  unfolding mapping
  Runs-mapping n f m h s = h s

  within-proceed :
      {E A B : Type 0} (k n : ℕ) (s : S) (f : A → Stateful S E B) (r : Outcome E A × S)
      → cost.within k s r.1
      → ((a : A) → Runs n (f a))
      → cost.within (k + n) s (proceed f r).1
  within-proceed k n s f (good a, t) w g = cost.adds k n s t (f a t).1 w (g a t)
  within-proceed k n s f (bad e, t) w g = cost.weaken k (k + n) s t (omega arith) w

  pub Runs-bind :
      {E A B : Type 0} (k n : ℕ) (m : Stateful S E A) (f : A → Stateful S E B)
      → Runs k m
      → ((a : A) → Runs n (f a))
      → Runs (k + n) (m >>= f)
  unfolding ◌>>=◌
  Runs-bind k n m f h g s = within-proceed k n s f (m s) (h s) g

  pub Runs-then :
      {E A B : Type 0} (k n : ℕ) (m : Stateful S E A) (next : Stateful S E B)
      → Runs k m
      → Runs n next
      → Runs (k + n) (m >> next)
  unfolding ◌>>◌
  Runs-then k n m next h g = Runs-bind k n m (λ _. next) h (λ _. g)

  pub Runs-pure : (E : Type 0) {A : Type 0} (a : A) → Runs {E = E} 0 (pure a)
  unfolding pure
  Runs-pure E a s = cost.still s

  pub Runs-test : {E : Type 0} (b : Bool) (e : E) → Runs 0 (test b e)
  unfolding test
  Runs-test true e s = cost.still s
  Runs-test false e s = cost.still s

  pub Runs-from_result :
      {A : Type 0} (prefix : List Part) (r : Result A) → Runs 0 (from_result prefix r)
  unfolding from_result
  Runs-from_result prefix (ok a) s = cost.still s
  Runs-from_result prefix (err e) s = cost.still s
