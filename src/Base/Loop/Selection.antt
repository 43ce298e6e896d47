-- ===== src/Base/Loop/Selection.antt =====
-- Two loops over the same entries, of which one keeps only the items that pass a test.
use mathlib.Core.Path.{◌≡◌, refl, ap}
use mathlib.Core.Bool.{Bool, true, false}
use mathlib.Core.List.{List, [], ◌∷◌, ◌++◌}
use homelab_api.Base.Lists.{filter}
use homelab_api.Base.Strings.{Text}
use homelab_api.Base.Tests.{if◌then◌else◌}
use homelab_api.Base.Result.{Result, ok, err}
use homelab_api.Base.Loop.{Round, next, stop, skip, Logged, for_each, step, or_warn}

module _ {A : Type 0} (p : A → Bool) where
  kept-append :
      (b : Bool) (x : A) (all xs ys : List A)
      → all ≡ xs ++ ys
      → (if b then x ∷ all else all) ≡ (if b then x ∷ xs else xs) ++ ys
  kept-append true x all xs ys e = ap (λ (l : List A). x ∷ l) e
  kept-append false x all xs ys e = e

  pub filter-append : (xs ys : List A) → filter p (xs ++ ys) ≡ filter p xs ++ filter p ys
  filter-append [] ys = refl
  filter-append (x ∷ xs) ys =
      kept-append (p x) x (filter p (xs ++ ys)) (filter p xs) (filter p ys) (filter-append xs ys)

  -- The second round appends what passes the test of what the first appends.
  abbrev pub Selects : Round A → Round A → Type 0
  Selects (next items log) r = r ≡ next (filter p items) log
  Selects (stop e) r = ⊥

  pub Selects-guard :
      (skipped : Bool) (r r' : Round A)
      → Selects r r'
      → Selects (if skipped then skip else r) (if skipped then skip else r')
  Selects-guard true r r' h = refl
  Selects-guard false r r' h = h

  pub Selects-or_warn :
      {X : Type 0} (message subject : Text) (r : Result X) (body body' : X → Round A)
      → ((x : X) → Selects (body x) (body' x))
      → Selects (or_warn message subject r body) (or_warn message subject r body')
  Selects-or_warn message subject (ok x) body body' h = h x
  Selects-or_warn message subject (err e) body body' h = refl

  step_select :
      (r r' : Round A) (rest rest' : Logged (List A)) (more : List A)
      → Selects r r'
      → rest.result ≡ ok more
      → rest'.result ≡ ok (filter p more)
      → (all : List A) × ((step r rest).result ≡ ok all)
        × ((step r' rest').result ≡ ok (filter p all))
  step_select (stop e) r' rest rest' more h e1 e2 = absurd h
  step_select (next items log) r' rest rest' more h e1 e2 =
      (items ++ more, rw e1 refl, rw (h, e2, filter-append items more) refl)

  -- The items of the second loop are those of the first that pass the test.
  pub for_each_select :
      {E : Type 0} (body body' : E → Round A) (entries : List E)
      → ((entry : E) → Selects (body entry) (body' entry))
      → (all : List A) × ((for_each body entries).result ≡ ok all)
        × ((for_each body' entries).result ≡ ok (filter p all))
  unfolding for_each
  for_each_select body body' [] h = ([], refl, refl)
  for_each_select body body' (entry ∷ entries) h =
      let (all, e, e') = for_each_select body body' entries h in
      step_select (body entry) (body' entry) (for_each body entries) (for_each body' entries) all
        (h entry) e e'
