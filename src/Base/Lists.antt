-- ===== src/Base/Lists.antt =====
-- Lists measured by native numbers, predicates over their elements, and Boolean searches.
use Prim.Native.Nat.{ℕ, zero, suc}
use mathlib.Core.Path.{◌≡◌, refl, sym, ap, ◌∙◌, subst}
use mathlib.Core.Logic.{◌⊎◌, ◌≢◌, inl, inr}
use mathlib.Core.Bool.{Bool, true, false, ◌&&◌, ◌||◌}
use mathlib.Core.Option.{Option, none, some}
use mathlib.Core.List.{List, [], ◌∷◌, ◌++◌, map}
use native.Mathlib.Omega.{arith}
use homelab_api.Base.Tests.{if◌then◌else◌, Bool-cases}

module _ {ℓ} {A : Type ℓ} where
  abbrev pub length : List A → ℕ
  length [] = 0
  length (x ∷ xs) = suc (length xs)

  abbrev pub any : (A → Bool) → List A → Bool
  any p [] = false
  any p (x ∷ xs) = p x || any p xs

  abbrev pub all : (A → Bool) → List A → Bool
  all p [] = true
  all p (x ∷ xs) = p x && all p xs

  -- The loop that returns the first element that passes a test.
  abbrev pub find : (A → Bool) → List A → Option A
  find p [] = none
  find p (x ∷ xs) = if p x then some x else find p xs

  -- The loop that keeps the elements that pass a test.
  abbrev pub filter : (A → Bool) → List A → List A
  filter p [] = []
  filter p (x ∷ xs) = if p x then x ∷ filter p xs else filter p xs

  abbrev pub take : ℕ → List A → List A
  take zero xs = []
  take (suc n) [] = []
  take (suc n) (x ∷ xs) = x ∷ take n xs

  abbrev pub drop : ℕ → List A → List A
  drop zero xs = xs
  drop (suc n) [] = []
  drop (suc n) (x ∷ xs) = drop n xs

module _ {ℓ κ} {A : Type ℓ} (P : A → Type κ) where
  abbrev pub All : List A → Type κ
  All [] = Unit
  All (x ∷ xs) = P x × All xs

  pub All-append : (xs ys : List A) → All xs → All ys → All (xs ++ ys)
  All-append [] ys _ hy = hy
  All-append (x ∷ xs) ys (px, hx) hy = (px, All-append xs ys hx hy)

-- No two elements are equal.
abbrev pub Distinct {ℓ} : {A : Type ℓ} → List A → Type ℓ
Distinct [] = Unit
Distinct (k ∷ ks) = All (λ j. k ≢ j) ks × Distinct ks

-- `a` stands in the list, at a place that the proof names.
abbrev pub In : {A : Type 0} → A → List A → Type 0
In a [] = ⊥
In a (x ∷ xs) = (x ≡ a) ⊎ In a xs

module _ {A : Type 0} where
  pub In-append_left : (a : A) (xs ys : List A) → In a xs → In a (xs ++ ys)
  In-append_left a [] ys h = absurd h
  In-append_left a (x ∷ xs) ys (inl e) = inl e
  In-append_left a (x ∷ xs) ys (inr h) = inr (In-append_left a xs ys h)

  pub In-append_right : (a : A) (xs ys : List A) → In a ys → In a (xs ++ ys)
  In-append_right a [] ys h = h
  In-append_right a (x ∷ xs) ys h = inr (In-append_right a xs ys h)

  pub In-append_cases : (a : A) (xs ys : List A) → In a (xs ++ ys) → In a xs ⊎ In a ys
  In-append_cases a [] ys h = inr h
  In-append_cases a (x ∷ xs) ys (inl e) = inl (inl e)
  In-append_cases a (x ∷ xs) ys (inr h) = elim (In-append_cases a xs ys h) [
    | inl l ↦ inl (inr l)
    | inr r ↦ inr r
  ]

  pub In-map : {B : Type 0} (f : A → B) (a : A) (xs : List A) → In a xs → In (f a) (map f xs)
  In-map f a (x ∷ xs) (inl e) = inl (ap f e)
  In-map f a (x ∷ xs) (inr h) = inr (In-map f a xs h)
  In-map f a [] h = absurd h

  pub In-map_inv :
      {B : Type 0} (f : A → B) (b : B) (xs : List A)
      → In b (map f xs)
      → (a : A) × In a xs × (f a ≡ b)
  In-map_inv f b [] h = absurd h
  In-map_inv f b (x ∷ xs) (inl e) = (x, inl refl, e)
  In-map_inv f b (x ∷ xs) (inr h) = let (a, i, e) = In-map_inv f b xs h in (a, inr i, e)

  pub In-filter_inv :
      (p : A → Bool) (a : A) (xs : List A) → In a (filter p xs) → In a xs × (p a ≡ true)
  In-filter_inv p a [] h = absurd h
  In-filter_inv p a (x ∷ xs) h = elim (Bool-cases (p x)) [
    | inl y ↦ at_kept (In-filter_inv p a xs) y (rw y at h)
    | inr n ↦ let (i, t) = In-filter_inv p a xs (rw n at h) in (inr i, t)
  ]
    where
      at_kept :
          (In a (filter p xs) → In a xs × (p a ≡ true))
          → p x ≡ true
          → In a (x ∷ filter p xs)
          → In a (x ∷ xs) × (p a ≡ true)
      at_kept rest y (inl e) = (inl e, sym (ap p e) ∙ y)
      at_kept rest y (inr h') = let (i, t) = rest h' in (inr i, t)

  -- A search that must succeed: some element of the list passes the test.
  pub find_of_In :
      (p : A → Bool) (a : A) (xs : List A)
      → In a xs
      → p a ≡ true
      → (b : A) × (find p xs ≡ some b) × In b xs × (p b ≡ true)
  find_of_In p a [] h t = absurd h
  find_of_In p a (x ∷ xs) (inl e) t = (x, rw (ap p e ∙ t) refl, inl refl, ap p e ∙ t)
  find_of_In p a (x ∷ xs) (inr h) t = elim (Bool-cases (p x)) [
    | inl y ↦ (x, rw y refl, inl refl, y)
    | inr n ↦ let (b, f, i, q) = find_of_In p a xs h t in (b, rw n f, inr i, q)
  ]

  -- What a search returns is in the list and passes the test.
  pub find-In : (p : A → Bool) (xs : List A) (b : A) → find p xs ≡ some b → In b xs × (p b ≡ true)
  find-In p [] b h = cc
  find-In p (x ∷ xs) b h = elim (Bool-cases (p x)) [
    | inl y ↦ let e : x ≡ b = ground arith in (inl e, sym (ap p e) ∙ y)
    | inr n ↦ let (i, t) = find-In p xs b (rw n at h) in (inr i, t)
  ]

  pub In-filter : (p : A → Bool) (a : A) (xs : List A) → In a xs → p a ≡ true → In a (filter p xs)
  In-filter p a [] h t = absurd h
  In-filter p a (x ∷ xs) (inl e) t = rw (ap p e ∙ t) (inl e)
  In-filter p a (x ∷ xs) (inr h) t = elim (Bool-cases (p x)) [
    | inl y ↦ rw y (inr (In-filter p a xs h t))
    | inr n ↦ rw n (In-filter p a xs h t)
  ]

  pub All_of_In : (P : A → Type 0) (xs : List A) → ((a : A) → In a xs → P a) → All P xs
  All_of_In P [] h = tt
  All_of_In P (x ∷ xs) h = (h x (inl refl), All_of_In P xs λ a i. h a (inr i))

  pub All-In : (P : A → Type 0) (xs : List A) (a : A) → All P xs → In a xs → P a
  All-In P [] a h i = absurd i
  All-In P (x ∷ xs) a (px, h) (inl e) = subst P e px
  All-In P (x ∷ xs) a (px, h) (inr i) = All-In P xs a h i

  pub All-imp : (P Q : A → Type 0) → ((a : A) → P a → Q a) → (xs : List A) → All P xs → All Q xs
  All-imp P Q g [] h = tt
  All-imp P Q g (x ∷ xs) (p, h) = (g x p, All-imp P Q g xs h)
