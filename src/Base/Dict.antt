-- ===== src/Base/Dict.antt =====
-- Go's maps with string keys. Iteration over a map is in no particular order: where the program
-- iterates, the module that does so takes the order of the entries as it stands and says what of
-- its result depends on it.
use mathlib.Core.Path.{◌≡◌, refl, ap, sym, ◌∙◌, subst}
use mathlib.Core.Logic.{◌≢◌, ◌⊎◌, inl, inr}
use mathlib.Core.Bool.{Bool, false}
use mathlib.Core.Option.{Option, none, some}
use mathlib.Core.List.{List, [], ◌∷◌, map}
use native.Mathlib.Omega.{arith}
use homelab_api.Base.Lists.{All, In, Distinct}
use homelab_api.Base.Tests.{if◌then◌else◌, Bool-cases}
use homelab_api.Base.Strings.{Text, ◌==◌, ==_iff, ==_refl, ==_sound}

abbrev pub Dict {ℓ} : Type ℓ → Type ℓ
Dict V = List (Text × V)

module _ {ℓ} {V : Type ℓ} where
  -- v, ok := m[key]
  unfoldable pub lookup : Text → Dict V → Option V
  lookup key [] = none
  lookup key ((first, value) ∷ rest) = if first == key then some value else lookup key rest

  -- m[key] = value
  unfoldable pub insert : Text → V → Dict V → Dict V
  insert key value [] = (key, value) ∷ []
  insert key value ((first, old) ∷ rest) =
      let later = (first, old) ∷ insert key value rest in
      if first == key then (key, value) ∷ rest else later

  pub lookup-insert :
      (key asked : Text) (value : V) (m : Dict V)
      → lookup asked (insert key value m) ≡ (if key == asked then some value else lookup asked m)
  unfolding insert lookup
  lookup-insert key asked value [] = refl
  lookup-insert key asked value ((first, old) ∷ rest) = ground (
    arith,
    lookup-insert key asked value rest,
    ==_iff first asked,
    ==_iff first key,
    ==_iff key asked,
  )

  pub lookup-insert_self :
      (key : Text) (value : V) (m : Dict V) → lookup key (insert key value m) ≡ some value
  lookup-insert_self key value m = simp (==_refl, lookup-insert)

  abbrev pub keys : Dict V → List Text
  keys m = map (λ p. p.0) m

  pub lookup-none : (k : Text) (m : Dict V) → All (λ j. k ≢ j) (keys m) → lookup k m ≡ none
  unfolding lookup
  lookup-none k [] h = refl
  lookup-none k ((j, v) ∷ m) (n, h) = ground (arith, ==_iff j k, lookup-none k m h)

-- The zero value of a map of flags is false: `m[k]`.
unfoldable pub flag : Text → Dict Bool → Bool
flag k m = elim (lookup k m) [ none ↦ false | some b ↦ b ]

pub flag-insert :
    (k j : Text) (b : Bool) (m : Dict Bool)
    → flag j (insert k b m) ≡ (if k == j then b else flag j m)
unfolding flag
flag-insert k j b m = ground (arith, lookup-insert k j b m)

pub flag-nil : (k : Text) → flag k [] ≡ false
unfolding flag lookup
flag-nil k = refl

-- `for _, x := range xs { m[key(x)] = x }`
index_from {ℓ} : {V : Type ℓ} → (V → Text) → List V → Dict V → Dict V
index_from key [] m = m
index_from key (x ∷ xs) m = index_from key xs (insert (key x) x m)

unfoldable pub index_by {ℓ} : {V : Type ℓ} → (V → Text) → List V → Dict V
unfolding index_from
index_by key xs = index_from key xs []

module _ {V : Type 0} (key : V → Text) where
  index_from_inv :
      (xs : List V) (m : Dict V) (k : Text) (x : V)
      → lookup k (index_from key xs m) ≡ some x
      → (In x xs × (key x ≡ k)) ⊎ (lookup k m ≡ some x)
  unfolding index_from
  index_from_inv [] m k x h = inr h
  index_from_inv (y ∷ xs) m k x h = elim (index_from_inv xs (insert (key y) y m) k x h) [
    | inl (i, e) ↦ inl (inr i, e)
    | inr before ↦ at_head (lookup-insert (key y) k y m) before
  ]
    where
      at_head :
          lookup k (insert (key y) y m) ≡ (if key y == k then some y else lookup k m)
          → lookup k (insert (key y) y m) ≡ some x
          → (In x (y ∷ xs) × (key x ≡ k)) ⊎ (lookup k m ≡ some x)
      at_head law before = elim (Bool-cases (key y == k)) [
        | inl t ↦
            let same : y ≡ x = ground (arith, law, before, t) in
            inl (inl same, sym (ap key same) ∙ ==_sound (key y) k t)
        | inr f ↦ inr (ground (arith, law, before, f))
      ]

  -- What an index finds is an element with that key.
  pub lookup-index_by :
      (xs : List V) (k : Text) (x : V) → lookup k (index_by key xs) ≡ some x → In x xs × (key x ≡ k)
  unfolding index_by lookup
  lookup-index_by xs k x h = elim (index_from_inv xs [] k x h) [ inl found ↦ found | inr e ↦ cc ]

  index_from-kept :
      (xs : List V) (m : Dict V) (k : Text) (x : V)
      → lookup k m ≡ some x
      → (y : V) × (lookup k (index_from key xs m) ≡ some y)
  unfolding index_from
  index_from-kept [] m k x h = (x, h)
  index_from-kept (y ∷ xs) m k x h = elim (Bool-cases (key y == k)) [
    | inl t ↦ index_from-kept xs (insert (key y) y m) k y (lookup-insert (key y) k y m ∙ rw t refl)
    | inr f ↦ index_from-kept xs (insert (key y) y m) k x (lookup-insert (key y) k y m ∙ rw f h)
  ]

  index_from-some :
      (xs : List V) (m : Dict V) (x : V)
      → In x xs
      → (y : V) × (lookup (key x) (index_from key xs m) ≡ some y)
  unfolding index_from
  index_from-some [] m x i = absurd i
  index_from-some (y ∷ xs) m x (inl e) =
      index_from-kept xs (insert (key y) y m) (key x) y
        (rw (ap key (sym e)) (lookup-insert_self (key y) y m))
  index_from-some (y ∷ xs) m x (inr i) = index_from-some xs (insert (key y) y m) x i

  -- Every element's key is found, with an element of that key: the last one.
  pub index_by-some :
      (xs : List V) (x : V) → In x xs → (y : V) × (lookup (key x) (index_by key xs) ≡ some y)
  unfolding index_by
  index_by-some xs x i = index_from-some xs [] x i

module _ {V : Type 0} (P : Text → Type 0) where
  All-keys-insert :
      (k : Text) (v : V) (m : Dict V) → P k → All P (keys m) → All P (keys (insert k v m))
  unfolding insert
  All-keys-insert k v [] p h = (p, tt)
  All-keys-insert k v ((j, w) ∷ m) p (q, h) = elim (Bool-cases (j == k)) [
    | inl y ↦ rw (y, insert) (p, h)
    | inr n ↦ rw (n, insert) (q, All-keys-insert k v m p h)
  ]

-- A map stays one when a key is assigned to.
pub insert-Distinct :
    {V : Type 0} (k : Text) (v : V) (m : Dict V)
    → Distinct (keys m)
    → Distinct (keys (insert k v m))
unfolding insert
insert-Distinct k v [] h = (tt, tt)
insert-Distinct k v ((j, w) ∷ m) (new, h) = elim (Bool-cases (j == k)) [
  | inl y ↦ rw (y, insert) (subst (λ x. All (λ i. x ≢ i) (keys m)) (==_sound j k y) new, h)
  | inr n ↦
      rw (n, insert)
        (
          All-keys-insert (λ i. j ≢ i) k v m (λ e. ground (arith, ==_iff j k)) new,
          insert-Distinct k v m h,
        )
]
