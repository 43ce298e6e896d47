-- ===== src/Adapters/Registry/Laws.antt =====
-- The registry answers like the map it was built from, in an order that the map's iteration order
-- does not change.
use mathlib.Core.List.{Permᴰ}
use homelab_api.Base.{
  Text, ◌==◌, ==_iff, ==_refl, some, none, List, [], ◌∷◌, if◌then◌else◌, ◌≡◌, ◌≢◌, refl, sym, ap,
  ◌∙◌, subst, arith, true, All, Distinct, In, All-In, In-map, ==-false, map, Bool-cases, inl, inr,
}
use homelab_api.Base.Dict.{Dict, lookup, keys, lookup-none}
use homelab_api.Base.Strings.Order.{text_lt, text_lt_trans, text_lt_asym, text_lt_total}
use homelab_api.Adapters.Registry.{BackendEntry, Registry, insert_sorted, new_registry, find}

module _ {ℓ} {T : Type ℓ} where
  -- Every name comes before all later ones.
  abbrev pub IsSorted : Registry T → Type 0
  IsSorted [] = Unit
  IsSorted (x ∷ xs) = All (λ y. text_lt x.name y.name ≡ true) xs × IsSorted xs

  find-insert_sorted :
      (e : BackendEntry T) (r : Registry T) (name : Text)
      → find r e.name ≡ none
      → find (insert_sorted e r) name ≡ (if e.name == name then some e.backend else find r name)
  unfolding find insert_sorted
  find-insert_sorted e [] name h = refl
  find-insert_sorted e (x ∷ xs) name h = ground (
    arith,
    find-insert_sorted e xs name,
    ==_iff x.name e.name,
    ==_iff x.name name,
    ==_iff e.name name,
  )

  -- Find on a new registry is the map's lookup.
  pub find-new_registry :
      (m : Dict T) (name : Text) → Distinct (keys m) → find (new_registry m) name ≡ lookup name m
  unfolding new_registry lookup find
  find-new_registry [] name h = refl
  find-new_registry ((k, v) ∷ m) name (n, h) =
      find-insert_sorted (record { name = k; backend = v }) (new_registry m) name
        (find-new_registry m k h ∙ lookup-none k m n)
      ∙ ground (arith, find-new_registry m name h)

  All-insert_sorted {κ} :
      (P : BackendEntry T → Type κ) (e : BackendEntry T) (r : Registry T)
      → P e
      → All P r
      → All P (insert_sorted e r)
  unfolding insert_sorted
  All-insert_sorted P e [] p h = (p, tt)
  All-insert_sorted P e (x ∷ xs) p (q, h) = elim (Bool-cases (text_lt e.name x.name)) [
    | inl y ↦ rw y (p, (q, h))
    | inr n ↦ rw n (q, All-insert_sorted P e xs p h)
  ]

  All-later :
      (a b : Text) (r : Registry T)
      → text_lt a b ≡ true
      → All (λ y. text_lt b y.name ≡ true) r
      → All (λ y. text_lt a y.name ≡ true) r
  All-later a b [] l h = tt
  All-later a b (x ∷ xs) l (p, h) = (text_lt_trans a b x.name l p, All-later a b xs l h)

  insert_sorted-IsSorted :
      (e : BackendEntry T) (r : Registry T)
      → All (λ y. e.name ≢ y.name) r
      → IsSorted r
      → IsSorted (insert_sorted e r)
  unfolding insert_sorted
  insert_sorted-IsSorted e [] d s = (tt, tt)
  insert_sorted-IsSorted e (x ∷ xs) (ne, d) (p, s) = elim (Bool-cases (text_lt e.name x.name)) [
    | inl y ↦ rw y ((y, All-later e.name x.name xs y p), (p, s))
    | inr n ↦ rw n (
      All-insert_sorted (λ y. text_lt x.name y.name ≡ true) e xs (text_lt_total e.name x.name ne n)
          p,
      insert_sorted-IsSorted e xs d s,
    )
  ]

  All-new_registry {κ} :
      (P : Text → Type κ) (m : Dict T) → All P (keys m) → All (λ y. P y.name) (new_registry m)
  unfolding new_registry
  All-new_registry P [] h = tt
  All-new_registry P ((k, v) ∷ m) (p, h) =
      All-insert_sorted (λ y. P y.name) (record { name = k; backend = v }) (new_registry m) p
        (All-new_registry P m h)

  -- A new registry is sorted strictly by name.
  pub new_registry-IsSorted : (m : Dict T) → Distinct (keys m) → IsSorted (new_registry m)
  unfolding new_registry
  new_registry-IsSorted [] h = tt
  new_registry-IsSorted ((k, v) ∷ m) (n, h) =
      insert_sorted-IsSorted (record { name = k; backend = v }) (new_registry m)
        (All-new_registry (λ j. k ≢ j) m n) (new_registry-IsSorted m h)

  insert_sorted_comm :
      (a b : BackendEntry T) (r : Registry T)
      → a.name ≢ b.name
      → insert_sorted a (insert_sorted b r) ≡ insert_sorted b (insert_sorted a r)
  unfolding insert_sorted
  insert_sorted_comm a b [] n =
      ground (arith, text_lt_total a.name b.name n, text_lt_asym a.name b.name)
  insert_sorted_comm a b (x ∷ xs) n = ground (
    arith,
    insert_sorted_comm a b xs n,
    text_lt_total a.name b.name n,
    text_lt_asym a.name b.name,
    text_lt_trans a.name b.name x.name,
    text_lt_trans b.name a.name x.name,
  )

module _ {T : Type 0} where
  All-perm {κ} : (P : Text → Type κ) {m m' : Dict T} → Permᴰ m m' → All P (keys m) → All P (keys m')
  All-perm P Permᴰ.nil h = tt
  All-perm P (Permᴰ.cons e p) (q, h) = (subst (λ x. P x.0) e q, All-perm P p h)
  All-perm P (Permᴰ.swap e f) (q, (r, h)) = (subst (λ x. P x.0) f r, (subst (λ x. P x.0) e q, h))
  All-perm P (Permᴰ.trans p q) h = All-perm P q (All-perm P p h)

  Distinct-perm : {m m' : Dict T} → Permᴰ m m' → Distinct (keys m) → Distinct (keys m')
  Distinct-perm Permᴰ.nil h = tt
  Distinct-perm (Permᴰ.cons {l₂ = l} e p) (n, h) =
      (subst (λ x. All (λ j. x.0 ≢ j) (keys l)) e (All-perm (λ j. _ ≢ j) p n), Distinct-perm p h)
  Distinct-perm (Permᴰ.trans p q) h = Distinct-perm q (Distinct-perm p h)
  Distinct-perm (Permᴰ.swap {a} {b} {a'} {b'} {l} e f) ((ab, n), (k, h)) =
      subst (λ (x : Text × T). Distinct (keys (x ∷ b' ∷ l))) f
        (subst (λ (x : Text × T). Distinct (keys (b ∷ x ∷ l))) e ((λ r. ab (sym r), k), (n, h)))

  insert_entry : Text × T → Registry T → Registry T
  insert_entry p r = insert_sorted (record { name = p.0; backend = p.1 }) r

  -- The order in which the map is iterated does not change the registry.
  pub new_registry-perm :
      {m m' : Dict T} → Permᴰ m m' → Distinct (keys m) → new_registry m ≡ new_registry m'
  unfolding new_registry insert_entry
  new_registry-perm Permᴰ.nil h = refl
  new_registry-perm (Permᴰ.cons {b = b} {l₁ = l} e p) (n, h) =
      ap (λ x. insert_entry x (new_registry l)) e ∙ ap (insert_entry b) (new_registry-perm p h)
  new_registry-perm (Permᴰ.swap {a} {b} {a'} {b'} {l} e f) ((ab, n), h) =
      insert_sorted_comm (record { name = a.0; backend = a.1 })
        (record { name = b.0; backend = b.1 }) (new_registry l) ab
      ∙ ap (λ x. insert_entry x (insert_entry a (new_registry l))) f
      ∙ ap (λ x. insert_entry a' (insert_entry x (new_registry l))) e
  new_registry-perm (Permᴰ.trans p q) h =
      new_registry-perm p h ∙ new_registry-perm q (Distinct-perm p h)

abbrev pub names {ℓ} : {T : Type ℓ} → Registry T → List Text
names r = map (λ e. e.name) r

-- A backend of a registry whose names differ is found by its name.
pub find-In :
    {T : Type 0} (r : Registry T) (e : BackendEntry T)
    → Distinct (names r)
    → In e r
    → find r e.name ≡ some e.backend
unfolding find
find-In [] e d i = absurd i
find-In (x ∷ r) e d (inl p) = rw (← p) (rw (==_refl x.name) refl)
find-In (x ∷ r) e (fresh, d) (inr i) =
    rw
      (==-false x.name e.name
        (All-In (λ n. x.name ≢ n) (names r) e.name fresh (In-map (λ y. y.name) e r i)))
      (find-In r e d i)
