-- ===== src/Adapters/Registry/Tests.antt =====
-- Two backends in both orders of the map.
use mathlib.Core.List.{Permᴰ}
use homelab_api.Base.{lit, ◌≡◌, refl, [], ◌∷◌, Distinct, ℕ}
use homelab_api.Base.Dict.{Dict, lookup, keys}
use homelab_api.Adapters.Registry.{new_registry, find}
use homelab_api.Adapters.Registry.Laws.{
  IsSorted, find-new_registry, new_registry-IsSorted, new_registry-perm,
}

abbrev two : Dict ℕ
two = (lit "nas", 1) ∷ (lit "attic", 2) ∷ []

abbrev two_swapped : Dict ℕ
two_swapped = (lit "attic", 2) ∷ (lit "nas", 1) ∷ []

two-Distinct : Distinct (keys two)
unfolding lit
two-Distinct = ((λ e. cc, tt), (tt, tt))

find-new_registry_example : find (new_registry two) (lit "attic") ≡ lookup (lit "attic") two
find-new_registry_example = find-new_registry two (lit "attic") two-Distinct

new_registry-IsSorted_example : IsSorted (new_registry two)
new_registry-IsSorted_example = new_registry-IsSorted two two-Distinct

new_registry-perm_example : new_registry two ≡ new_registry two_swapped
new_registry-perm_example = new_registry-perm (Permᴰ.swap refl refl) two-Distinct
