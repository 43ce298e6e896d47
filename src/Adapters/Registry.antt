-- ===== src/Adapters/Registry.antt =====
-- internal/adapters/registry.go: the backends of a domain, sorted by name.
pub mod Laws
mod Tests
use homelab_api.Base.{Text, ◌==◌, Option, some, none, List, [], ◌∷◌, if◌then◌else◌}
use homelab_api.Base.Dict.{Dict}
use homelab_api.Base.Strings.Order.{text_lt}

pub record BackendEntry {ℓ} (T : Type ℓ) : Type ℓ where
  pub name : Text
  pub backend : T

abbrev pub Registry {ℓ} : Type ℓ → Type ℓ
Registry T = List (BackendEntry T)

module _ {ℓ} {T : Type ℓ} where
  -- One step of sort.Slice by name. Which sorting algorithm runs does not show: the names are a
  -- map's keys, so they differ, and the sorted list is unique (Registry/Laws).
  insert_sorted : BackendEntry T → Registry T → Registry T
  insert_sorted e [] = e ∷ []
  insert_sorted e (x ∷ xs) =
      let later = x ∷ insert_sorted e xs in if text_lt e.name x.name then e ∷ x ∷ xs else later

  -- `m` is the map in the order in which `range` happens to yield it.
  pub new_registry : Dict T → Registry T
  unfolding insert_sorted
  new_registry [] = []
  new_registry ((name, backend) ∷ m) =
      insert_sorted (record { name = name; backend = backend }) (new_registry m)

  pub find : Registry T → Text → Option T
  find [] name = none
  find (entry ∷ r) name = if entry.name == name then some entry.backend else find r name
