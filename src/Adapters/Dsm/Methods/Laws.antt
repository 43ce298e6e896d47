-- ===== src/Adapters/Dsm/Methods/Laws.antt =====
-- internal/adapters/synology.go: which errors of the container methods say that it was not found.
use homelab_api.Base.{Text, true, false, ◌≡◌, ◌≢◌, ◌↔◌, ◌⊎◌, inl, inr, refl, ap, Bool-cases}
use homelab_api.Base.Int.{pos, int_eq, int_eq_iff}
use homelab_api.Base.Result.{wrap, err_not_found}
use homelab_api.Adapters.Dsm.{DsmError, api_error, other, error_of}
use homelab_api.Adapters.Dsm.Methods.{map_container_not_found}

-- Whether errors.Is finds ErrNotFound in an error of a container method: if the DSM's code is 117, or
-- if it does in the error of Call.
not_found-map_container_not_found :
    (name : Text) (e : DsmError)
    → ((error_of (map_container_not_found name e)).not_found ≡ true)
      ↔ (((api : Text) × (e ≡ api_error api (pos 117))) ⊎ ((error_of e).not_found ≡ true))
unfolding map_container_not_found error_of wrap err_not_found
not_found-map_container_not_found name (other e) = (λ h. inr h, from)
  where
    from :
        ((api : Text) × (other e ≡ api_error api (pos 117))) ⊎ (e.not_found ≡ true)
        → e.not_found ≡ true
    from (inl (api, bad)) = cc
    from (inr h) = h
not_found-map_container_not_found name (api_error api code) =
    elim (Bool-cases (int_eq code (pos 117))) [
      | inl y ↦ rw y ((λ h. inl (api, ap (api_error api) ((int_eq_iff _ _).0 y))), (λ h. refl))
      | inr n ↦ rw n ((λ h. cc), different n)
    ]
  where
    different :
        int_eq code (pos 117) ≡ false
        → ((other_api : Text) × (api_error api code ≡ api_error other_api (pos 117)))
          ⊎ (false ≡ true)
        → false ≡ true
    different n (inr h) = h
    different n (inl (other_api, e)) = let c : code ≡ pos 117 = cc in cc (rw c at n)

unchanged :
    (name : Text) (e : DsmError)
    → ((api : Text) → e ≢ api_error api (pos 117))
    → map_container_not_found name e ≡ e
unfolding map_container_not_found
unchanged name (other e) h = refl
unchanged name (api_error api code) h = elim (Bool-cases (int_eq code (pos 117))) [
  | inl y ↦ absurd (h api (ap (api_error api) ((int_eq_iff _ _).0 y)))
  | inr n ↦ rw n refl
]

-- An error of a container method is ErrNotFound to errors.Is exactly if it is the DSM's error of code
-- 117 or if the error of Call was; and every error but the DSM's of code 117 stays what it was, its
-- code and its message included.
pub map_container_not_found_lem :
    (name : Text) (e : DsmError)
    → (((error_of (map_container_not_found name e)).not_found ≡ true)
        ↔ (((api : Text) × (e ≡ api_error api (pos 117))) ⊎ ((error_of e).not_found ≡ true)))
      × (((api : Text) → e ≢ api_error api (pos 117)) → map_container_not_found name e ≡ e)
map_container_not_found_lem name e = (not_found-map_container_not_found name e, unchanged name e)
