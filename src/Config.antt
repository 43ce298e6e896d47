-- ===== src/Config.antt =====
-- internal/config: the configuration that config.yaml holds, its validation and ByType.
-- Reading the file, expanding the environment and the YAML decoder are outside: `validate` starts
-- from the decoded value.
pub mod Laws
mod Tests
use homelab_api.Base.{
  Text, lit, ◌==◌, ◌&&◌, ◌||◌, not, Bool, ℕ, ◌+◌, if◌then◌else◌, Option, some, none, List, [], ◌∷◌,
  filter,
}
use homelab_api.Base.Int.{ℤ}
use homelab_api.Base.Dict.{Dict, insert, flag}

pub record Backend : Type 0 where
  pub name : Text
  pub type : Text
  pub host : Text
  pub username : Text
  pub password : Text
  pub api_key : Text
  pub auth_version : Text
  pub insecure_tls : Bool
  pub client_history_days : ℤ
  pub timezone : Text

pub record Auth : Type 0 where
  pub enabled : Bool
  pub scopes_enabled : Bool
  pub issuer : Text
  pub audience : Text

pub record Dex : Type 0 where
  pub url : Text

pub record ImageSourceConfig : Type 0 where
  pub image : Text
  pub source : Text
  pub type : Text

-- `check_interval` is a time.Duration in nanoseconds.
pub record UpdatesConfig : Type 0 where
  pub sources : List ImageSourceConfig
  pub check_interval : ℤ

pub record Config : Type 0 where
  pub auth : Auth
  pub dex : Dex
  pub backends : List Backend
  pub updates : UpdatesConfig

-- The errors of `validate`, one for each message; `at` is the index of the backend in the file.
pub data Invalid : Type 0 where
  issuer_required dex_url_required no_backends : Invalid
  name_required : (at : ℕ) → Invalid
  duplicate_name : (at : ℕ) → Text → Invalid
  unknown_type : (name type : Text) → Invalid
  host_required username_required password_required : (name : Text) → Invalid

-- BackendTypeSynology and BackendTypeUniFi
unfoldable pub is_synology : Text → Bool
is_synology t = t == lit "synology"

unfoldable pub is_unifi : Text → Bool
is_unifi t = t == lit "unifi"

-- The tests on the credentials.
check_login : Backend → Option Invalid
check_login b =
    if is_unifi b.type && not (b.api_key == [])
    then none
    else if b.username == []
    then some (username_required b.name)
    else if b.password == []
    then some (password_required b.name)
    else none

-- The loop body, without the entry in `seen`.
check_backend : ℕ → Dict Bool → Backend → Option Invalid
unfolding check_login is_synology is_unifi
check_backend i seen b =
    if b.name == []
    then some (name_required i)
    else if flag b.name seen
    then some (duplicate_name i b.name)
    else if not (is_synology b.type || is_unifi b.type)
    then some (unknown_type b.name b.type)
    else if b.host == []
    then some (host_required b.name)
    else check_login b

check_backends : ℕ → Dict Bool → List Backend → Option Invalid
check_backends i seen [] = none
check_backends i seen (b ∷ bs) =
    let rest = check_backends (i + 1) (insert b.name Bool.true seen) bs in
    elim (check_backend i seen b) [ some e ↦ some e | none ↦ rest ]

check_auth : Config → Option Invalid
check_auth c =
    if c.auth.enabled
    then if c.auth.issuer == []
      then some issuer_required
      else if c.dex.url == []
      then some dex_url_required
      else none
    else none

-- The test on the number of backends, and the loop over them.
check_list : List Backend → Option Invalid
check_list [] = some no_backends
check_list (b ∷ bs) = check_backends 0 [] (b ∷ bs)

-- `none` is the nil error.
pub validate : Config → Option Invalid
unfolding check_auth check_list
validate c = elim (check_auth c) [ some e ↦ some e | none ↦ check_list c.backends ]

-- ByType
unfoldable pub by_type : Config → Text → List Backend
by_type c t = filter (λ (b : Backend). b.type == t) c.backends
