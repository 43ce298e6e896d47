-- ===== src/System/Images.antt =====
-- internal/system/updates_service.go: image references, version tags and release sources.
pub mod Laws
mod Tests
use homelab_api.Base.{
  Text, ◌==◌, lit, ℕ, Bool, true, false, ◌||◌, if◌then◌else◌, Option, some, none, List, [], ◌∷◌,
  ◌++◌, eqb, length, drop,
}
use homelab_api.Base.Strings.{has_prefix, trim_prefix, split_n}
use homelab_api.Base.Dict.{Dict, lookup}

-- Where releases of an image are published; an image without a source has the empty `repo`.
pub record ImageSource : Type 0 where
  pub repo : Text
  pub api_base : Text
  pub source_url : Text

-- s[:i] and s[i+1:] at strings.LastIndex(s, sep) for one byte, where there is one.
cut_last : ℕ → Text → Option (Text × Text)
cut_last sep [] = none
cut_last sep (b ∷ s) = elim (cut_last sep s) [
  | some (before, after) ↦ some (b ∷ before, after)
  | none ↦ if eqb b sep then some ([], s) else none
]

pub split_image_tag : Text → Text × Text
unfolding cut_last
split_image_tag image = elim (cut_last b':' image) [ none ↦ (image, []) | some p ↦ p ]

pub is_version_tag : Text → Bool
is_version_tag tag =
    if tag == [] || tag == lit "latest"
    then false
    else if has_prefix tag (lit "sha256:")
    then false
    else true

pub normalize_version : Text → Text
normalize_version v = trim_prefix v (lit "v")

-- The first two parts of what follows "ghcr.io/".
first_two : List Text → Option Text
first_two [] = none
first_two (a ∷ []) = none
first_two (a ∷ b ∷ rest) = some (a ++ b'/' ∷ b)

pub github_repo_from_ghcr : Text → Option Text
unfolding first_two
github_repo_from_ghcr image =
    if has_prefix image (lit "ghcr.io/")
    then first_two (split_n 3 b'/' (drop (length (lit "ghcr.io/")) image))
    else none

abbrev pub github_base_url : Text
github_base_url = lit "https://api.github.com"

abbrev pub codeberg_base_url : Text
codeberg_base_url = lit "https://codeberg.org/api/v1"

pub resolve_source : Dict ImageSource → Text → ImageSource
resolve_source sources image = elim (lookup image sources) [
  | some src ↦ src
  | none ↦ elim (github_repo_from_ghcr image) [
    | some repo ↦ record {
      repo = repo;
      api_base = github_base_url;
      source_url = lit "https://github.com/" ++ repo;
    }
    | none ↦ record { repo = []; api_base = []; source_url = lit "https://github.com" }
  ]
]
