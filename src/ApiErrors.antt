-- ===== src/ApiErrors.antt =====
-- internal/apierrors: composite IDs and problem responses.
pub mod Laws
mod Tests
use homelab_api.Base.{Text, lit, ◌==◌, ◌||◌, if◌then◌else◌, List, [], ◌∷◌, ℕ}
use homelab_api.Base.Strings.{split_n}
use homelab_api.Base.Result.{Part, plain, quoted, Result, ok, err, wrap, err_not_found}

-- `fmt.Errorf("invalid %s %q: expected format %s: %w", what, id, format, ErrNotFound)`
invalid_id : Text → Text → Text → Result (Text × Text)
invalid_id id what format = err (
    wrap
      (plain (lit "invalid ")
        ∷ plain what
        ∷ plain (lit " ")
        ∷ quoted id
        ∷ plain (lit ": expected format ")
        ∷ plain format
        ∷ [])
      err_not_found)

-- The test on the parts; `otherwise` is the error.
checked_parts : List Text → Result (Text × Text) → Result (Text × Text)
checked_parts (device ∷ suffix ∷ []) otherwise =
    if device == [] || suffix == [] then otherwise else ok (device, suffix)
checked_parts parts otherwise = otherwise

pub parse_composite_id : Text → Text → Text → Result (Text × Text)
unfolding invalid_id checked_parts
parse_composite_id id what format = checked_parts (split_n 2 b'.' id) (invalid_id id what format)

-- The body that WriteProblem writes; `status` is the response's status too.
pub record Problem : Type 0 where
  pub type : Text
  pub title : Text
  pub status : ℕ
  pub detail : List Part

unfoldable pub write_problem : ℕ → Text → Text → List Part → Problem
write_problem status urn title detail = record {
  type = urn;
  title = title;
  status = status;
  detail = detail;
}
