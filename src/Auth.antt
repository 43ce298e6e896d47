-- ===== src/Auth.antt =====
-- internal/auth: the middleware that authenticates a request and checks its scopes.
-- The JWT library is a parameter: `parse_with_claims` is jwt.ParseWithClaims with the key function,
-- and returns the claims of a valid token. A handler's answer is not modelled; what matters is
-- whether it is called, and with which context.
pub mod Scopes
pub mod Laws
mod Tests
pub mod Protected
use homelab_api.Base.{
  Text, lit, ◌==◌, Bool, true, not, if◌then◌else◌, Option, some, none, List, [], ◌∷◌, ◌++◌,
}
use homelab_api.Base.Strings.{has_prefix, trim_prefix, join}
use homelab_api.Base.Dict.{Dict, insert, flag}
use homelab_api.Base.Result.{plain}
use homelab_api.Config.{Auth}
use homelab_api.ApiErrors.{Problem, write_problem}
use Scopes.{fields}

-- The options that are passed to the parser.
pub record ParserOptions : Type 0 where
  pub issuer : Text
  pub expiration_required : Bool
  pub audience : Option Text

-- The claim that the program reads.
pub record Claims : Type 0 where
  pub scope : Text

-- The request's context: the scopes that the generated code declares for the operation, and those
-- of the token, if JWTMiddleware has stored them.
pub record Context : Type 0 where
  pub required_scopes : Option (List Text)
  pub token_scopes : Option (List Text)

-- What a middleware does with a request.
pub data Outcome : Type 0 where
  next : Context → Outcome
  problem : Problem → Outcome

unauthorized : Problem
unauthorized =
    write_problem 401 (lit "urn:homelab:error:unauthorized") (lit "Unauthorized")
      (plain (lit "Missing or invalid bearer token.") ∷ [])

parser_options : Auth → ParserOptions
parser_options cfg = record {
  issuer = cfg.issuer;
  expiration_required = true;
  audience = if not (cfg.audience == []) then some cfg.audience else none;
}

module _ (parse_with_claims : ParserOptions → Text → Option Claims) (cfg : Auth) where
  authenticate : Text → Context → Outcome
  unfolding parser_options
  authenticate token ctx = elim (parse_with_claims (parser_options cfg) token) [
    | none ↦ problem unauthorized
    | some c ↦ next (record ctx { token_scopes = some (fields c.scope) })
  ]

  -- JWTMiddleware
  pub jwt_middleware : Text → Context → Outcome
  unfolding authenticate
  jwt_middleware auth_header ctx =
      if not cfg.enabled
      then next ctx
      else if not (has_prefix auth_header (lit "Bearer "))
      then problem unauthorized
      else authenticate (trim_prefix auth_header (lit "Bearer ")) ctx

-- The first loop of ScopeMiddleware.
scope_set : List Text → Dict Bool → Dict Bool
scope_set [] set = set
scope_set (s ∷ scopes) set = scope_set scopes (insert s true set)

-- The second loop: `scopes` are those still to be checked.
check_scopes : Dict Bool → List Text → Outcome → Outcome → Outcome
check_scopes set [] denied granted = granted
check_scopes set (required ∷ scopes) denied granted =
    if not (flag required set) then denied else check_scopes set scopes denied granted

forbidden : Text → Problem
forbidden detail =
    write_problem 403 (lit "urn:homelab:error:forbidden") (lit "Forbidden") (plain detail ∷ [])

insufficient : List Text → Problem
unfolding forbidden
insufficient required =
    forbidden (lit "Insufficient scopes. Required: " ++ join required (lit ", ") ++ lit ".")

-- A missing value, or one of another type, reads as the nil slice.
abbrev pub or_nil : Option (List Text) → List Text
or_nil none = []
or_nil (some scopes) = scopes

check_required : Context → List Text → Outcome
unfolding scope_set check_scopes
check_required ctx [] = problem (forbidden (lit "No required scopes declared for this operation."))
check_required ctx (r ∷ rs) =
    check_scopes (scope_set (or_nil ctx.token_scopes) []) (r ∷ rs) (problem (insufficient (r ∷ rs)))
      (next ctx)

-- ScopeMiddleware
pub scope_middleware : Auth → Context → Outcome
unfolding check_required
scope_middleware cfg ctx =
    if not cfg.enabled
    then next ctx
    else if not cfg.scopes_enabled
    then next ctx
    else check_required ctx (or_nil ctx.required_scopes)
