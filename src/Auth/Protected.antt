-- ===== src/Auth/Protected.antt =====
-- Both middlewares in a row: which requests reach a protected handler.
use homelab_api.Base.{
  Text, lit, ◌==◌, true, false, if◌then◌else◌, Option, some, none, List, [], ◌++◌, ◌≡◌, ◌≢◌, ◌↔◌,
  ◌⊎◌, inl, inr, sym, ap, arith, subst, Bool-cases, Option-cases,
}
use homelab_api.Base.Strings.{
  has_prefix, trim_prefix, has_prefix-append, trim_prefix-append, prefix_split, trim_prefix-eq,
}
use homelab_api.Config.{Auth}
use homelab_api.Auth.Scopes.{fields}
use homelab_api.Auth.{
  ParserOptions, Claims, Context, Outcome, next, problem, parser_options, authenticate,
  jwt_middleware, unauthorized, scope_middleware,
}
use homelab_api.Auth.Laws.{Covers, IsCalled, problem-not-IsCalled, scope_middleware_iff}

-- The handler of an operation that declares the scopes `required`, behind both middlewares: the
-- router runs JWTMiddleware, the generated code stores the scopes, then ScopeMiddleware runs.
module _ (parse_with_claims : ParserOptions → Text → Option Claims) (cfg : Auth) where
  scoped : List Text → Outcome → Outcome
  scoped required (problem p) = problem p
  scoped required (next ctx) = scope_middleware cfg (record ctx { required_scopes = some required })

  pub protected : Text → List Text → Outcome
  unfolding scoped
  protected auth_header required = scoped required (
      jwt_middleware parse_with_claims cfg auth_header
        (record { required_scopes = none; token_scopes = none }))

  -- What the token has to satisfy for the library: the configured issuer, an expiry, and the
  -- configured audience if there is one.
  abbrev pub demands : ParserOptions
  demands = record {
    issuer = cfg.issuer;
    expiration_required = true;
    audience = if cfg.audience == [] then none else some cfg.audience;
  }

  -- The request carries a bearer token that the library accepts.
  pub record HasToken (auth_header : Text) : Type 0 where
    pub token : Text
    pub claims : Claims
    pub header : auth_header ≡ lit "Bearer " ++ token
    pub parsed : parse_with_claims demands token ≡ some claims

  -- And its scopes cover the required ones, where scopes are checked.
  abbrev pub HasGrant : Text → List Text → Type 0
  HasGrant auth_header required =
      (t : HasToken auth_header) × ((cfg.scopes_enabled ≡ false)
        ⊎ ((required ≢ []) × Covers (fields t.claims.scope) required))

  parser_options-demands : parser_options cfg ≡ demands
  unfolding parser_options
  parser_options-demands = ground arith

  authenticate-some :
      (token : Text) (ctx : Context) (c : Claims)
      → parse_with_claims demands token ≡ some c
      → authenticate parse_with_claims cfg token ctx
        ≡ next (record ctx { token_scopes = some (fields c.scope) })
  unfolding authenticate
  authenticate-some token ctx c e = ground (arith, e, parser_options-demands)

  authenticate-none :
      (token : Text) (ctx : Context)
      → parse_with_claims demands token ≡ none
      → authenticate parse_with_claims cfg token ctx ≡ problem unauthorized
  unfolding authenticate
  authenticate-none token ctx e = ground (arith, e, parser_options-demands)

  jwt-HasToken :
      (auth_header : Text) (ctx : Context)
      → cfg.enabled ≡ true
      → (t : HasToken auth_header)
      → jwt_middleware parse_with_claims cfg auth_header ctx
        ≡ next (record ctx { token_scopes = some (fields t.claims.scope) })
  unfolding jwt_middleware
  jwt-HasToken auth_header ctx on t =
      simp (on, t.header, has_prefix-append, trim_prefix-append)
        (authenticate-some t.token ctx t.claims t.parsed)

  jwt_cases :
      (auth_header : Text) (ctx : Context)
      → cfg.enabled ≡ true
      → (jwt_middleware parse_with_claims cfg auth_header ctx ≡ problem unauthorized)
        ⊎ HasToken auth_header
  unfolding jwt_middleware
  jwt_cases auth_header ctx on = elim (Bool-cases (has_prefix auth_header (lit "Bearer "))) [
    | inr n ↦ inl (simp (on, n))
    | inl y ↦
        elim (Option-cases (parse_with_claims demands (trim_prefix auth_header (lit "Bearer ")))) [
          | inl e ↦ inl (simp (on, y) (authenticate-none _ ctx e))
          | inr (c, e) ↦ inr (record {
            token = trim_prefix auth_header (lit "Bearer ");
            claims = c;
            header =
                rw (trim_prefix-eq auth_header (lit "Bearer ") y)
                  (prefix_split auth_header (lit "Bearer ") y);
            parsed = e;
          })
        ]
  ]

  abbrev empty_context : Context
  empty_context = record { required_scopes = none; token_scopes = none }

  abbrev granted_context : List Text → Claims → Context
  granted_context required c = record {
    required_scopes = some required;
    token_scopes = some (fields c.scope);
  }

  protected_off :
      (auth_header : Text) (required : List Text)
      → cfg.enabled ≡ false
      → IsCalled (protected auth_header required)
  unfolding protected jwt_middleware scope_middleware
  protected_off auth_header required off =
      (record { required_scopes = some required; token_scopes = none }, simp off)

  protected-HasToken :
      (auth_header : Text) (required : List Text)
      → cfg.enabled ≡ true
      → (t : HasToken auth_header)
      → protected auth_header required ≡ scope_middleware cfg (granted_context required t.claims)
  unfolding protected
  protected-HasToken auth_header required on t =
      ap (scoped required) (jwt-HasToken auth_header empty_context on t)

  protected_granted :
      (auth_header : Text) (required : List Text)
      → IsCalled (protected auth_header required)
      → cfg.enabled ≡ true
      → HasGrant auth_header required
  unfolding protected
  protected_granted auth_header required called on = elim (jwt_cases auth_header empty_context on) [
    | inl refused ↦ absurd (problem-not-IsCalled (ap (scoped required) refused) called)
    | inr t ↦ (
      t,
      (scope_middleware_iff (granted_context required t.claims) cfg on).0
          (subst IsCalled (protected-HasToken auth_header required on t) called),
    )
  ]

  -- Whether a request to a protected operation reaches its handler: always with authorization off,
  -- and otherwise exactly if it has a grant.
  pub protected_iff :
      (auth_header : Text) (required : List Text)
      → IsCalled (protected auth_header required)
        ↔ ((cfg.enabled ≡ false) ⊎ HasGrant auth_header required)
  protected_iff auth_header required = elim (Bool-cases cfg.enabled) [
    | inr off ↦ (λ h. inl off, λ h. protected_off auth_header required off)
    | inl on ↦ (λ h. inr (protected_granted auth_header required h on), λ h. called on h)
  ]
    where
      called :
          cfg.enabled ≡ true
          → (cfg.enabled ≡ false) ⊎ HasGrant auth_header required
          → IsCalled (protected auth_header required)
      called on (inl off) = protected_off auth_header required off
      called on (inr (t, scopes)) =
          subst IsCalled (sym (protected-HasToken auth_header required on t))
            ((scope_middleware_iff (granted_context required t.claims) cfg on).1 scopes)
