-- ===== src/Auth/Laws.antt =====
-- Which requests ScopeMiddleware lets through.
use homelab_api.Base.{
  Text, ==_iff, Bool, true, false, List, [], ◌∷◌, ◌≡◌, ◌≢◌, ◌↔◌, ◌⊎◌, inl, inr, refl, arith, All,
  In, Bool-cases,
}
use homelab_api.Base.Dict.{Dict, insert, flag, flag-insert, flag-nil}
use homelab_api.Config.{Auth}
use homelab_api.ApiErrors.{Problem}
use homelab_api.Auth.{
  Context, Outcome, next, problem, scope_set, check_scopes, check_required, insufficient, or_nil,
  scope_middleware,
}

In-cases_scope_set :
    (scopes : List Text) (set : Dict Bool) (n : Text)
    → flag n (scope_set scopes set) ≡ true
    → In n scopes ⊎ (flag n set ≡ true)
unfolding scope_set
In-cases_scope_set [] set n h = inr h
In-cases_scope_set (s ∷ scopes) set n h =
    ground (
      arith,
      In-cases_scope_set scopes (insert s true set) n h,
      flag-insert s n true set,
      ==_iff s n,
    )

flag-scope_set_kept :
    (scopes : List Text) (set : Dict Bool) (n : Text)
    → flag n set ≡ true
    → flag n (scope_set scopes set) ≡ true
unfolding scope_set
flag-scope_set_kept [] set n h = h
flag-scope_set_kept (s ∷ scopes) set n h =
    flag-scope_set_kept scopes (insert s true set) n
      (ground (arith, flag-insert s n true set, ==_iff s n))

flag-scope_set :
    (scopes : List Text) (set : Dict Bool) (n : Text)
    → In n scopes
    → flag n (scope_set scopes set) ≡ true
unfolding scope_set
flag-scope_set [] set n i = absurd i
flag-scope_set (s ∷ scopes) set n (inl e) =
    flag-scope_set_kept scopes (insert s true set) n
      (ground (arith, flag-insert s n true set, ==_iff s n))
flag-scope_set (s ∷ scopes) set n (inr i) = flag-scope_set scopes (insert s true set) n i

-- Every required scope is among those that are given.
abbrev pub Covers : List Text → List Text → Type 0
Covers given required = All (λ s. In s given) required

check_scopes_granted :
    (set : Dict Bool) (scopes : List Text) (denied granted : Outcome)
    → All (λ s. flag s set ≡ true) scopes
    → check_scopes set scopes denied granted ≡ granted
unfolding check_scopes
check_scopes_granted set [] denied granted h = refl
check_scopes_granted set (s ∷ scopes) denied granted (f, h) =
    rw f (check_scopes_granted set scopes denied granted h)

check_scopes_cases :
    (set : Dict Bool) (scopes : List Text) (denied granted : Outcome)
    → All (λ s. flag s set ≡ true) scopes ⊎ (check_scopes set scopes denied granted ≡ denied)
unfolding check_scopes
check_scopes_cases set [] denied granted = inl tt
check_scopes_cases set (s ∷ scopes) denied granted = elim (Bool-cases (flag s set)) [
  | inl f ↦ elim (check_scopes_cases set scopes denied granted) [
    | inl h ↦ inl (f, h)
    | inr e ↦ inr (rw f e)
  ]
  | inr n ↦ inr (rw n refl)
]

Covers-scope_set :
    (given required : List Text)
    → Covers given required ↔ All (λ s. flag s (scope_set given []) ≡ true) required
Covers-scope_set given [] = (λ h. tt, λ h. tt)
Covers-scope_set given (s ∷ required) =
    let (there, back) = Covers-scope_set given required in
    (
      λ h. (flag-scope_set given [] s h.0, there h.1),
      λ h. (from_flag (In-cases_scope_set given [] s h.0), back h.1),
    )
  where
    from_flag : In s given ⊎ (flag s [] ≡ true) → In s given
    from_flag (inl i) = i
    from_flag (inr e) = cc (flag-nil s)

-- The handler is called, with some context.
abbrev pub IsCalled : Outcome → Type 0
IsCalled o = (ctx : Context) × (o ≡ next ctx)

pub problem-not-IsCalled : {p : Problem} {o : Outcome} → o ≡ problem p → ¬ IsCalled o
problem-not-IsCalled e (ctx, c) = cc

module _ (ctx : Context) where
  check_required-granted :
      (required : List Text)
      → required ≢ []
      → Covers (or_nil ctx.token_scopes) required
      → check_required ctx required ≡ next ctx
  unfolding check_required
  check_required-granted [] n h = absurd (n refl)
  check_required-granted (r ∷ rs) n h =
      check_scopes_granted (scope_set (or_nil ctx.token_scopes) []) (r ∷ rs) _ (next ctx)
        ((Covers-scope_set (or_nil ctx.token_scopes) (r ∷ rs)).0 h)

  check_required-Covers :
      (required : List Text)
      → IsCalled (check_required ctx required)
      → (required ≢ []) × Covers (or_nil ctx.token_scopes) required
  unfolding check_required
  check_required-Covers [] (c, e) = cc
  check_required-Covers (r ∷ rs) called =
      elim (check_scopes_cases (scope_set (or_nil ctx.token_scopes) []) (r ∷ rs)
        (problem (insufficient (r ∷ rs))) (next ctx)) [
          | inl h ↦ (λ e. cc, (Covers-scope_set (or_nil ctx.token_scopes) (r ∷ rs)).1 h)
          | inr denied ↦ absurd (problem-not-IsCalled denied called)
        ]

  -- With authorization on, ScopeMiddleware calls the handler exactly if scope checks are off, or
  -- some scope is required and the token has all that are.
  pub scope_middleware_iff :
      (cfg : Auth)
      → cfg.enabled ≡ true
      → IsCalled (scope_middleware cfg ctx) ↔ (
          (cfg.scopes_enabled ≡ false)
          ⊎ ((or_nil ctx.required_scopes ≢ [])
              × Covers (or_nil ctx.token_scopes) (or_nil ctx.required_scopes)))
  unfolding scope_middleware
  scope_middleware_iff cfg on = elim (Bool-cases cfg.scopes_enabled) [
    | inl y ↦ (
      λ h. inr (check_required-Covers (or_nil ctx.required_scopes) (rw (on, y) at h)),
      λ h. rw (on, y) (ctx, granted y h),
    )
    | inr n ↦ (λ h. inl n, λ h. rw (on, n) (ctx, refl))
  ]
    where
      granted :
          cfg.scopes_enabled ≡ true
          → (cfg.scopes_enabled ≡ false)
            ⊎ ((or_nil ctx.required_scopes ≢ [])
                × Covers (or_nil ctx.token_scopes) (or_nil ctx.required_scopes))
          → check_required ctx (or_nil ctx.required_scopes) ≡ next ctx
      granted y (inl n) = cc
      granted y (inr (some_required, h)) =
          check_required-granted (or_nil ctx.required_scopes) some_required h
