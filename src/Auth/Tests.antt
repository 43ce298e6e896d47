-- ===== src/Auth/Tests.antt =====
-- A parser that accepts one token, and a request with and without it.
use homelab_api.Base.{
  Text, lit, ◌==◌, true, false, if◌then◌else◌, Option, some, none, [], ◌∷◌, ◌≡◌, ◌↔◌, ◌⊎◌,
}
use homelab_api.Config.{Auth}
use homelab_api.Auth.{ParserOptions, Claims, Context}
use homelab_api.Auth.Laws.{IsCalled}
use homelab_api.Auth.Protected.{protected, HasGrant, protected_iff}

abbrev one_token : ParserOptions → Text → Option Claims
one_token options token =
    if token == lit "abc" then some (record { scope = lit "read:docker write:docker" }) else none

abbrev all_on : Auth
all_on = record { enabled = true; scopes_enabled = true; issuer = lit "https://dex"; audience = [] }

protected_iff_example :
    IsCalled (protected one_token all_on (lit "Bearer abc") (lit "read:docker" ∷ [])) ↔ (
      (all_on.enabled ≡ false)
      ⊎ HasGrant one_token all_on (lit "Bearer abc") (lit "read:docker" ∷ []))
protected_iff_example = protected_iff one_token all_on (lit "Bearer abc") (lit "read:docker" ∷ [])

abbrev reader : Context
reader = record {
  required_scopes = some (lit "read:docker" ∷ []);
  token_scopes = some (lit "read:docker" ∷ []);
}
