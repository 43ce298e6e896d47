-- ===== src/Config/Laws.antt =====
-- `validate` accepts exactly the well-formed configurations.
use homelab_api.Base.{
  Text, lit, ==_iff, ==-false, ◌≡◌, ◌≢◌, ◌↔◌, ◌⊎◌, ◌+◌, refl, ◌∙◌, List, [], ◌∷◌, map, arith, true,
  false, none, ℕ, All, Distinct, Bool,
}
use homelab_api.Base.Dict.{Dict, lookup, insert, flag, flag-insert}
use homelab_api.Config.{
  Backend, Config, check_auth, check_backend, check_backends, check_list, validate,
}

-- What one backend must have, whatever the others are.
pub record IsValidBackend (b : Backend) : Type 0 where
  pub named : b.name ≢ []
  pub known : (b.type ≡ lit "synology") ⊎ (b.type ≡ lit "unifi")
  pub hosted : b.host ≢ []
  pub login : ((b.type ≡ lit "unifi") × (b.api_key ≢ [])) ⊎ ((b.username ≢ []) × (b.password ≢ []))

pub record IsValidConfig (c : Config) : Type 0 where
  pub issuer : c.auth.enabled ≡ true → c.auth.issuer ≢ []
  pub dex_url : c.auth.enabled ≡ true → c.dex.url ≢ []
  pub some_backend : c.backends ≢ []
  pub names : Distinct (map (λ (b : Backend). b.name) c.backends)
  pub each : All IsValidBackend c.backends

module _ (i : ℕ) (seen : Dict Bool) (b : Backend) where
  check_backend_sound :
      check_backend i seen b ≡ none → IsValidBackend b × (flag b.name seen ≡ false)
  unfolding check_backend
  check_backend_sound h = (
    record {
      named = ground (arith, ==_iff b.name []);
      known = ground (arith, ==_iff b.type (lit "synology"), ==_iff b.type (lit "unifi"));
      hosted = ground (arith, ==_iff b.host []);
      login = ground (
        arith,
        ==_iff b.type (lit "unifi"),
        ==_iff b.api_key [],
        ==_iff b.username [],
        ==_iff b.password [],
      );
    },
    ground arith,
  )

  check_backend_complete :
      IsValidBackend b → flag b.name seen ≡ false → check_backend i seen b ≡ none
  unfolding check_backend
  check_backend_complete v f = ground (
    arith,
    v.named,
    v.known,
    v.hosted,
    v.login,
    ==_iff b.name [],
    ==_iff b.host [],
    ==_iff b.type (lit "synology"),
    ==_iff b.type (lit "unifi"),
    ==_iff b.api_key [],
    ==_iff b.username [],
    ==_iff b.password [],
  )

abbrev Unseen : Dict Bool → List Text → Type 0
Unseen seen = All (λ n. flag n seen ≡ false)

abbrev names : List Backend → List Text
names = map (λ (b : Backend). b.name)

Unseen-insert_inv :
    (k : Text) (seen : Dict Bool) (ns : List Text)
    → Unseen (insert k true seen) ns
    → All (λ j. k ≢ j) ns × Unseen seen ns
Unseen-insert_inv k seen [] h = (tt, tt)
Unseen-insert_inv k seen (n ∷ ns) (f, h) =
    let (d, u) = Unseen-insert_inv k seen ns h in
    let e = flag-insert k n true seen in
    ((λ p. ground (arith, e, ==_iff k n), d), (ground (arith, e), u))

Unseen-insert :
    (k : Text) (seen : Dict Bool) (ns : List Text)
    → All (λ j. k ≢ j) ns
    → Unseen seen ns
    → Unseen (insert k true seen) ns
Unseen-insert k seen [] d u = tt
Unseen-insert k seen (n ∷ ns) (ne, d) (f, u) =
    (flag-insert k n true seen ∙ rw (==-false k n ne) f, Unseen-insert k seen ns d u)

check_backends_sound :
    (i : ℕ) (seen : Dict Bool) (bs : List Backend)
    → check_backends i seen bs ≡ none
    → All IsValidBackend bs × Distinct (names bs) × Unseen seen (names bs)
unfolding check_backends
check_backends_sound i seen [] h = (tt, tt, tt)
check_backends_sound i seen (b ∷ bs) h =
    let (v, f) = check_backend_sound i seen b (ground arith) in
    let (vs, d, u) = check_backends_sound (i + 1) (insert b.name true seen) bs (ground arith) in
    let (fresh, u') = Unseen-insert_inv b.name seen (names bs) u in ((v, vs), (fresh, d), (f, u'))

check_backends_complete :
    (i : ℕ) (seen : Dict Bool) (bs : List Backend)
    → All IsValidBackend bs
    → Distinct (names bs)
    → Unseen seen (names bs)
    → check_backends i seen bs ≡ none
unfolding check_backends
check_backends_complete i seen [] v d u = refl
check_backends_complete i seen (b ∷ bs) (v, vs) (fresh, d) (f, u) =
    rw (check_backend_complete i seen b v f, check_backends)
      (check_backends_complete (i + 1) (insert b.name true seen) bs vs d
        (Unseen-insert b.name seen (names bs) fresh u))

Unseen-nil : (ns : List Text) → Unseen [] ns
unfolding flag lookup
Unseen-nil [] = tt
Unseen-nil (n ∷ ns) = (refl, Unseen-nil ns)

abbrev IsValidList : List Backend → Type 0
IsValidList bs = (bs ≢ []) × Distinct (names bs) × All IsValidBackend bs

check_list_iff : (bs : List Backend) → (check_list bs ≡ none) ↔ IsValidList bs
unfolding check_list
check_list_iff [] = (λ h. cc, λ h. absurd (h.0 refl))
check_list_iff (b ∷ bs) = (
  λ h. let (v, d, u) = check_backends_sound 0 [] (b ∷ bs) h in (λ e. cc, d, v),
  λ h. check_backends_complete 0 [] (b ∷ bs) h.2 h.1 (Unseen-nil (names (b ∷ bs))),
)

check_auth_iff :
    (c : Config)
    → (check_auth c ≡ none)
      ↔ ((c.auth.enabled ≡ true → c.auth.issuer ≢ []) × (c.auth.enabled ≡ true → c.dex.url ≢ []))
unfolding check_auth
check_auth_iff c = (
  λ h. (λ t e. ground (arith, ==_iff c.auth.issuer []), λ t e. ground (arith, ==_iff c.dex.url [])),
  λ h. ground (arith, h.0, h.1, ==_iff c.auth.issuer [], ==_iff c.dex.url []),
)

validate_parts :
    (c : Config) → (validate c ≡ none) ↔ ((check_auth c ≡ none) × (check_list c.backends ≡ none))
unfolding validate
validate_parts c = (λ h. (ground arith, ground arith), λ h. ground arith)

-- `validate` reports no error exactly for the well-formed configurations: with authorization on,
-- the issuer and the Dex address are given; there is a backend; the names differ; and each backend
-- has a name, a known type, a host, and an API key (UniFi only) or both a username and a password.
pub validate_iff : (c : Config) → (validate c ≡ none) ↔ IsValidConfig c
validate_iff c = (
  λ h.
      let (a, l) = (validate_parts c).0 h in
      let (issuer, dex) = (check_auth_iff c).0 a in
      let (given, d, v) = (check_list_iff c.backends).0 l in
      record { issuer = issuer; dex_url = dex; some_backend = given; names = d; each = v },
  λ v. (validate_parts c).1 (
    (check_auth_iff c).1 (v.issuer, v.dex_url),
    (check_list_iff c.backends).1 (v.some_backend, v.names, v.each),
  ),
)
