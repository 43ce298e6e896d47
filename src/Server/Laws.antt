-- ===== src/Server/Laws.antt =====
-- cmd/server/backends.go: no client overwrites another, if the configuration is valid.
use homelab_api.Base.{
  ◌⊎◌, ap, Text, lit, ◌==◌, ==_iff, ==-false, ==_sound, if◌then◌else◌, Bool-cases, Option, some,
  none, List, [], ◌∷◌, map, find, find-In, All, All-In, Distinct, ◌≡◌, ◌≢◌, refl, sym, ◌∙◌, subst,
  inl, inr, arith,
}
use homelab_api.Base.Dict.{Dict, lookup, insert, lookup-insert, lookup-none, keys, insert-Distinct}
use homelab_api.Config.{Backend, Config, is_synology, is_unifi, validate}
use homelab_api.Config.Laws.{IsValidBackend, validate_iff}
use homelab_api.Server.Settings.{synology_wanted, synology_of-wanted, unifi_wanted, unifi_of-wanted}
use homelab_api.Server.{
  Synology, UniFi, Clients, HealthChecker, dsm, controller, synology_of, unifi_of, add_client,
  clients_from, build_clients, add_checkers, build_health_checkers,
}

abbrev pub names : List Backend → List Text
names = map (λ (b : Backend). b.name)

-- The first backend of a name.
abbrev pub configured : Text → List Backend → Option Backend
configured n = find (λ (b : Backend). b.name == n)

pub configured-none :
    (n : Text) (bs : List Backend) → All (λ j. n ≢ j) (names bs) → configured n bs ≡ none
configured-none n [] h = refl
configured-none n (b ∷ bs) (d, h) = rw (==-false b.name n (λ e. d (sym e))) (configured-none n bs h)

unfoldable pub or_before : {A : Type 0} → Option A → Option A → Option A
or_before none old = old
or_before (some x) old = some x

pub or_before-none : {A : Type 0} (x : Option A) → or_before x none ≡ x
unfolding or_before
or_before-none none = refl
or_before-none (some a) = refl

unfoldable pub made_of : {V : Type 0} → (Backend → Option V) → Option Backend → Option V
made_of made none = none
made_of made (some b) = made b

module _ {Location : Type 0} (load_location : Text → Option Location) (local : Location) where
  -- One of the two maps, with what a backend adds to it.
  module _ {V : Type 0} (part : Clients Location → Dict V) (made : Backend → Option V) where
    abbrev pub Adds : Type 0
    Adds =
        (b : Backend) (cs : Clients Location) (n : Text)
        → lookup n (part (add_client load_location local b cs))
          ≡ or_before (if b.name == n then made b else none) (lookup n (part cs))

    pub lookup-clients_from :
        Adds
        → (bs : List Backend) (cs : Clients Location) (n : Text) → Distinct (names bs)
        → lookup n (part (clients_from load_location local bs cs))
          ≡ or_before (made_of made (configured n bs)) (lookup n (part cs))
    unfolding clients_from made_of or_before
    lookup-clients_from added [] cs n d = refl
    lookup-clients_from added (b ∷ bs) cs n (fresh, d) =
        lookup-clients_from added bs (add_client load_location local b cs) n d ∙ at_head
      where
        at_head :
            or_before
              (made_of made (configured n bs))
              (lookup n (part (add_client load_location local b cs)))
            ≡ or_before (made_of made (configured n (b ∷ bs))) (lookup n (part cs))
        at_head = elim (Bool-cases (b.name == n)) [
          | inl y ↦
              let new = subst (λ x. All (λ j. x ≢ j) (names bs)) (==_sound b.name n y) fresh in
              rw (added b cs n, y, configured-none n bs new) refl
          | inr f ↦ rw (added b cs n, f) refl
        ]

  unfoldable as_synology : Backend → Option (Synology Location)
  as_synology b = if is_synology b.type then some (synology_of load_location local b) else none

  unfoldable pub as_unifi : Backend → Option UniFi
  as_unifi b =
      if is_synology b.type
      then none
      else if is_unifi b.type
      then some (unifi_of load_location local b)
      else none

  synology-Adds : Adds (λ cs. cs.synology) as_synology
  unfolding add_client as_synology or_before
  synology-Adds b cs n =
      ground (arith, lookup-insert b.name n (synology_of load_location local b) cs.synology)

  pub unifi-Adds : Adds (λ cs. cs.unifi) as_unifi
  unfolding add_client as_unifi or_before
  unifi-Adds b cs n =
      ground (arith, lookup-insert b.name n (unifi_of load_location local b) cs.unifi)

  add_client-Distinct :
      (b : Backend) (cs : Clients Location)
      → Distinct (keys cs.synology) × Distinct (keys cs.unifi)
      → let after = add_client load_location local b cs in
        Distinct (keys after.synology) × Distinct (keys after.unifi)
  unfolding add_client
  add_client-Distinct b cs (d, e) = elim (Bool-cases (is_synology b.type)) [
    | inl y ↦ rw y (insert-Distinct b.name (synology_of load_location local b) cs.synology d, e)
    | inr n ↦ elim (Bool-cases (is_unifi b.type)) [
      | inl y ↦ rw (n, y) (d, insert-Distinct b.name (unifi_of load_location local b) cs.unifi e)
      | inr m ↦ rw (n, m) (d, e)
    ]
  ]

  pub clients_from-Distinct :
      (bs : List Backend) (cs : Clients Location)
      → Distinct (keys cs.synology) × Distinct (keys cs.unifi)
      → let after = clients_from load_location local bs cs in
        Distinct (keys after.synology) × Distinct (keys after.unifi)
  unfolding clients_from
  clients_from-Distinct [] cs d = d
  clients_from-Distinct (b ∷ bs) cs d =
      clients_from-Distinct bs (add_client load_location local b cs) (add_client-Distinct b cs d)

unfoldable pub wrapped : {V H : Type 0} → (V → H) → Option V → Option H
wrapped wrap none = none
wrapped wrap (some c) = some (wrap c)

lookup-add_checkers :
    {V H : Type 0} (wrap : V → H) (clients : Dict V) (checkers : Dict H) (n : Text)
    → Distinct (keys clients)
    → lookup n (add_checkers wrap clients checkers)
      ≡ or_before (wrapped wrap (lookup n clients)) (lookup n checkers)
unfolding add_checkers or_before wrapped lookup
lookup-add_checkers wrap [] checkers n d = refl
lookup-add_checkers wrap ((k, c) ∷ clients) checkers n (fresh, d) = elim (Bool-cases (k == n)) [
  | inl y ↦
      let new = subst (λ x. All (λ j. x ≢ j) (keys clients)) (==_sound k n y) fresh in
      rw
        (
          lookup-add_checkers wrap clients (insert k (wrap c) checkers) n d,
          lookup-insert k n (wrap c) checkers,
          lookup-none n clients new,
          y,
        )
        refl
  | inr f ↦
      rw
        (
          lookup-add_checkers wrap clients (insert k (wrap c) checkers) n d,
          lookup-insert k n (wrap c) checkers,
          f,
        )
        refl
]

module _ {Location : Type 0} (load_location : Text → Option Location) (local : Location) where
  -- The client that the configuration of a backend asks for.
  abbrev pub checker_of : Backend → HealthChecker Location
  checker_of b =
      if is_synology b.type
      then dsm (synology_wanted load_location local b)
      else controller (unifi_wanted b)

  unfoldable pub checker_for : Option Backend → Option (HealthChecker Location)
  checker_for none = none
  checker_for (some b) = some (checker_of b)

  parts-checker :
      (found : Option Backend)
      → ((b : Backend) → found ≡ some b → IsValidBackend b)
      → or_before
          (wrapped controller (made_of (as_unifi load_location local) found))
          (wrapped dsm (made_of (as_synology load_location local) found))
        ≡ checker_for found
  unfolding or_before wrapped made_of as_unifi as_synology checker_for is_synology is_unifi
  parts-checker none valid = refl
  parts-checker (some b) valid =
      made b (valid b refl).known
      ∙ ap some (
          ap
            (λ x. if is_synology b.type then dsm x else controller (unifi_of load_location local b))
            (synology_of-wanted load_location local b)
          ∙ ap
              (λ x.
                if is_synology b.type
                then dsm (synology_wanted load_location local b)
                else controller x)
              (unifi_of-wanted load_location local b))
    where
      made :
          (b : Backend)
          → (b.type ≡ lit "synology") ⊎ (b.type ≡ lit "unifi")
          → or_before
              (wrapped controller (made_of (as_unifi load_location local) (some b)))
              (wrapped dsm (made_of (as_synology load_location local) (some b)))
            ≡ some (
                if is_synology b.type
                then dsm (synology_of load_location local b)
                else controller (unifi_of load_location local b))
      made b known = ground (arith, ==_iff b.type (lit "synology"), ==_iff b.type (lit "unifi"))

  -- For a configuration that validate accepts, the health checkers are exactly one for each
  -- configured backend, under its name: the client of its type, with the settings of the
  -- configuration, field by field.
  pub lookup-build_health_checkers :
      (cfg : Config) (n : Text)
      → validate cfg ≡ none
      → lookup n (build_health_checkers (build_clients load_location local cfg))
        ≡ checker_for (configured n cfg.backends)
  unfolding build_health_checkers build_clients lookup
  lookup-build_health_checkers cfg n h =
      let valid = (validate_iff cfg).0 h in
      let empty : Clients Location = record { synology = []; unifi = [] } in
      let cs = clients_from load_location local cfg.backends empty in
      let (d, e) = clients_from-Distinct load_location local cfg.backends empty (tt, tt) in
      rw
        (
          lookup-add_checkers controller cs.unifi (add_checkers dsm cs.synology []) n e,
          lookup-add_checkers dsm cs.synology [] n d,
          lookup-clients_from load_location local (λ cs. cs.unifi) (as_unifi load_location local)
              (unifi-Adds load_location local) cfg.backends empty n valid.names,
          lookup-clients_from load_location local (λ cs. cs.synology)
              (as_synology load_location local) (synology-Adds load_location local) cfg.backends
              empty n valid.names,
          or_before-none (made_of (as_unifi load_location local) (configured n cfg.backends)),
          or_before-none (made_of (as_synology load_location local) (configured n cfg.backends)),
          or_before-none
              (wrapped dsm (made_of (as_synology load_location local) (configured n cfg.backends))),
        )
        (parts-checker (configured n cfg.backends) (λ b e.
          All-In IsValidBackend cfg.backends b valid.each
            (find-In (λ (b : Backend). b.name == n) cfg.backends b e).0))
