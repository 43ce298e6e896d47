-- ===== src/Server/History.antt =====
-- cmd/server/main.go: what the network service gets from the configuration.
use homelab_api.Base.{
  Text, lit, ◌==◌, ==_refl, ==-false, ==_sound, Bool, if◌then◌else◌, Bool-cases, Option, some, none,
  List, [], ◌∷◌, map, filter, All, In, In-filter, Distinct, ◌≡◌, ◌≢◌, refl, sym, ap, ◌∙◌, subst,
  inl, inr, arith, not,
}
use homelab_api.Base.Int.{ℤ, pos, is_pos}
use homelab_api.Base.Dict.{Dict, lookup, insert, lookup-insert, keys}
use homelab_api.Config.{Backend, Config, is_synology, is_unifi, by_type, validate}
use homelab_api.Config.Laws.{validate_iff}
use homelab_api.Adapters.Registry
use homelab_api.Adapters.Registry.Laws.{find-new_registry}
use homelab_api.Network.Service.{UniFiBackend, days_of, new_service}
use homelab_api.Server.{
  UniFi, unifi_of, build_clients, history_days_from, history_days_map, network_service,
}
use homelab_api.Server.Settings.{unifi_wanted, unifi_of-wanted}
use homelab_api.Server.Laws.{
  names, configured, configured-none, or_before, wrapped, made_of, as_unifi, unifi-Adds,
  lookup-clients_from, clients_from-Distinct,
}

-- Among backends of different names each is found under its own.
configured-In :
    (bs : List Backend) (b : Backend)
    → In b bs
    → Distinct (names bs)
    → configured b.name bs ≡ some b
configured-In [] b i d = absurd i
configured-In (c ∷ bs) b (inl e) d =
    subst (λ (x : Backend). configured x.name (c ∷ bs) ≡ some x) e (rw (==_refl c.name) refl)
configured-In (c ∷ bs) b (inr i) (fresh, d) =
    rw (==-false c.name b.name (at_b bs b i fresh)) (configured-In bs b i d)
  where
    at_b :
        (bs : List Backend) (b : Backend)
        → In b bs
        → All (λ j. c.name ≢ j) (names bs)
        → c.name ≢ b.name
    at_b [] b i h = absurd i
    at_b (x ∷ bs) b (inl e) (h, hs) = subst (λ (y : Backend). c.name ≢ y.name) e h
    at_b (x ∷ bs) b (inr i) (h, hs) = at_b bs b i hs

lookup-history_days_from :
    (bs : List Backend) (days : Dict ℤ) (n : Text)
    → Distinct (names bs)
    → lookup n (history_days_from bs days)
      ≡ or_before
          (wrapped (λ (b : Backend). b.client_history_days) (configured n bs))
          (lookup n days)
unfolding history_days_from or_before wrapped
lookup-history_days_from [] days n d = refl
lookup-history_days_from (b ∷ bs) days n (fresh, d) = elim (Bool-cases (b.name == n)) [
  | inl y ↦
      let new = subst (λ x. All (λ j. x ≢ j) (names bs)) (==_sound b.name n y) fresh in
      rw
        (
          lookup-history_days_from bs (insert b.name b.client_history_days days) n d,
          lookup-insert b.name n b.client_history_days days,
          configured-none n bs new,
          y,
        )
        refl
  | inr f ↦
      rw
        (
          lookup-history_days_from bs (insert b.name b.client_history_days days) n d,
          lookup-insert b.name n b.client_history_days days,
          f,
        )
        refl
]

names-filter_fresh :
    (p : Backend → Bool) (n : Text) (bs : List Backend)
    → All (λ j. n ≢ j) (names bs)
    → All (λ j. n ≢ j) (names (filter p bs))
names-filter_fresh p n [] h = tt
names-filter_fresh p n (b ∷ bs) (d, h) = elim (Bool-cases (p b)) [
  | inl y ↦ rw y (d, names-filter_fresh p n bs h)
  | inr f ↦ rw f (names-filter_fresh p n bs h)
]

names-filter-Distinct :
    (p : Backend → Bool) (bs : List Backend) → Distinct (names bs) → Distinct (names (filter p bs))
names-filter-Distinct p [] d = tt
names-filter-Distinct p (b ∷ bs) (fresh, d) = elim (Bool-cases (p b)) [
  | inl y ↦ rw y (names-filter_fresh p b.name bs fresh, names-filter-Distinct p bs d)
  | inr f ↦ rw f (names-filter-Distinct p bs d)
]

module _ {V W : Type 0} (f : Text → V → W) where
  lookup-map :
      (m : Dict V) (n : Text)
      → lookup n (map (λ (p : Text × V). (p.0, f p.0 p.1)) m) ≡ wrapped (f n) (lookup n m)
  unfolding lookup wrapped
  lookup-map [] n = refl
  lookup-map ((k, v) ∷ m) n = elim (Bool-cases (k == n)) [
    | inl y ↦ rw y (ap (λ x. some (f x v)) (==_sound k n y))
    | inr d ↦ rw d (lookup-map m n)
  ]

  keys-map : (m : Dict V) → keys (map (λ (p : Text × V). (p.0, f p.0 p.1)) m) ≡ keys m
  keys-map [] = refl
  keys-map ((k, v) ∷ m) = ap (λ ks. k ∷ ks) (keys-map m)

module _ {Location : Type 0} (load_location : Text → Option Location) (local : Location) where
  -- The client of a UniFi backend, by its name.
  unifi_client :
      (cfg : Config) (b : Backend)
      → validate cfg ≡ none
      → In b cfg.backends
      → b.type ≡ lit "unifi"
      → lookup b.name (build_clients load_location local cfg).unifi
        ≡ some (unifi_of load_location local b)
  unfolding build_clients made_of as_unifi or_before is_synology is_unifi lit ◌==◌
  unifi_client cfg b h i t =
      let valid = (validate_iff cfg).0 h in
      rw
        (
          lookup-clients_from load_location local (λ cs. cs.unifi) (as_unifi load_location local)
              (unifi-Adds load_location local) cfg.backends (record { synology = []; unifi = [] })
              b.name valid.names,
          configured-In cfg.backends b i valid.names,
          t,
        )
        refl

  history_days :
      (cfg : Config) (b : Backend)
      → validate cfg ≡ none
      → In b cfg.backends
      → b.type ≡ lit "unifi"
      → lookup b.name (history_days_map cfg) ≡ some b.client_history_days
  unfolding history_days_map or_before wrapped by_type
  history_days cfg b h i t =
      let valid = (validate_iff cfg).0 h in
      let d =
        names-filter-Distinct (λ (c : Backend). c.type == lit "unifi") cfg.backends valid.names in
      rw
        (
          lookup-history_days_from (by_type cfg (lit "unifi")) [] b.name d,
          configured-In (by_type cfg (lit "unifi")) b
              (In-filter (λ (c : Backend). c.type == lit "unifi") b cfg.backends i
                (rw t (==_refl (lit "unifi"))))
              d,
        )
        refl

  -- For a configuration that validate accepts, the network service finds every UniFi backend under
  -- its name, as the client with the settings of the configuration, field by field, and its offline
  -- history goes back as many days as the configuration says, or 30 if that is not positive.
  pub network_service-history_days :
      (backend : UniFi → UniFiBackend) (monitor : Option (Text → Bool)) (cfg : Config) (b : Backend)
      → validate cfg ≡ none
      → In b cfg.backends
      → b.type ≡ lit "unifi"
      → let s = network_service backend (build_clients load_location local cfg).unifi cfg monitor in
        (Registry.find s.backends b.name ≡ some (backend (unifi_wanted b)))
        × (lookup b.name s.history_days
            ≡ some (if is_pos b.client_history_days then b.client_history_days else pos 30))
  unfolding network_service new_service days_of wrapped build_clients
  network_service-history_days backend monitor cfg b h i t =
      let cs = build_clients load_location local cfg in
      let (d, e) =
        clients_from-Distinct load_location local cfg.backends
          (record { synology = []; unifi = [] }) (tt, tt) in
      let served : Dict UniFiBackend = map (λ (p : Text × UniFi). (p.0, backend p.1)) cs.unifi in
      let client = unifi_client cfg b h i t ∙ ap some (unifi_of-wanted load_location local b) in
      let bound : lookup b.name served ≡ some (backend (unifi_wanted b)) =
        rw (lookup-map (λ n. backend) cs.unifi b.name, client) refl in
      (
        find-new_registry served b.name (subst Distinct (sym (keys-map (λ n. backend) cs.unifi)) e)
            ∙ bound,
        rw
            (
              lookup-map (λ n c. days_of (history_days_map cfg) n) served b.name,
              bound,
              history_days cfg b h i t,
            )
            (days b.client_history_days),
      )
    where
      days :
          (d : ℤ)
          → some (if not (is_pos d) then pos 30 else d) ≡ some (if is_pos d then d else pos 30)
      days d = ground arith
