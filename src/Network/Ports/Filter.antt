-- ===== src/Network/Ports/Filter.antt =====
-- internal/network/ports_service.go: which ports matchesFilter lets through.
use homelab_api.Base.{
  Text, ==_sound, ==_refl, Bool, true, Bool-cases, Option, some, none, List, [], ◌∷◌, any, In, ◌≡◌,
  ◌↔◌, ◌⊎◌, inl, inr, refl, ap, ◌∙◌, subst, arith,
}
use homelab_api.Base.Int.{ℤ, int_eq, int_eq_iff}
use homelab_api.Network.DevicePorts.{PortState, up, down}
use homelab_api.Network.PortVlans.{
  VlanConfig, VlanMode, access, trunk, TaggedVlans, all_vlans, custom, NetworkVlanRef,
}
use homelab_api.Network.Ports.{
  NetworkPort, ListNetworkPortsParams, matches_filter, device_matches, state_eq, state_matches,
  mode_eq, mode_matches, tagged_matches, matches_vlan_id, vlan_matches,
}

-- A port carries a VLAN: as its native one, or tagged, all of them or the VLAN by its ID.
pub data Carries (vlan_id : ℤ) (cfg : VlanConfig) : Type 0 where
  native : cfg.native_vlan.vlan_id ≡ vlan_id → Carries vlan_id cfg
  all_tagged : cfg.tagged_vlans ≡ some all_vlans → Carries vlan_id cfg
  tagged :
      (items : List NetworkVlanRef) (v : NetworkVlanRef)
      → cfg.tagged_vlans ≡ some (custom items)
      → In v items
      → v.vlan_id ≡ vlan_id
      → Carries vlan_id cfg

-- What the parameters that are given demand of a port.
pub record Matches (params : ListNetworkPortsParams) (np : NetworkPort) : Type 0 where
  pub device : (id : Text) → params.device_id ≡ some id → np.device.id ≡ id
  pub state : (wanted : PortState) → params.state ≡ some wanted → np.port.state ≡ wanted
  pub mode :
      (wanted : VlanMode)
      → params.mode ≡ some wanted
      → (cfg : VlanConfig) × (np.port.vlan_config ≡ some cfg) × (cfg.mode ≡ wanted)
  pub vlan :
      (wanted : ℤ)
      → params.vlan_id ≡ some wanted
      → (cfg : VlanConfig) × (np.port.vlan_config ≡ some cfg) × Carries wanted cfg

any_inv :
    {A : Type 0} (p : A → Bool) (xs : List A) → any p xs ≡ true → (x : A) × In x xs × (p x ≡ true)
any_inv p [] h = cc
any_inv p (x ∷ xs) h = elim (Bool-cases (p x)) [
  | inl y ↦ (x, inl refl, y)
  | inr n ↦ let (z, i, t) = any_inv p xs (ground arith) in (z, inr i, t)
]

any_of_In :
    {A : Type 0} (p : A → Bool) (xs : List A) (x : A) → In x xs → p x ≡ true → any p xs ≡ true
any_of_In p [] x i h = absurd i
any_of_In p (y ∷ xs) x (inl e) h = let t : p y ≡ true = ap p e ∙ h in ground arith
any_of_In p (y ∷ xs) x (inr i) h = let t = any_of_In p xs x i h in ground arith

device_matches_iff :
    (o : Option Text) (id : Text)
    → (device_matches o id ≡ true) ↔ ((wanted : Text) → o ≡ some wanted → id ≡ wanted)
device_matches_iff none id = (λ h w e. cc, λ h. refl)
device_matches_iff (some wanted) id =
    (λ h w e. ==_sound id wanted h ∙ cc, λ h. rw (h wanted refl) (==_refl wanted))

state_matches_iff :
    (o : Option PortState) (state : PortState)
    → (state_matches o state ≡ true) ↔ ((wanted : PortState) → o ≡ some wanted → state ≡ wanted)
state_matches_iff none state = (λ h w e. cc, λ h. refl)
state_matches_iff (some wanted) state =
    (λ h w e. same state wanted h ∙ cc, λ h. rw (h wanted refl) (itself wanted))
  where
    same : (a b : PortState) → state_eq a b ≡ true → a ≡ b
    same up up h = refl
    same down down h = refl
    same up down h = cc
    same down up h = cc

    itself : (a : PortState) → state_eq a a ≡ true
    itself up = refl
    itself down = refl

mode_matches_iff :
    (o : Option VlanMode) (config : Option VlanConfig)
    → (mode_matches o config ≡ true) ↔ (
        (wanted : VlanMode)
        → o ≡ some wanted
        → (cfg : VlanConfig) × (config ≡ some cfg) × (cfg.mode ≡ wanted))
mode_matches_iff none config = (λ h w e. cc, λ h. refl)
mode_matches_iff (some wanted) none = (λ h w e. cc, λ h. let (cfg, e, _) = h wanted refl in cc)
mode_matches_iff (some wanted) (some cfg) = (
  λ h w e. (cfg, refl, same cfg.mode wanted h ∙ cc),
  λ h.
      let (c, e, m) = h wanted refl in
      let here : cfg.mode ≡ wanted = ap (λ (o : Option VlanConfig). mode_of o) e ∙ m in
      rw here (itself wanted),
)
  where
    mode_of : Option VlanConfig → VlanMode
    mode_of none = cfg.mode
    mode_of (some c) = c.mode

    same : (a b : VlanMode) → mode_eq a b ≡ true → a ≡ b
    same access access h = refl
    same trunk trunk h = refl
    same access trunk h = cc
    same trunk access h = cc

    itself : (a : VlanMode) → mode_eq a a ≡ true
    itself access = refl
    itself trunk = refl

tagged_matches_iff :
    (tagged_vlans : Option TaggedVlans) (vlan_id : ℤ)
    → (tagged_matches tagged_vlans vlan_id ≡ true) ↔ (
        (tagged_vlans ≡ some all_vlans)
        ⊎ ((items : List NetworkVlanRef) × (tagged_vlans ≡ some (custom items))
            × ((v : NetworkVlanRef) × In v items × (v.vlan_id ≡ vlan_id))))
tagged_matches_iff none vlan_id = (λ h. cc, λ h. elim h [ inl e ↦ cc | inr (_, e, _) ↦ cc ])
tagged_matches_iff (some all_vlans) vlan_id = (λ h. inl refl, λ h. refl)
tagged_matches_iff (some (custom items)) vlan_id = (
  λ h.
      let (v, i, e) = any_inv (λ (v : NetworkVlanRef). int_eq v.vlan_id vlan_id) items h in
      inr (items, refl, (v, i, (int_eq_iff v.vlan_id vlan_id).0 e)),
  λ h. elim h [
    | inl e ↦ cc
    | inr (others, e, (v, i, same)) ↦
        let these : others ≡ items = cc in
        any_of_In (λ (v : NetworkVlanRef). int_eq v.vlan_id vlan_id) items v (subst (In v) these i)
          ((int_eq_iff v.vlan_id vlan_id).1 same)
  ],
)

matches_vlan_id_iff :
    (config : Option VlanConfig) (vlan_id : ℤ)
    → (matches_vlan_id config vlan_id ≡ true)
      ↔ ((cfg : VlanConfig) × (config ≡ some cfg) × Carries vlan_id cfg)
unfolding matches_vlan_id
matches_vlan_id_iff none vlan_id = (λ h. cc, λ h. let (cfg, e, _) = h in cc)
matches_vlan_id_iff (some cfg) vlan_id = (λ h. (cfg, refl, found h), λ h. back (cfg_of h.0 h.1 h.2))
  where
    cfg_of : (c : VlanConfig) → some cfg ≡ some c → Carries vlan_id c → Carries vlan_id cfg
    cfg_of c e h = let same : c ≡ cfg = cc in subst (Carries vlan_id) same h

    found : matches_vlan_id (some cfg) vlan_id ≡ true → Carries vlan_id cfg
    found h = elim (Bool-cases (int_eq cfg.native_vlan.vlan_id vlan_id)) [
      | inl y ↦ native ((int_eq_iff cfg.native_vlan.vlan_id vlan_id).0 y)
      | inr n ↦ elim ((tagged_matches_iff cfg.tagged_vlans vlan_id).0 (ground arith)) [
        | inl e ↦ all_tagged e
        | inr (items, e, (v, i, same)) ↦ tagged items v e i same
      ]
    ]

    back : Carries vlan_id cfg → matches_vlan_id (some cfg) vlan_id ≡ true
    back (native e) = rw ((int_eq_iff cfg.native_vlan.vlan_id vlan_id).1 e) refl
    back (all_tagged e) =
        let t = (tagged_matches_iff cfg.tagged_vlans vlan_id).1 (inl e) in ground arith
    back (tagged items v e i same) =
        let t = (tagged_matches_iff cfg.tagged_vlans vlan_id).1 (inr (items, e, (v, i, same))) in
        ground arith

vlan_matches_iff :
    (o : Option ℤ) (config : Option VlanConfig)
    → (vlan_matches o config ≡ true) ↔ (
        (wanted : ℤ)
        → o ≡ some wanted
        → (cfg : VlanConfig) × (config ≡ some cfg) × Carries wanted cfg)
vlan_matches_iff none config = (λ h w e. cc, λ h. refl)
vlan_matches_iff (some wanted) config = (
  λ h w e.
      let same : wanted ≡ w = cc in
      (matches_vlan_id_iff config w).0 (subst (λ x. matches_vlan_id config x ≡ true) same h),
  λ h. (matches_vlan_id_iff config wanted).1 (h wanted refl),
)

-- The tests of matchesFilter are what the parameters demand.
pub matches_filter_iff :
    (params : ListNetworkPortsParams) (np : NetworkPort)
    → (matches_filter params np ≡ true) ↔ Matches params np
unfolding matches_filter
matches_filter_iff params np =
    let device = device_matches_iff params.device_id np.device.id in
    let state = state_matches_iff params.state np.port.state in
    let mode = mode_matches_iff params.mode np.port.vlan_config in
    let vlan = vlan_matches_iff params.vlan_id np.port.vlan_config in
    (
      λ h. record {
        device = device.0 (ground arith);
        state = state.0 (ground arith);
        mode = mode.0 (ground arith);
        vlan = vlan.0 (ground arith);
      },
      λ h. rw (device.1 h.device, state.1 h.state, mode.1 h.mode, vlan.1 h.vlan) refl,
    )
