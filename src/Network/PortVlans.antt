-- ===== src/Network/PortVlans.antt =====
-- internal/network/devices_service.go: the VLAN configuration of a port.
use homelab_api.Base.{
  Text, lit, ◌==◌, Bool, false, not, ◌&&◌, ◌||◌, if◌then◌else◌, Option, some, none, List, [], ◌∷◌,
  ◌++◌, map, find, filter, ltb, length,
}
use homelab_api.Base.Int.{ℤ, int_lt}
use homelab_api.Base.Dict.{Dict, lookup}
use homelab_api.Base.Strings.Lower.{Unicode}
use homelab_api.Adapters.UniFi.{UniFiPortEntry, UniFiNetworkConf}
use homelab_api.Network.Kebab.{to_kebab}
use homelab_api.Network.Service.{composite_id}
use homelab_api.Network.Fields.{extract_vlan_id}

pub record NetworkVlanRef : Type 0 where
  pub id : Text
  pub uri : Text
  pub name : Text
  pub vlan_id : ℤ

pub data VlanMode : Type 0 where
  access trunk : VlanMode

-- The tagged VLANs of a trunk: all, or the listed ones.
pub data TaggedVlans : Type 0 where
  all_vlans : TaggedVlans
  custom : List NetworkVlanRef → TaggedVlans

pub record VlanConfig : Type 0 where
  pub mode : VlanMode
  pub native_vlan : NetworkVlanRef
  pub tagged_vlans : Option TaggedVlans

unfoldable pub is_default_net : UniFiNetworkConf → Bool
is_default_net c = c.purpose == lit "corporate" && not c.vlan_enabled

abbrev id_or_empty : Option UniFiNetworkConf → Text
id_or_empty none = []
id_or_empty (some c) = c.id

unfoldable pub find_default_net_id : List UniFiNetworkConf → Text
find_default_net_id confs = id_or_empty (find is_default_net confs)

-- `if nativeID != nil && *nativeID != "" { id = *nativeID }`
abbrev native_or : Option Text → Text → Text
native_or none default_net_id = default_net_id
native_or (some id) default_net_id = if not (id == []) then id else default_net_id

unfoldable pub resolve_native_conf :
    Option Text → Text → Dict UniFiNetworkConf → Option UniFiNetworkConf
resolve_native_conf native_id default_net_id conf_by_id =
    let id = native_or native_id default_net_id in if id == [] then none else lookup id conf_by_id

-- One step of slices.SortFunc by VLAN ID; the order of equal IDs is left open by the sort.
unfoldable pub insert_vlan : NetworkVlanRef → List NetworkVlanRef → List NetworkVlanRef
insert_vlan v [] = v ∷ []
insert_vlan v (w ∷ ws) =
    let later = w ∷ insert_vlan v ws in if int_lt v.vlan_id w.vlan_id then v ∷ w ∷ ws else later

unfoldable pub sort_vlans : List NetworkVlanRef → List NetworkVlanRef
sort_vlans [] = []
sort_vlans (v ∷ vs) = insert_vlan v (sort_vlans vs)

-- A set of IDs contains `id`.
abbrev is_in : List Text → Text → Bool
is_in [] id = false
is_in (x ∷ xs) id = x == id || is_in xs id

-- A conf that is tagged on a customized trunk.
unfoldable pub is_tagged : List Text → UniFiNetworkConf → UniFiNetworkConf → Bool
is_tagged excluded native conf =
    conf.purpose == lit "corporate" && not (is_in excluded conf.id || conf.id == native.id)

module _ ⦃u : Unicode⦄ where
  unfoldable pub conf_to_vlan_ref : UniFiNetworkConf → Text → NetworkVlanRef
  conf_to_vlan_ref conf controller =
      let id = composite_id controller (to_kebab conf.name) in
      record {
        id = id;
        uri = lit "/network/vlans/" ++ id;
        name = conf.name;
        vlan_id = extract_vlan_id conf.vlan;
      }

  unfoldable pub tagged_vlans :
      UniFiPortEntry → Dict UniFiNetworkConf → UniFiNetworkConf → Text → TaggedVlans
  tagged_vlans p conf_by_id native controller =
      if p.forward == lit "customize" && ltb 0 (length p.excluded_network_conf_ids)
      then custom (
          sort_vlans (
            map (λ (conf : UniFiNetworkConf). conf_to_vlan_ref conf controller)
              (filter (is_tagged p.excluded_network_conf_ids native)
                (map (λ (e : Text × UniFiNetworkConf). e.1) conf_by_id))))
      else all_vlans

  unfoldable pub access_config : Text → Option UniFiNetworkConf → Option VlanConfig
  access_config controller none = none
  access_config controller (some native) = some (record {
    mode = access;
    native_vlan = conf_to_vlan_ref native controller;
    tagged_vlans = none;
  })

  unfoldable pub trunk_config :
      UniFiPortEntry → Dict UniFiNetworkConf → Text → Option UniFiNetworkConf → Option VlanConfig
  trunk_config p conf_by_id controller none = none
  trunk_config p conf_by_id controller (some native) = some (record {
    mode = trunk;
    native_vlan = conf_to_vlan_ref native controller;
    tagged_vlans = some (tagged_vlans p conf_by_id native controller);
  })

  unfoldable pub build_vlan_config :
      UniFiPortEntry → Dict UniFiNetworkConf → Text → Text → Option VlanConfig
  build_vlan_config p conf_by_id default_net_id controller =
      let native = resolve_native_conf p.native_network_conf_id default_net_id conf_by_id in
      if p.forward == lit "disable"
      then none
      else if p.forward == lit "native"
      then access_config controller native
      else if p.forward == lit "all" || p.forward == lit "customize"
      then trunk_config p conf_by_id controller native
      else none
