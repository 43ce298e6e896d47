-- ===== src/Adapters/UniFi.antt =====
-- internal/adapters/unifi.go: what the UniFi controller's API returns, decoded.
use homelab_api.Base.{Text, Bool, Option, List}
use homelab_api.Base.Int.{ℤ}
use homelab_api.Base.Float.{Float64, Any}

pub record UniFiVap : Type 0 where
  pub id : Text
  pub up : Bool

pub record UniFiPortEntry : Type 0 where
  pub ifname : Text
  pub port_idx : ℤ
  pub up : Bool
  pub speed : ℤ
  pub port_poe : Bool
  pub poe_mode : Text
  pub poe_power : Text
  pub tx_bytes : ℤ
  pub rx_bytes : ℤ
  pub tx_bytes_r : Float64
  pub rx_bytes_r : Float64
  pub name : Text
  pub forward : Text
  pub native_network_conf_id : Option Text
  pub tagged_vlan_mgmt : Text
  pub excluded_network_conf_ids : List Text
  pub sfp_found : Option Bool
  pub uptime : Option ℤ
  pub aggregated_by : Any

pub record UniFiUplink : Type 0 where
  pub uplink_mac : Text
  pub uplink_device_name : Text
  pub uplink_remote_port : Option ℤ
  pub port_idx : Option ℤ
  pub speed : ℤ
  pub tx_bytes_r : Float64
  pub rx_bytes_r : Float64
  pub tx_bytes : ℤ
  pub rx_bytes : ℤ

pub record UniFiWanIface : Type 0 where
  pub name : Text
  pub ip : Text
  pub up : Bool
  pub dns : List Text
  pub tx_bytes : ℤ
  pub rx_bytes : ℤ
  pub tx_bytes_r : Float64
  pub rx_bytes_r : Float64

pub record UniFiDevice : Type 0 where
  pub id : Text
  pub mac : Text
  pub name : Text
  pub model : Text
  pub type : Text
  pub state : ℤ
  pub ip : Text
  pub version : Text
  pub uptime : ℤ
  pub user_num_sta : ℤ
  pub guest_num_sta : ℤ
  pub tx_bytes : ℤ
  pub rx_bytes : ℤ
  pub port_table : List UniFiPortEntry
  pub vap_table : List UniFiVap
  pub uplink : Option UniFiUplink
  pub wan1 : Option UniFiWanIface
  pub wan2 : Option UniFiWanIface

pub record UniFiWlanConf : Type 0 where
  pub id : Text
  pub name : Text
  pub network_conf_id : Text
  pub security : Text
  pub wpa_mode : Text
  pub wpa3_support : Bool
  pub wpa3_transition : Bool
  pub wlan_bands : List Text
  pub enabled : Bool

pub record UniFiNetworkConf : Type 0 where
  pub id : Text
  pub name : Text
  pub purpose : Text
  pub network_group : Text
  pub vlan : Any
  pub vlan_enabled : Bool
  pub ip_subnet : Text
  pub dhcpd_enabled : Bool
  pub dhcp_relay_enabled : Bool
  pub dhcpd_start : Text
  pub dhcpd_stop : Text
  pub dhcpd_dns1 : Text
  pub dhcpd_dns2 : Text
  pub wan_network_group : Text
  pub wan_dns1 : Text
  pub wan_dns2 : Text

pub record UniFiSta : Type 0 where
  pub mac : Text
  pub hostname : Option Text
  pub name : Option Text
  pub ip : Text
  pub is_wired : Bool
  pub essid : Option Text
  pub signal : Option ℤ
  pub uptime : ℤ
  pub sw_mac : Text
  pub sw_port : ℤ
  pub last_uplink_name : Text
  pub ap_mac : Text
  pub wired_rate_mbps : ℤ

pub record UniFiClientV2 : Type 0 where
  pub id : Text
  pub mac : Text
  pub display_name : Text
  pub name : Option Text
  pub hostname : Option Text
  pub ip : Text
  pub last_ip : Text
  pub is_wired : Bool
  pub status : Text
  pub last_uplink_name : Text
  pub uptime : ℤ
  pub essid : Option Text
  pub signal : Option ℤ
  pub last_seen : ℤ
  pub last_uplink_mac : Text

pub record UniFiSubsystemHealth : Type 0 where
  pub subsystem : Text
  pub status : Text
