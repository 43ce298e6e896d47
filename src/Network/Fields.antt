-- ===== src/Network/Fields.antt =====
-- The helpers of internal/network/vlans_service.go that the service files share.
use homelab_api.Base.{Text, Bool, not, if◌then◌else◌, ◌==◌, List, [], filter}
use homelab_api.Base.Int.{ℤ, pos}
use homelab_api.Base.Float.{Any, number, truncate}

-- The tag of a `vlan` field, or 1 for anything that is no number.
unfoldable pub extract_vlan_id : Any → ℤ
extract_vlan_id (number f) = truncate f
extract_vlan_id v = pos 1

pub data DhcpMode : Type 0 where
  server relay disabled : DhcpMode

unfoldable pub map_dhcp_mode : Bool → Bool → DhcpMode
map_dhcp_mode dhcpd_enabled relay_enabled =
    if dhcpd_enabled then server else if relay_enabled then relay else disabled

unfoldable pub collect_dns_servers : List Text → List Text
collect_dns_servers dns = filter (λ s. not (s == [])) dns
