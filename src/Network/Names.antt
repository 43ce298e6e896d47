-- ===== src/Network/Names.antt =====
-- The names and composite-ID suffixes of clients, of internal/network/clients_service.go.
use homelab_api.Base.{
  Text, lit, ◌==◌, Bool, not, if◌then◌else◌, Option, some, none, [], ◌++◌, length, take, filter,
  leb, eqb, ℕ,
}
use homelab_api.Base.Strings.Lower.{Unicode}
use homelab_api.Adapters.UniFi.{UniFiSta, UniFiClientV2}
use homelab_api.Network.Kebab.{to_kebab, normalize_mac}

pub data ConnectionType : Type 0 where
  wired wireless : ConnectionType

-- `if p != nil && *p != ""`, or else the next choice
unfoldable pub given_or : Option Text → Text → Text
given_or none otherwise = otherwise
given_or (some t) otherwise = if not (t == []) then t else otherwise

unfoldable pub client_name : UniFiSta → Text
unfolding given_or
client_name sta = given_or sta.name (given_or sta.hostname sta.mac)

unfoldable pub client_name_v2 : UniFiClientV2 → Text
unfolding given_or
client_name_v2 c = given_or c.name (given_or c.hostname c.mac)

-- strings.ReplaceAll(s, "b", "") for one byte
abbrev without : ℕ → Text → Text
without b s = filter (λ c. not (eqb c b)) s

-- The first two bytes, where there are as many.
two_or : Text → Text → Text
two_or s otherwise = if leb 2 (length s) then take 2 s else otherwise

unfoldable pub mac_hex_prefix : Text → Text → Text
unfolding two_or
mac_hex_prefix mac fallback_id =
    two_or (without b':' mac) (two_or (without b'-' fallback_id) (lit "xx"))

unfoldable pub map_connection_type : Bool → ConnectionType
map_connection_type is_wired = if is_wired then wired else wireless

-- "{kebab-name}-{mac-prefix}"
unfoldable pub client_suffix : ⦃u : Unicode⦄ → UniFiSta → Text
client_suffix sta =
    to_kebab (client_name sta) ++ lit "-" ++ mac_hex_prefix (normalize_mac sta.mac) []

-- The same for a client of the v2 API; the source spells it out at each use.
unfoldable pub client_suffix_v2 : ⦃u : Unicode⦄ → UniFiClientV2 → Text
client_suffix_v2 c =
    to_kebab (client_name_v2 c) ++ lit "-" ++ mac_hex_prefix (normalize_mac c.mac) c.id
