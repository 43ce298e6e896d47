-- ===== src/Adapters/Controller/Methods.antt =====
-- internal/adapters/unifi.go: the methods for the controller's APIs. Decoding is a parameter.
use homelab_api.Base.{Text, lit, not, ◌==◌, if◌then◌else◌, List, [], ◌∷◌, ◌++◌}
use homelab_api.Base.Int.{ℤ, pos, int_mul, wrap_int64}
use homelab_api.Base.Int.Decimal.{format}
use homelab_api.Base.Result.{plain, Result, wrap}
use homelab_api.Base.Action.{pure, mapping, ◌>>=◌}
use homelab_api.Adapters.UniFi.{
  UniFiDevice, UniFiSta, UniFiClientV2, UniFiSubsystemHealth, UniFiWlanConf, UniFiNetworkConf,
}
use homelab_api.Adapters.Controller.{Network, Controller, Action, get}

-- The envelope of the answers of the first API.
pub record UniFiResponse (A : Type 0) : Type 0 where
  pub rc : Text
  pub payload : A

-- json.Unmarshal into each of the response types.
pub record Codec : Type 0 where
  pub json_devices : Text → Result (UniFiResponse (List UniFiDevice))
  pub json_clients : Text → Result (UniFiResponse (List UniFiSta))
  pub json_clients_v2 : Text → Result (List UniFiClientV2)
  pub json_health : Text → Result (UniFiResponse (List UniFiSubsystemHealth))
  pub json_wlan_conf : Text → Result (UniFiResponse (List UniFiWlanConf))
  pub json_network_conf : Text → Result (UniFiResponse (List UniFiNetworkConf))

unfoldable pub path_prefix : Controller → Text
path_prefix c = if not (c.client.api_key == []) then lit "/proxy/network" else []

module _ (network : Network) (codec : Codec) where
  -- `c.get(ctx, c.pathPrefix()+path, &result); …; return result.Data, nil`
  abbrev get_data : {A : Type 0} → (Text → Result (UniFiResponse A)) → Text → Action A
  get_data {A = A} decode path c =
      ((get network decode (path_prefix c ++ path)) >>= λ (r : UniFiResponse A). pure r.payload) c

  unfoldable pub get_devices : Action (List UniFiDevice)
  get_devices = get_data codec.json_devices (lit "/api/s/default/stat/device")

  unfoldable pub get_clients : Action (List UniFiSta)
  get_clients = get_data codec.json_clients (lit "/api/s/default/stat/sta")

  unfoldable pub get_health : Action (List UniFiSubsystemHealth)
  get_health = get_data codec.json_health (lit "/api/s/default/stat/health")

  unfoldable pub get_wlan_conf : Action (List UniFiWlanConf)
  get_wlan_conf = get_data codec.json_wlan_conf (lit "/api/s/default/rest/wlanconf")

  unfoldable pub get_network_conf : Action (List UniFiNetworkConf)
  get_network_conf = get_data codec.json_network_conf (lit "/api/s/default/rest/networkconf")

  unfoldable pub get_active_clients : Action (List UniFiClientV2)
  get_active_clients c =
      get network codec.json_clients_v2
        (path_prefix c
          ++ lit
              "/v2/api/site/default/clients/active?includeTrafficUsage=false&includeUnifiDevices=false")
        c

  unfoldable pub get_offline_clients : ℤ → Action (List UniFiClientV2)
  get_offline_clients history_days c =
      get network codec.json_clients_v2
        (path_prefix c
          ++ lit "/v2/api/site/default/clients/history?onlyNonBlocked=true&withinHours="
          ++ format (wrap_int64 (int_mul history_days (pos 24))))
        c

  unfoldable pub get_all_clients : ℤ → Action (List UniFiClientV2)
  get_all_clients history_days = do
    active ← mapping (wrap (plain (lit "fetch active clients") ∷ [])) get_active_clients
    offline ←
        mapping (wrap (plain (lit "fetch offline clients") ∷ [])) (get_offline_clients history_days)
    pure (active ++ offline)
