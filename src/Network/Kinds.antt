-- ===== src/Network/Kinds.antt =====
-- mapDeviceType and mapDeviceStatus of internal/network/devices_service.go.
use homelab_api.Base.{Text, lit, ◌==◌, ◌||◌, if◌then◌else◌}
use homelab_api.Base.Int.{ℤ, pos, int_eq}

pub data DeviceType : Type 0 where
  access_point switch gateway unknown_device : DeviceType

unfoldable pub map_device_type : Text → DeviceType
map_device_type t =
    if t == lit "uap"
    then access_point
    else if t == lit "usw"
    then switch
    else if t == lit "ugw" || t == lit "udm" || t == lit "udm-pro"
    then gateway
    else unknown_device

pub data DeviceStatus : Type 0 where
  connected disconnected : DeviceStatus

unfoldable pub map_device_status : ℤ → DeviceStatus
map_device_status state = if int_eq state (pos 1) then connected else disconnected
