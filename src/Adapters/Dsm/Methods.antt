-- ===== src/Adapters/Dsm/Methods.antt =====
-- internal/adapters/synology.go: the methods for the DSM's APIs. Each is a Call, the decoding of its
-- payload by encoding/json, a parameter `Codec`, and for containers the translation of the code for
-- a container that does not exist.
pub mod Laws
use homelab_api.Base.{Text, lit, if◌then◌else◌, List, [], ◌∷◌}
use homelab_api.Base.Int.{ℤ, pos, int_eq}
use homelab_api.Base.Int.Decimal.{format}
use homelab_api.Base.Dict.{Dict}
use homelab_api.Base.Result.{plain, quoted, Result, ok, err, wrap, err_not_found}
use homelab_api.Adapters.Synology.{
  DsmContainer, DsmContainerDetailResponse, DsmContainerResource, DsmDockerNetworkItem,
  DsmDockerImageItem, DsmStorageVolumeResponse,
}
use homelab_api.Adapters.Synology.System.{DsmSystemInfoResponse, DsmSystemUtilizationResponse}
use homelab_api.Adapters.Synology.Backups.{
  DsmBackupTaskListResponse, DsmTaskSchedulerListResponse, DsmBackupLogListResponse,
  DsmBackupTaskDetailResponse, DsmBackupTaskStatusResponse, DsmBackupTargetResponse,
}
use homelab_api.Adapters.Dsm.{
  DsmError, api_error, other, Web, Outcome, good, bad, Action, mapping, ◌>>=◌,
}
use homelab_api.Adapters.Dsm.Session.{call}

-- json.Unmarshal into each of the response types.
pub record Codec : Type 0 where
  pub json_containers : Text → Result (List DsmContainer)
  pub json_container : Text → Result DsmContainerDetailResponse
  pub json_container_resources : Text → Result (List DsmContainerResource)
  pub json_system_info : Text → Result DsmSystemInfoResponse
  pub json_system_utilization : Text → Result DsmSystemUtilizationResponse
  pub json_storage_volumes : Text → Result DsmStorageVolumeResponse
  pub json_docker_networks : Text → Result (List DsmDockerNetworkItem)
  pub json_docker_images : Text → Result (List DsmDockerImageItem)
  pub json_backup_tasks : Text → Result DsmBackupTaskListResponse
  pub json_scheduled_tasks : Text → Result DsmTaskSchedulerListResponse
  pub json_backup_logs : Text → Result DsmBackupLogListResponse
  pub json_backup_task_detail : Text → Result DsmBackupTaskDetailResponse
  pub json_backup_task_status : Text → Result DsmBackupTaskStatusResponse
  pub json_backup_target : Text → Result DsmBackupTargetResponse

-- mapContainerNotFound, for an error
unfoldable pub map_container_not_found : Text → DsmError → DsmError
map_container_not_found name (other e) = other e
map_container_not_found name (api_error api code) =
    if int_eq code (pos 117)
    then other (wrap (plain (lit "container ") ∷ quoted name ∷ []) err_not_found)
    else api_error api code

abbrev parsed : {A : Type 0} → Text → Result A → Outcome DsmError A
parsed what (ok a) = good a
parsed what (err e) = bad (other (wrap (plain (lit "parse ") ∷ plain what ∷ []) e))

module _ (web : Web) where
  -- `data, err := c.Call(…); if err != nil { … }; json.Unmarshal(data, &result); …`
  unfoldable pub decoded_call :
      {A : Type 0} → (Text → Result A) → Text → Text → Text → Text → Dict Text → Action DsmError A
  decoded_call decode what api method version extra = do
    payload ← call web api method version extra
    λ d. (parsed what (decode payload), d)

  -- The parameter `name` of the requests about one container.
  abbrev named : Text → Dict Text
  named name = (lit "name", name) ∷ []

  -- `_, err := c.Call(…); return mapContainerNotFound(name, err)`
  unfoldable pub command : Text → Text → Action DsmError Unit
  command method name = do
    ignored ←
        mapping (map_container_not_found name)
          (call web (lit "SYNO.Docker.Container") method (lit "1") (named name))
    λ d. (good tt, d)

  unfoldable pub start_container : Text → Action DsmError Unit
  start_container name = command (lit "start") name

  unfoldable pub stop_container : Text → Action DsmError Unit
  stop_container name = command (lit "stop") name

  unfoldable pub restart_container : Text → Action DsmError Unit
  restart_container name = command (lit "restart") name

  -- A task's ID, with %d, in front of the other parameters.
  abbrev for_task : ℤ → Dict Text → Dict Text
  for_task task_id extra = (lit "task_id", format task_id) ∷ extra

  module _ (codec : Codec) where
    -- An error of decoding is returned as it is: no DSMAPIError is in it.
    unfoldable pub get_container : Text → Action DsmError DsmContainerDetailResponse
    get_container name = do
      payload ←
          mapping (map_container_not_found name)
            (call web (lit "SYNO.Docker.Container") (lit "get") (lit "1") (named name))
      λ d. (parsed (lit "container detail") (codec.json_container payload), d)

    unfoldable pub list_containers : Action DsmError (List DsmContainer)
    list_containers =
        decoded_call codec.json_containers (lit "container list") (lit "SYNO.Docker.Container")
          (lit "list") (lit "1") ((lit "limit", lit "0") ∷ (lit "offset", lit "0") ∷ [])

    unfoldable pub get_container_resources : Action DsmError (List DsmContainerResource)
    get_container_resources =
        decoded_call codec.json_container_resources (lit "container resources")
          (lit "SYNO.Docker.Container.Resource") (lit "get") (lit "1") []

    unfoldable pub get_system_info : Action DsmError DsmSystemInfoResponse
    get_system_info =
        decoded_call codec.json_system_info (lit "system info") (lit "SYNO.Core.System")
          (lit "info") (lit "1") []

    unfoldable pub get_system_utilization : Action DsmError DsmSystemUtilizationResponse
    get_system_utilization =
        decoded_call codec.json_system_utilization (lit "system utilization")
          (lit "SYNO.Core.System.Utilization") (lit "get") (lit "1") []

    unfoldable pub get_storage_volumes : Action DsmError DsmStorageVolumeResponse
    get_storage_volumes =
        decoded_call codec.json_storage_volumes (lit "storage volumes")
          (lit "SYNO.Storage.CGI.Storage") (lit "load_info") (lit "1") []

    unfoldable pub list_docker_networks : Action DsmError (List DsmDockerNetworkItem)
    list_docker_networks =
        decoded_call codec.json_docker_networks (lit "docker network list")
          (lit "SYNO.Docker.Network") (lit "list") (lit "1") []

    unfoldable pub list_docker_images : Action DsmError (List DsmDockerImageItem)
    list_docker_images =
        decoded_call codec.json_docker_images (lit "docker image list") (lit "SYNO.Docker.Image")
          (lit "list") (lit "1")
          ((lit "limit", lit "-1") ∷ (lit "offset", lit "0") ∷ (lit "show_dsm", lit "false") ∷ [])

    unfoldable pub list_backup_tasks : Action DsmError DsmBackupTaskListResponse
    list_backup_tasks =
        decoded_call codec.json_backup_tasks (lit "backup task list") (lit "SYNO.Backup.Task")
          (lit "list") (lit "1") []

    unfoldable pub list_scheduled_tasks : Action DsmError DsmTaskSchedulerListResponse
    list_scheduled_tasks =
        decoded_call codec.json_scheduled_tasks (lit "task scheduler list")
          (lit "SYNO.Core.TaskScheduler") (lit "list") (lit "2")
          ((lit "offset", lit "0") ∷ (lit "limit", lit "50") ∷ [])

    unfoldable pub list_backup_logs : ℤ → Action DsmError DsmBackupLogListResponse
    list_backup_logs task_id =
        decoded_call codec.json_backup_logs (lit "backup logs")
          (lit "SYNO.SDS.Backup.Client.Common.Log") (lit "list") (lit "1")
          (for_task task_id ((lit "offset", lit "0") ∷ (lit "limit", lit "100") ∷ []))

    unfoldable pub get_backup_task_detail : ℤ → Action DsmError DsmBackupTaskDetailResponse
    get_backup_task_detail task_id =
        decoded_call codec.json_backup_task_detail (lit "backup task detail")
          (lit "SYNO.Backup.Task") (lit "get") (lit "1")
          (for_task task_id ((lit "additional", lit "[\"repository\",\"schedule\"]") ∷ []))

    unfoldable pub get_backup_task_status : ℤ → Action DsmError DsmBackupTaskStatusResponse
    get_backup_task_status task_id =
        decoded_call codec.json_backup_task_status (lit "backup task status")
          (lit "SYNO.Backup.Task") (lit "status") (lit "1")
          (for_task task_id (
            (lit "blOnline", lit "false")
            ∷ (
              lit "additional",
              lit
                  "[\"last_bkp_time\",\"next_bkp_time\",\"last_bkp_result\",\"is_modified\",\"last_bkp_progress\",\"last_bkp_success_version\"]",
            )
            ∷ []))

    unfoldable pub get_backup_target : ℤ → Action DsmError DsmBackupTargetResponse
    get_backup_target task_id =
        decoded_call codec.json_backup_target (lit "backup target") (lit "SYNO.Backup.Target")
          (lit "get") (lit "1")
          (for_task task_id (
            (
              lit "additional",
              lit
                  "[\"is_online\",\"used_size\",\"check_task_key\",\"check_auth\",\"account_meta\"]",
            )
            ∷ []))
