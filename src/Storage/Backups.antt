-- ===== src/Storage/Backups.antt =====
-- internal/storage/backups_service.go: the backup tasks, with the part of the service's state
-- (internal/storage/service.go) that they use.
pub mod Laws
mod Tests
use homelab_api.Base.{
  Text, ◌==◌, lit, Bool, true, not, if◌then◌else◌, Option, some, none, List, [], ◌∷◌, ◌++◌, map,
  find, filter, has_prefix, contains, ℕ,
}
use homelab_api.Base.Int.{ℤ, pos, int_eq, int_mul, wrap_int64}
use homelab_api.Base.Int.Decimal.{format}
use homelab_api.Base.Dict.{Dict}
use homelab_api.Base.Result.{plain, quoted, Result, ok, err, ◌>>=◌, wrapping, wrap, err_not_found}
use homelab_api.Base.Loop.{Round, next, skip, Warning, Logged, for_each}
use homelab_api.ApiErrors.{parse_composite_id}
use homelab_api.Adapters.Registry.{Registry, BackendEntry, new_registry}
use homelab_api.Adapters.Registry
use homelab_api.Adapters.Listing.{is_unavailable, is_filtered_out, or_fail}
use homelab_api.Adapters.Synology.Backups.{
  DsmBackupTask, DsmBackupTaskDetailResponse, DsmBackupTaskStatusResponse, DsmBackupTargetResponse,
  DsmBackupFolderEntry,
}

-- What the backend answers while a request is served. `parse_local` is time.ParseInLocation for
-- "2006/01/02 15:04" at its Location, in UTC, and none for an error.
pub record BackupBackend : Type 0 where
  pub supports_backups : Bool
  pub parse_local : Text → Option ℕ
  pub list_backup_tasks : Result (List DsmBackupTask)
  pub get_backup_task_detail : ℤ → Result DsmBackupTaskDetailResponse
  pub get_backup_task_status : ℤ → Result DsmBackupTaskStatusResponse
  pub get_backup_target : ℤ → Result DsmBackupTargetResponse

pub record Service : Type 0 where
  pub backup_backends : Registry BackupBackend
  pub monitor : Option (Text → Bool)

unfoldable pub new_service : Dict BackupBackend → Option (Text → Bool) → Service
new_service backup_backends monitor = record {
  backup_backends = new_registry backup_backends;
  monitor = monitor;
}

pub data BackupTaskStatus : Type 0 where
  idle running suspended failing : BackupTaskStatus

pub data BackupTaskResult : Type 0 where
  success warning failed skipped unknown : BackupTaskResult

pub record BackupTask : Type 0 where
  pub device : Text
  pub id : Text
  pub name : Text
  pub status : BackupTaskStatus
  pub last_result : BackupTaskResult
  pub type : Text

pub record BackupTaskDetail : Type 0 where
  pub device : Text
  pub id : Text
  pub name : Text
  pub status : BackupTaskStatus
  pub last_result : BackupTaskResult
  pub type : Text
  pub last_run_at : Option ℕ
  pub next_run_at : Option ℕ
  pub size : Option ℤ
  pub folders : Option (List Text)

-- `if !backend.SupportsBackups() { return nil, … }`
supporting : Text → BackupBackend → Result BackupBackend
supporting device backend =
    if not backend.supports_backups
    then err (
        wrap (plain (lit "device ") ∷ quoted device ∷ plain (lit " does not support backups") ∷ [])
          err_not_found)
    else ok backend

unfoldable pub find_backup_backend : Service → Text → Result BackupBackend
unfolding supporting
find_backup_backend s device = elim (Registry.find s.backup_backends device) [
  | none ↦ err (wrap (plain (lit "unknown device ") ∷ quoted device ∷ []) err_not_found)
  | some backend ↦ supporting device backend
]

unfoldable pub parse_task_id : Text → Result (Text × Text)
parse_task_id id = parse_composite_id id (lit "task ID") (lit "device.taskId")

-- fmt.Sprintf("%s.%d", device, taskID)
unfoldable pub task_id_of : Text → ℤ → Text
task_id_of device task_id = device ++ b'.' ∷ format task_id

unfoldable pub map_backup_status : Text → BackupTaskStatus
map_backup_status state =
    if state == lit "backupable"
    then idle
    else if state == lit "running"
    then running
    else if state == lit "suspend"
    then suspended
    else if state == lit "error"
    then failing
    else idle

unfoldable pub map_backup_result : Option DsmBackupTaskStatusResponse → BackupTaskResult
map_backup_result none = unknown
map_backup_result (some status) =
    if status.last_bkp_result == lit "done"
    then (if not (int_eq status.last_bkp_error_code (pos 0)) then warning else success)
    else if status.last_bkp_result == lit "error"
    then failed
    else if status.last_bkp_result == lit "skip"
    then skipped
    else unknown

unfoldable pub map_backup_type : Text → Text
map_backup_type t =
    if has_prefix t (lit "image:")
    then lit "hyperBackup"
    else if contains t (lit "glacier")
    then lit "glacierBackup"
    else t

-- The value that an error leaves nil; the callers log the error.
abbrev pub or_nil : {A : Type 0} → Result A → Option A
or_nil (ok a) = some a
or_nil (err e) = none

-- s.logger.Warn("backup task status lookup failed", …)
abbrev pub failure_of : {A : Type 0} → Text → Text → Result A → List Warning
failure_of message device (ok a) = []
failure_of message device (err e) = record { message = message; subject = device; error = e } ∷ []

unfoldable pub map_task : Text → BackupBackend → DsmBackupTask → BackupTask
map_task device backend t = record {
  device = device;
  id = task_id_of device t.task_id;
  name = t.name;
  status = map_backup_status t.state;
  last_result = map_backup_result (or_nil (backend.get_backup_task_status t.task_id));
  type = map_backup_type t.type;
}

unfoldable pub status_warnings : Text → BackupBackend → List DsmBackupTask → List Warning
status_warnings device backend [] = []
status_warnings device backend (t ∷ ts) =
    failure_of (lit "backup task status lookup failed") device
      (backend.get_backup_task_status t.task_id)
    ++ status_warnings device backend ts

-- The three tests in front of a round.
abbrev pub is_skipped : Service → Option Text → BackendEntry BackupBackend → Bool
is_skipped s device entry =
    if is_filtered_out device entry.name
    then true
    else if not entry.backend.supports_backups
    then true
    else is_unavailable s.monitor entry.name

-- One round of the loop of ListBackupTasks.
unfoldable pub tasks_round : Service → Option Text → BackendEntry BackupBackend → Round BackupTask
tasks_round s device entry =
    if is_skipped s device entry
    then skip
    else or_fail device (plain (lit "list backup tasks from ") ∷ plain entry.name ∷ [])
        (lit "skipping backend on list backup tasks error") entry.name
        entry.backend.list_backup_tasks
        (λ tasks.
          next (map (map_task entry.name entry.backend) tasks)
            (status_warnings entry.name entry.backend tasks))

unfoldable pub list_backup_tasks : Service → Option Text → Logged (List BackupTask)
list_backup_tasks s device = for_each (tasks_round s device) s.backup_backends

unfoldable pub parse_backup_time : BackupBackend → Text → Option ℕ
parse_backup_time backend s = if s == [] then none else backend.parse_local s

-- The times of a status, which are empty for nil.
abbrev last_success : Option DsmBackupTaskStatusResponse → Text
last_success none = []
last_success (some status) = status.last_bkp_success_time

abbrev next_time : Option DsmBackupTaskStatusResponse → Text
next_time none = []
next_time (some status) = status.next_bkp_time

-- `v := target.UsedSize * 1024`
unfoldable pub size_of : Option DsmBackupTargetResponse → Option ℤ
size_of none = none
size_of (some target) = some (wrap_int64 (int_mul target.used_size (pos 1024)))

-- `if len(fl) > 0 { folders = &fl }`
abbrev unless_empty : List Text → Option (List Text)
unless_empty [] = none
unless_empty (f ∷ fs) = some (f ∷ fs)

unfoldable pub folders_of : Option DsmBackupTaskDetailResponse → Option (List Text)
folders_of none = none
folders_of (some detail) = unless_empty (
    filter (λ (p : Text). not (p == []))
      (map (λ (f : DsmBackupFolderEntry). f.full_path) detail.source.folder_list))

unfoldable pub build_task_detail : Text → BackupBackend → DsmBackupTask → BackupTaskDetail
build_task_detail device backend t =
    let status = or_nil (backend.get_backup_task_status t.task_id) in
    record {
      device = device;
      id = task_id_of device t.task_id;
      name = t.name;
      status = map_backup_status t.state;
      last_result = map_backup_result status;
      type = map_backup_type t.type;
      last_run_at = parse_backup_time backend (last_success status);
      next_run_at = parse_backup_time backend (next_time status);
      size = size_of (or_nil (backend.get_backup_target t.task_id));
      folders = folders_of (or_nil (backend.get_backup_task_detail t.task_id));
    }

-- `compositeID == taskID`
unfoldable pub is_task : Text → Text → DsmBackupTask → Bool
is_task device id t = task_id_of device t.task_id == id

-- What GetBackupTask logs of a failed lookup is left out.
unfoldable pub get_backup_task : Service → Text → Result BackupTaskDetail
get_backup_task s id = do
  (device, suffix) ← parse_task_id id
  backend ← find_backup_backend s device
  tasks ←
      wrapping (plain (lit "get backup task from ") ∷ plain device ∷ []) backend.list_backup_tasks
  elim (find (is_task device id) tasks) [
    | some t ↦ ok (build_task_detail device backend t)
    | none ↦ err (wrap (plain (lit "backup task not found: ") ∷ plain id ∷ []) err_not_found)
  ]
