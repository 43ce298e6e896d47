-- ===== src/Adapters/Synology/Backups.antt =====
-- internal/adapters/synology.go: the DSM's backup tasks and scheduled tasks, decoded.
use homelab_api.Base.{Text, Bool, List}
use homelab_api.Base.Int.{ℤ}

pub record DsmBackupTask : Type 0 where
  pub task_id : ℤ
  pub name : Text
  pub state : Text
  pub status : Text
  pub type : Text
  pub transfer_type : Text
  pub target_id : Text
  pub target_type : Text
  pub data_enc : Bool

pub record DsmBackupTaskListResponse : Type 0 where
  pub task_list : List DsmBackupTask
  pub total : ℤ
  pub is_data_restoring : Bool
  pub is_downloading : Bool
  pub is_lun_restoring : Bool
  pub is_restoring : Bool
  pub is_snapshot_restore : Bool

pub record DsmScheduledTask : Type 0 where
  pub id : ℤ
  pub name : Text
  pub action : Text
  pub app_name : Text
  pub enable : Bool
  pub next_trigger_time : Text
  pub owner : Text
  pub type : Text

pub record DsmTaskSchedulerListResponse : Type 0 where
  pub tasks : List DsmScheduledTask
  pub total : ℤ

pub record DsmBackupLogEntry : Type 0 where
  pub event : Text
  pub level : Text
  pub time : Text
  pub user : Text

pub record DsmBackupLogListResponse : Type 0 where
  pub log_list : List DsmBackupLogEntry
  pub total : ℤ
  pub error_count : ℤ
  pub info_count : ℤ

pub record DsmBackupFolderEntry : Type 0 where
  pub full_path : Text

pub record DsmBackupSource : Type 0 where
  pub folder_list : List DsmBackupFolderEntry

pub record DsmBackupTaskDetailResponse : Type 0 where
  pub task_id : ℤ
  pub name : Text
  pub state : Text
  pub source : DsmBackupSource

pub record DsmBackupTaskStatusResponse : Type 0 where
  pub task_id : ℤ
  pub state : Text
  pub status : Text
  pub last_bkp_result : Text
  pub last_bkp_error_code : ℤ
  pub last_bkp_success_time : Text
  pub last_bkp_time : Text
  pub next_bkp_time : Text
  pub is_modified : Bool

-- `used_size` is in kilobytes.
pub record DsmBackupTargetResponse : Type 0 where
  pub used_size : ℤ
  pub is_online : Bool
