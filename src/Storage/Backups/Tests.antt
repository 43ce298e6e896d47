-- ===== src/Storage/Backups/Tests.antt =====
-- A device with one backup task.
use homelab_api.Base.{lit, true, none, [], ◌∷◌, ◌≡◌, refl, inl, arith}
use homelab_api.Base.Int.{pos}
use homelab_api.Base.Result.{ok, err, plain}
use homelab_api.Base.Loop.{for_each}
use homelab_api.Adapters.Synology.Backups.{DsmBackupTask}
use homelab_api.Storage.Backups.{
  Service, BackupBackend, BackupTask, list_backup_tasks, tasks_round, map_task,
}
use homelab_api.Storage.Backups.Laws.{
  IsRoutable, Origin, IsFound, get_backup_task-list_backup_tasks,
}

abbrev nightly : DsmBackupTask
nightly = record {
  task_id = pos 7;
  name = lit "Nightly";
  state = lit "backupable";
  status = lit "none";
  type = lit "cloud";
  transfer_type = [];
  target_id = [];
  target_type = [];
  data_enc = true;
}

abbrev backend : BackupBackend
backend = record {
  supports_backups = true;
  parse_local = λ s. none;
  list_backup_tasks = ok (nightly ∷ []);
  get_backup_task_detail =
      λ n. err (record { message = plain (lit "timeout") ∷ []; not_found = true });
  get_backup_task_status =
      λ n. err (record { message = plain (lit "timeout") ∷ []; not_found = true });
  get_backup_target = λ n. ok (record { used_size = pos 3; is_online = true });
}

abbrev one_device : Service
one_device = record {
  backup_backends = record { name = lit "nas"; backend = backend } ∷ [];
  monitor = none;
}

abbrev listed : BackupTask
listed = map_task (lit "nas") backend nightly

one_device_listed : (list_backup_tasks one_device none).result ≡ ok (listed ∷ [])
unfolding list_backup_tasks tasks_round for_each
one_device_listed = refl

one_device-IsRoutable : IsRoutable one_device
unfolding lit
one_device-IsRoutable = record {
  distinct = (tt, tt);
  plain_names = ((λ e. cc, (ground arith, (ground arith, (ground arith, tt)))), tt);
}

get_backup_task-list_backup_tasks_example :
    (o : Origin one_device none listed) × IsFound one_device none listed o
get_backup_task-list_backup_tasks_example =
    get_backup_task-list_backup_tasks one_device none (listed ∷ []) listed one_device_listed
      (inl refl) one_device-IsRoutable
