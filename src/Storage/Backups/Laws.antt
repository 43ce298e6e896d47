-- ===== src/Storage/Backups/Laws.antt =====
-- internal/storage/backups_service.go: the tasks that are listed, and that each can be looked up.
use homelab_api.Base.{
  Text, lit, ==_refl, ==_sound, true, false, Option, some, none, List, [], ◌∷◌, ◌≡◌, ◌≢◌, refl, sym,
  ap, ◌∙◌, arith, All, All-In, Distinct, In, In-map_inv, find, find_of_In, drop, length,
  drop-append,
}
use homelab_api.Base.Strings.Cut.{Lacks}
use homelab_api.Base.Int.{ℤ}
use homelab_api.Base.Int.Decimal.{format, format_inj, format-filled}
use homelab_api.Base.Result.{ok, err, wrap, plain, err_not_found}
use homelab_api.Base.Loop.{for_each_inv, Appended-next, Appended-guard}
use homelab_api.ApiErrors.Laws.{parse_composite_id_iff}
use homelab_api.Adapters.Registry.{BackendEntry}
use homelab_api.Adapters.Registry.Laws.{names, find-In}
use homelab_api.Adapters.Listing.{Appended-or_fail}
use homelab_api.Adapters.Synology.Backups.{DsmBackupTask}
use homelab_api.Storage.Backups.{
  BackupBackend, Service, BackupTask, BackupTaskDetail, supporting, find_backup_backend,
  parse_task_id, task_id_of, map_task, is_skipped, tasks_round, list_backup_tasks,
  build_task_detail, parse_backup_time, is_task, get_backup_task,
}

-- The devices' names differ, and each can stand in a composite ID.
pub record IsRoutable (s : Service) : Type 0 where
  pub distinct : Distinct (names s.backup_backends)
  pub plain_names :
      All (λ (e : BackendEntry BackupBackend). (e.name ≢ []) × Lacks b'.' e.name) s.backup_backends

module _ (s : Service) where
  -- Where an item of the list comes from.
  pub record Origin (device : Option Text) (w : BackupTask) : Type 0 where
    pub entry : BackendEntry BackupBackend
    pub listed : In entry s.backup_backends
    pub read : is_skipped s device entry ≡ false
    pub tasks : List DsmBackupTask
    pub got : entry.backend.list_backup_tasks ≡ ok tasks
    pub task : DsmBackupTask
    pub here : In task tasks
    pub built : map_task entry.name entry.backend task ≡ w

  list_backup_tasks-Origin :
      (device : Option Text) (items : List BackupTask) (w : BackupTask)
      → (list_backup_tasks s device).result ≡ ok items
      → In w items
      → Origin device w
  unfolding list_backup_tasks tasks_round
  list_backup_tasks-Origin device items w h i =
      let (entry, j, added) = for_each_inv (tasks_round s device) s.backup_backends items w h i in
      let (read, a) = Appended-guard w (is_skipped s device entry) _ added in
      let (tasks, got, b) = Appended-or_fail w device _ _ _ entry.backend.list_backup_tasks _ a in
      let (task, here, built) =
        In-map_inv (map_task entry.name entry.backend) w tasks (Appended-next w b) in
      record {
        entry = entry;
        listed = j;
        read = read;
        tasks = tasks;
        got = got;
        task = task;
        here = here;
        built = built;
      }

  supported :
      (device : Option Text) (entry : BackendEntry BackupBackend)
      → is_skipped s device entry ≡ false
      → entry.backend.supports_backups ≡ true
  supported device entry h = ground arith

  module _ (ready : IsRoutable s) (e : BackendEntry BackupBackend)
      (i : In e s.backup_backends) where
    find_backup_backend-In :
        e.backend.supports_backups ≡ true → find_backup_backend s e.name ≡ ok e.backend
    unfolding find_backup_backend supporting
    find_backup_backend-In y =
        rw (find-In s.backup_backends e ready.distinct i, y, find_backup_backend) refl

    parse_task_id-task_id_of :
        (task_id : ℤ) → parse_task_id (task_id_of e.name task_id) ≡ ok (e.name, format task_id)
    unfolding parse_task_id task_id_of
    parse_task_id-task_id_of task_id =
        let (named, lacks) =
          All-In (λ (x : BackendEntry BackupBackend). (x.name ≢ []) × Lacks b'.' x.name)
            s.backup_backends e ready.plain_names i in
        (parse_composite_id_iff (lit "task ID") (lit "device.taskId") _ e.name (format task_id)).1
          (record {
            spelled = refl;
            no_dot = lacks;
            device_given = named;
            suffix_given = format-filled task_id;
          })

  get_backup_task_found :
      (id device suffix : Text) (backend : BackupBackend) (tasks : List DsmBackupTask)
      (t : DsmBackupTask)
      → parse_task_id id ≡ ok (device, suffix)
      → find_backup_backend s device ≡ ok backend
      → backend.list_backup_tasks ≡ ok tasks
      → find (is_task device id) tasks ≡ some t
      → get_backup_task s id ≡ ok (build_task_detail device backend t)
  unfolding get_backup_task build_task_detail parse_backup_time
  get_backup_task_found id device suffix backend tasks t p b c f =
      rw (p, b, c)
        (ap
          (λ (o : Option DsmBackupTask). elim o [
            | some x ↦ ok (build_task_detail device backend x)
            | none ↦
                err (wrap (plain (lit "backup task not found: ") ∷ plain id ∷ []) err_not_found)
          ])
          f)

  task_id_of_inj : (device : Text) (a b : ℤ) → task_id_of device a ≡ task_id_of device b → a ≡ b
  unfolding task_id_of
  task_id_of_inj device a b e =
      let tails : b'.' ∷ format a ≡ b'.' ∷ format b =
        sym (drop-append device (b'.' ∷ format a))
        ∙ ap (drop (length device)) e
        ∙ drop-append device (b'.' ∷ format b) in
      format_inj a b cc

  -- GetBackupTask finds a task that the device reports under the ID's number, with its name.
  abbrev pub IsFound : (device : Option Text) (w : BackupTask) → Origin device w → Type 0
  IsFound device w o =
      (d : BackupTaskDetail) × (get_backup_task s w.id ≡ ok d)
      × (d.id ≡ w.id)
      × (d.device ≡ w.device)
      × ((t : DsmBackupTask) × In t o.tasks × (t.task_id ≡ o.task.task_id) × (d.name ≡ t.name))

  get_backup_task-Origin :
      (device : Option Text) (w : BackupTask)
      → IsRoutable s
      → (o : Origin device w) → IsFound device w o
  unfolding map_task build_task_detail is_task
  get_backup_task-Origin device w ready o =
      let id : task_id_of o.entry.name o.task.task_id ≡ w.id =
        ap (λ (x : BackupTask). x.id) o.built in
      let (t, found, at, y) =
        find_of_In (is_task o.entry.name w.id) o.task o.tasks o.here (rw id (==_refl w.id)) in
      let same : task_id_of o.entry.name t.task_id ≡ w.id =
        ==_sound (task_id_of o.entry.name t.task_id) w.id y in
      (
        build_task_detail o.entry.name o.entry.backend t,
        get_backup_task_found w.id o.entry.name (format o.task.task_id) o.entry.backend o.tasks t
            (ap parse_task_id (sym id)
              ∙ parse_task_id-task_id_of ready o.entry o.listed o.task.task_id)
            (find_backup_backend-In ready o.entry o.listed (supported device o.entry o.read)) o.got
            found,
        same,
        ap (λ (x : BackupTask). x.device) o.built,
        (t, at, task_id_of_inj o.entry.name t.task_id o.task.task_id (same ∙ sym id), refl),
      )

  -- Every listed backup task is found under its ID, if the devices' names differ, hold no dot and
  -- are not empty: the detail has the same ID and device, and the name of a task with the same
  -- number.
  pub get_backup_task-list_backup_tasks :
      (device : Option Text) (items : List BackupTask) (w : BackupTask)
      → (list_backup_tasks s device).result ≡ ok items
      → In w items
      → IsRoutable s
      → (o : Origin device w) × IsFound device w o
  get_backup_task-list_backup_tasks device items w h i ready =
      let o = list_backup_tasks-Origin device items w h i in
      (o, get_backup_task-Origin device w ready o)
