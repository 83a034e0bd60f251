-- ===== src/Controller/Server.antt =====
-- What the task controller relies on in a cluster whose calls succeed.
use backup_operator.Base.{
  ◌≡◌, ◌⊎◌, String, none, some, List, true, false, Outcome, ok, fail, Error, is_not_found,
  is_already_exists,
}
use backup_operator.Kube.{NamespacedName, Labels, key_of, CronJob, CronJobSpec, ConfigMap}
use backup_operator.Api.{BackupTask, BackupRecord}
use backup_operator.Client.{Client}
use backup_operator.Controller.Objects.{
  Declared, declared, Objects, put_task, put_contents, put_cron_spec, drop_cron_spec,
}

-- A call succeeds with a value that satisfies `P`, or fails with an error that satisfies `P`.
abbrev pub Succeeds : {A W : Type 0} → (A → Type 0) → Outcome A × W → Type 0
Succeeds {A} P o = (x : A) × (o.0 ≡ ok x) × P x

abbrev pub FailsBy : {A W : Type 0} → (Error → Type 0) → Outcome A × W → Type 0
FailsBy P o = (e : Error) × (o.0 ≡ fail e) × P e

abbrev pub Trivial : {A : Type 0} → A → Type 0
Trivial x = Unit

pub record Server (C : Client) : Type 0 where
  pub objects : C.World → Objects
  -- Reading and what concerns the status, the records or the clock changes no object.
  pub now_keeps : (w : C.World) → objects (C.now w).1 ≡ objects w
  pub get_task_keeps : (n : NamespacedName) (w : C.World) → objects (C.get_task n w).1 ≡ objects w
  pub update_task_status_keeps :
      (t : BackupTask) (w : C.World) → objects (C.update_task_status t w).1 ≡ objects w
  pub list_records_keeps :
      (namespace : String) (labels : Labels) (w : C.World)
      → objects (C.list_records namespace labels w).1 ≡ objects w
  pub delete_record_keeps :
      (r : BackupRecord) (w : C.World) → objects (C.delete_record r w).1 ≡ objects w
  pub event_keeps :
      (f : BackupTask → String → Error → C.World → C.World)
      → C.recorder ≡ some f
      → (task : BackupTask) (reason : String) (e : Error) (w : C.World)
      → objects (f task reason e w) ≡ objects w
  pub get_task_reads :
      (n : NamespacedName) (w : C.World) (d : Declared)
      → (objects w).tasks n ≡ some d
      → Succeeds (λ t. (declared t ≡ d) × (key_of t.meta ≡ n)) (C.get_task n w)
  -- An update stores a task that is not being deleted, and is no other object's.
  pub update_task_stores :
      (t : BackupTask) (w : C.World) (d : Declared)
      → (objects w).tasks (key_of t.meta) ≡ some d
      → (declared t).deleting ≡ false
      → Succeeds
          (λ t'. (declared t' ≡ declared t) × (key_of t'.meta ≡ key_of t.meta))
          (C.update_task t w)
        × (objects (C.update_task t w).1 ≡ put_task (key_of t.meta) (declared t) (objects w))
  pub update_task_elsewhere :
      (t : BackupTask) (w : C.World)
      → ((objects (C.update_task t w).1).contents ≡ (objects w).contents)
        × ((objects (C.update_task t w).1).cron_specs ≡ (objects w).cron_specs)
  pub create_config_map_new :
      (c : ConfigMap) (w : C.World)
      → (objects w).contents (key_of c.meta) ≡ none
      → Succeeds Trivial (C.create_config_map c w)
        × (objects (C.create_config_map c w).1
            ≡ put_contents (key_of c.meta) c.contents (objects w))
  pub create_config_map_old :
      (c : ConfigMap) (w : C.World) (old : Labels)
      → (objects w).contents (key_of c.meta) ≡ some old
      → FailsBy (λ e. is_already_exists e ≡ true) (C.create_config_map c w)
        × (objects (C.create_config_map c w).1 ≡ objects w)
  pub update_config_map_stores :
      (c : ConfigMap) (w : C.World) (old : Labels)
      → (objects w).contents (key_of c.meta) ≡ some old
      → Succeeds Trivial (C.update_config_map c w)
        × (objects (C.update_config_map c w).1
            ≡ put_contents (key_of c.meta) c.contents (objects w))
  -- The CronJob gets the spec that the mutation gives to any CronJob of its name.
  pub create_or_update_stores :
      (job : CronJob) (mutate : CronJob → Outcome CronJob) (spec : CronJobSpec) (w : C.World)
      → ((j : CronJob)
          → key_of j.meta ≡ key_of job.meta
          → (j' : CronJob) × (mutate j ≡ ok j') × (j'.spec ≡ spec))
      → Succeeds Trivial (C.create_or_update_cron_job job mutate w)
        × (objects (C.create_or_update_cron_job job mutate w).1
            ≡ put_cron_spec (key_of job.meta) spec (objects w))
  pub delete_cron_job_drops :
      (k : NamespacedName) (w : C.World)
      → (Succeeds Trivial (C.delete_cron_job k w)
          ⊎ FailsBy (λ e. is_not_found e ≡ true) (C.delete_cron_job k w))
        × (objects (C.delete_cron_job k w).1 ≡ drop_cron_spec k (objects w))
  pub sets_reference :
      (task : BackupTask) (job : CronJob)
      → (job' : CronJob) × (C.set_controller_reference task job ≡ ok job') × (job'.spec ≡ job.spec)
  pub contains_added :
      (fs : List String) (f : String) → C.contains_finalizer (C.add_finalizer fs f) f ≡ true
