-- ===== src/Controller/Reconcile.antt =====
-- Reconcile, reconcileBackupTask, createOrUpdateCronJob, createTargetConfigMap and
-- finalizeBackupTask of internal/controller/backuptask_controller.go, over an API client. Log
-- lines are left out; an error is returned with the zero `ctrl.Result`, as everywhere in the source.
pub mod Deletion
pub mod Cleanup
pub mod Present
pub mod Quiet
pub mod Writes
pub mod Converges
pub mod Repeats
pub mod Leftovers
pub mod ConfigMaps
use mathlib.Core.Option
use backup_operator.Base.{
  ℕ, ℤ, pos, ltb_ℤ, String, ◌<>◌, Bool, true, false, not, Option, none, some, List, [], ◌∷◌, length,
  itoa, Outcome, ok, fail, panic, Error, is_not_found, is_already_exists, wrapped, Action, pure,
  raise, crash, lift, attempt, resume, ◌>>=◌, ◌>>◌, if◌then◌else◌,
}
use backup_operator.Kube.{
  Duration, NamespacedName, ObjectMeta, ObjectReference, key_of, is_zero_time, CronJobSpec,
  CronJobStatus, CronJob, ConfigMap, empty_pod_spec,
}
use backup_operator.Api.{BackupTask, BackupRecord}
use backup_operator.Json.{Value}
use backup_operator.Json.Text.{marshal_indent}
use backup_operator.Json.Targets.{targets_json}
use backup_operator.Json.Storage.{storage_json}
use backup_operator.Client.{Client}
use backup_operator.Controller.Constants.{backup_task_finalizer, backup_task_label_key}
use backup_operator.Controller.Volumes.{get_target_config_map_name}
use backup_operator.Controller.CronJobs.{cron_job_name, backup_labels, build_cron_job_spec}
use backup_operator.Controller.Status.{next_status}
use backup_operator.Controller.Retention.{
  delete_records, read_clock, wrap_error, apply_retention_policy,
}

-- `ctrl.Result`, with the zero duration for no requeue.
pub record CtrlResult : Type 0 where
  pub requeue_after : Duration

abbrev pub no_requeue : CtrlResult
no_requeue = record { requeue_after = pos 0 }

abbrev pub half_minute : Duration
half_minute = pos 30000000000

abbrev pub five_minutes : Duration
five_minutes = pos 300000000000

abbrev pub new_meta : String → String → List (String × String) → ObjectMeta
new_meta name namespace labels = record {
  name = name;
  namespace = namespace;
  uid = "";
  labels = labels;
  annotations = [];
  finalizers = [];
  owner_references = [];
  generation = pos 0;
  creation_timestamp = pos 0;
  deletion_timestamp = none;
}

-- The object that is passed to CreateOrUpdate, before its mutation.
abbrev pub zero_cron_job_spec : CronJobSpec
zero_cron_job_spec = record {
  schedule = "";
  starting_deadline_seconds = 0;
  concurrency_policy = "";
  suspend = none;
  successful_jobs_history_limit = 0;
  failed_jobs_history_limit = 0;
  job_template = record {
    labels = [];
    spec = record {
      backoff_limit = 0;
      ttl_seconds_after_finished = 0;
      template = record { labels = []; spec = empty_pod_spec };
    };
  };
}

unfoldable pub new_cron_job : BackupTask → CronJob
new_cron_job task = record {
  meta = new_meta (cron_job_name task) task.meta.namespace (backup_labels task);
  spec = zero_cron_job_spec;
  status = record { active = []; last_schedule_time = none };
}

-- `calculateNextSchedule`
unfoldable pub calculate_next_schedule : BackupTask → CronJob → Duration
calculate_next_schedule task cron_job = five_minutes

abbrev pub has_active : CronJob → Bool
has_active job = elim job.status.active [ [] ↦ false | _ ∷ _ ↦ true ]

abbrev pub with_finalizers : BackupTask → List String → BackupTask
with_finalizers task fs = record task { meta = record (task.meta) { finalizers = fs } }

-- `json.MarshalIndent(v, "", "  ")`, which refuses no value of the task.
unfoldable pub marshal : Value → Outcome String
marshal v = ok (marshal_indent v)

module _ (C : Client) where
  -- The function that CreateOrUpdate runs on the CronJob.
  unfoldable pub mutate_cron_job : BackupTask → CronJob → Outcome CronJob
  mutate_cron_job task job =
      C.set_controller_reference task (record job { spec = build_cron_job_spec C.upper task })

  unfoldable pub create_or_update_cron_job : BackupTask → Action C.World CronJob
  unfolding mutate_cron_job new_cron_job
  create_or_update_cron_job task =
      C.create_or_update_cron_job (new_cron_job task) (mutate_cron_job task)

  unfoldable pub create_target_config_map : BackupTask → Outcome ConfigMap
  unfolding marshal
  create_target_config_map task = elim (marshal (targets_json C.json task.spec.targets)) [
    | fail e ↦ fail e
    | panic m ↦ panic m
    | ok targets ↦ elim (marshal (storage_json C.json task.spec.remote_storage)) [
      | fail e ↦ fail e
      | panic m ↦ panic m
      | ok storage ↦ ok (record {
        meta =
            new_meta (task.meta.name <> "-targets") task.meta.namespace
              (("app", "backup-operator") ∷ ("backuptask", task.meta.name) ∷ []);
        contents =
            ("targets.json", targets)
            ∷ ("remotestorage.json", storage)
            ∷ ("target-count", itoa (pos (length task.spec.targets)))
            ∷ [];
      })
    ]
  ]

  unfoldable pub update_backup_task_status : BackupTask → CronJob → Action C.World (Unit {0})
  update_backup_task_status task job = do
    latest ← C.get_task (key_of task.meta)
    t ← read_clock C
    C.update_task_status (record latest { status = next_status task job t latest.status })
    pure tt

  -- The last two steps of reconcileBackupTask: an error of the retention is only logged.
  unfoldable pub retain_and_requeue : BackupTask → CronJob → Action C.World CtrlResult
  unfolding calculate_next_schedule
  retain_and_requeue task job =
      let requeue = λ (t : BackupTask). pure (
        let after = calculate_next_schedule t job in
        let result : CtrlResult = record {
          requeue_after = if ltb_ℤ (pos 0) after then after else five_minutes;
        } in
        result) in
      attempt (apply_retention_policy C task) requeue (λ _. requeue task)

  unfoldable pub reconcile_backup_task : BackupTask → Action C.World CtrlResult
  unfolding retain_and_requeue
  reconcile_backup_task task = do
    job ← wrap_error C "failed to create/update CronJob" (create_or_update_cron_job task)
    wrap_error C "failed to update status" (update_backup_task_status task job)
    (if has_active job
        then pure (record { requeue_after = half_minute })
        else retain_and_requeue task job)

  unfoldable pub finalize_backup_task : BackupTask → Action C.World (Unit {0})
  finalize_backup_task task = do
    attempt
        (C.delete_cron_job (record { name = cron_job_name task; namespace = task.meta.namespace }))
        (λ _. pure tt)
        (λ e. if is_not_found e then pure tt else raise (wrapped "failed to delete CronJob" e))
    rs ←
        wrap_error C "failed to list BackupRecords"
          (C.list_records task.meta.namespace ((backup_task_label_key, task.meta.name) ∷ []))
    delete_records C rs

  -- The branch of an object that is being deleted.
  unfoldable pub reconcile_deletion : BackupTask → Action C.World CtrlResult
  reconcile_deletion task =
      if C.contains_finalizer task.meta.finalizers backup_task_finalizer
      then (do
        finalize_backup_task task
        C.update_task
            (with_finalizers task (C.remove_finalizer task.meta.finalizers backup_task_finalizer))
        pure no_requeue)
      else pure no_requeue

  unfoldable pub ensure_finalizer : BackupTask → Action C.World BackupTask
  ensure_finalizer task =
      if C.contains_finalizer task.meta.finalizers backup_task_finalizer
      then pure task
      else C.update_task
          (with_finalizers task (C.add_finalizer task.meta.finalizers backup_task_finalizer))

  unfoldable pub apply_config_map : ConfigMap → Action C.World (Unit {0})
  apply_config_map config =
      attempt (C.create_config_map config) (λ _. pure tt)
        (λ e. if is_already_exists e then (do C.update_config_map config; pure tt) else raise e)

  -- The event is sent through the recorder, and a nil recorder panics.
  abbrev pub report_to :
      Option (BackupTask → String → Error → C.World → C.World)
      → BackupTask
      → Error
      → Action C.World CtrlResult
  report_to none task e w = (panic "invalid memory address or nil pointer dereference", w)
  report_to (some eventf) task e w = (fail e, eventf task "ReconcileFailed" e w)

  unfoldable pub report_failure : BackupTask → Error → Action C.World CtrlResult
  report_failure = report_to C.recorder

  -- The branch of an object that is not being deleted.
  unfoldable pub reconcile_present : BackupTask → Action C.World CtrlResult
  unfolding ensure_finalizer apply_config_map report_failure
  reconcile_present task = do
    task' ← ensure_finalizer task
    config ← lift (create_target_config_map task')
    apply_config_map config
    attempt (reconcile_backup_task task') pure (report_failure task')

  unfoldable pub reconcile : NamespacedName → Action C.World CtrlResult
  reconcile request =
      attempt (C.get_task request)
        (λ task.
          if is_zero_time task.meta.deletion_timestamp
          then reconcile_present task
          else reconcile_deletion task)
        (λ e. if is_not_found e then pure no_requeue else raise e)
