-- ===== src/Legacy/Reconcile.antt =====
-- Reconcile, reconcileBackupTask, createOrUpdateCronJob and buildCronJobSpec of
-- controllers/backuptask_controller.go. The status, the retention, the finalizer and the deletion
-- are those of internal/controller, word for word.
use backup_operator.Base.{
  Outcome, ok, fail, panic, is_not_found, Action, pure, raise, attempt, ◌>>=◌, ◌>>◌, if◌then◌else◌,
}
use backup_operator.Kube.{NamespacedName, is_zero_time, PodSpec, CronJobSpec, CronJob}
use backup_operator.Api.{BackupTask}
use backup_operator.Client.{Client}
use backup_operator.Controller.CronJobs.{around_pod_spec}
use backup_operator.Controller.Retention.{wrap_error}
use backup_operator.Controller.Reconcile.{
  CtrlResult, no_requeue, half_minute, has_active, new_cron_job, ensure_finalizer,
  update_backup_task_status, retain_and_requeue, report_failure, reconcile_deletion,
}
use backup_operator.Legacy.Containers.{build_backup_pod_spec}

abbrev pub with_pod_spec : BackupTask → Outcome PodSpec → Outcome CronJobSpec
with_pod_spec task (ok pod_spec) = ok (around_pod_spec task pod_spec)
with_pod_spec task (fail e) = fail e
with_pod_spec task (panic m) = panic m

unfoldable pub build_cron_job_spec : BackupTask → Outcome CronJobSpec
build_cron_job_spec task = with_pod_spec task (build_backup_pod_spec task)

module _ (C : Client) where
  abbrev pub set_spec : BackupTask → CronJob → Outcome CronJobSpec → Outcome CronJob
  set_spec task job (ok spec) = C.set_controller_reference task (record job { spec = spec })
  set_spec task job (fail e) = fail e
  set_spec task job (panic m) = panic m

  -- The function that CreateOrUpdate runs on the CronJob.
  unfoldable pub mutate_cron_job : BackupTask → CronJob → Outcome CronJob
  mutate_cron_job task job = set_spec task job (build_cron_job_spec task)

  unfoldable pub create_or_update_cron_job : BackupTask → Action C.World CronJob
  create_or_update_cron_job task =
      C.create_or_update_cron_job (new_cron_job task) (mutate_cron_job task)

  unfoldable pub reconcile_backup_task : BackupTask → Action C.World CtrlResult
  reconcile_backup_task task = do
    job ← wrap_error C "failed to create/update CronJob" (create_or_update_cron_job task)
    wrap_error C "failed to update status" (update_backup_task_status C task job)
    (if has_active job
        then pure (record { requeue_after = half_minute })
        else retain_and_requeue C task job)

  -- The branch of an object that is not being deleted: there is no config map.
  unfoldable pub reconcile_present : BackupTask → Action C.World CtrlResult
  reconcile_present task = do
    task' ← ensure_finalizer C task
    attempt (reconcile_backup_task task') pure (report_failure C task')

  unfoldable pub reconcile : NamespacedName → Action C.World CtrlResult
  reconcile request =
      attempt (C.get_task request)
        (λ task.
          if is_zero_time task.meta.deletion_timestamp
          then reconcile_present task
          else reconcile_deletion C task)
        (λ e. if is_not_found e then pure no_requeue else raise e)
