-- ===== src/Controller/CronJobs.antt =====
-- buildCronJobSpec, and the CronJob and its mutation in createOrUpdateCronJob, of
-- internal/controller/backuptask_controller.go.
use Prim.Native.Char.{Char}
use backup_operator.Base.{String, ◌<>◌, false, some, [], ◌∷◌}
use backup_operator.Kube.{Labels, PodSpec, CronJobSpec}
use backup_operator.Api.{BackupTask}
use backup_operator.Controller.Constants.{
  backup_task_label_key, backup_task_uid_label_key, created_by_label_key,
}
use backup_operator.Controller.PodSpecs.{build_backup_pod_spec}

abbrev pub cron_job_name : BackupTask → String
cron_job_name task = "backup-" <> task.meta.name

-- The three labels of the CronJob, of its jobs and of their pods.
unfoldable pub backup_labels : BackupTask → Labels
backup_labels task =
    (backup_task_label_key, task.meta.name)
    ∷ (backup_task_uid_label_key, task.meta.uid)
    ∷ (created_by_label_key, "backup-operator")
    ∷ []

-- The CronJob's spec around the spec of its pods.
abbrev pub around_pod_spec : BackupTask → PodSpec → CronJobSpec
around_pod_spec task pod_spec = record {
  schedule = task.spec.schedule;
  starting_deadline_seconds = 300;
  concurrency_policy = "Forbid";
  suspend = some false;
  successful_jobs_history_limit = 3;
  failed_jobs_history_limit = 1;
  job_template = record {
    labels = backup_labels task;
    spec = record {
      backoff_limit = 3;
      ttl_seconds_after_finished = 86400;
      template = record { labels = backup_labels task; spec = pod_spec };
    };
  };
}

unfoldable pub build_cron_job_spec : (Char → Char) → BackupTask → CronJobSpec
build_cron_job_spec upper task = around_pod_spec task (build_backup_pod_spec upper task)
