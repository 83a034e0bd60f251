-- ===== src/Tests/Builders.antt =====
-- The theorems on the objects that the operator builds, at the sample tasks.
use mathlib.Core.List.{Perm}
use backup_operator.Base.{◌≡◌, ◌↔◌, true, pos, some, [], ◌∷◌, ◌<>◌}
use backup_operator.Kube.{matches_labels, CronJob}
use backup_operator.Controller.EnvVars.{env_prefix, build_env_vars}
use backup_operator.Controller.EnvVars.Prefixes.{env_prefix_collides}
use backup_operator.Controller.EnvVars.Policies.{Carries, build_env_vars-Carries}
use backup_operator.Controller.Volumes.{build_volumes, build_volume_mounts}
use backup_operator.Controller.Volumes.Mounts.{
  volume_names, mount_names, build_volume_mounts-volumes,
}
use backup_operator.Controller.PodSpecs.{build_backup_pod_spec}
use backup_operator.Controller.PodSpecs.Fixed.{
  with_template, given_spec, IsPodOf, build_backup_pod_spec_lem,
}
use backup_operator.Controller.CronJobs.{build_cron_job_spec}
use backup_operator.Controller.Status.{next_status}
use backup_operator.Controller.Status.Coherent.{IsCoherent, next_status-IsCoherent}
use backup_operator.Controller.Reconcile.{new_cron_job}
use backup_operator.Records.Jobs.{job_selector}
use backup_operator.Records.Jobs.Phases.{job_selector_iff}
use backup_operator.Tests.Samples.{nightly, new_status, record_at}

build_env_vars-Carries_example : Carries nightly.spec.retention (build_env_vars nightly)
build_env_vars-Carries_example = build_env_vars-Carries nightly

env_prefix_collides_example :
    env_prefix (λ c. c) ("shop" <> ("-" <> "db")) ≡ env_prefix (λ c. c) ("shop" <> ("_" <> "db"))
env_prefix_collides_example = env_prefix_collides (λ c. c) "shop" "db"

build_volume_mounts-volumes_example :
    Perm (mount_names (build_volume_mounts nightly)) (volume_names (build_volumes nightly))
build_volume_mounts-volumes_example = build_volume_mounts-volumes nightly

build_backup_pod_spec_lem_example :
    IsPodOf
      (λ c. c)
      nightly
      (given_spec nightly.spec.pod_template)
      (build_backup_pod_spec (λ c. c) nightly)
    × (build_backup_pod_spec
          (λ c. c)
          (with_template nightly (build_backup_pod_spec (λ c. c) nightly))
        ≡ build_backup_pod_spec (λ c. c) nightly)
build_backup_pod_spec_lem_example = build_backup_pod_spec_lem (λ c. c) nightly

job_selector_iff_example :
    (matches_labels
        (job_selector (record_at "r" (pos 5)))
        (build_cron_job_spec (λ c. c) nightly).job_template.labels
      ≡ true)
    ↔ ((nightly.meta.name ≡ (record_at "r" (pos 5)).spec.backup_task_ref.name)
        × (nightly.meta.uid ≡ (record_at "r" (pos 5)).spec.backup_task_ref.uid))
job_selector_iff_example = job_selector_iff (λ c. c) (record_at "r" (pos 5)) nightly

-- A CronJob with an active job, which started at time 900.
abbrev busy_cron_job : CronJob
busy_cron_job = record (new_cron_job nightly) {
  status = record {
    active = record { api_version = ""; kind = ""; name = "j"; namespace = ""; uid = "" } ∷ [];
    last_schedule_time = some (pos 900);
  };
}

next_status-IsCoherent_example :
    IsCoherent nightly busy_cron_job new_status
      (next_status nightly busy_cron_job (pos 1000) new_status)
next_status-IsCoherent_example = next_status-IsCoherent nightly busy_cron_job (pos 1000) new_status
