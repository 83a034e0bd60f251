-- ===== src/Controller/Objects/Built.antt =====
-- The CronJob and the config map of a task depend on what is declared of it, and on nothing else.
use backup_operator.Base.{◌≡◌, String, [], refl, sym, ◌∙◌, pos, none}
use backup_operator.Kube.{NamespacedName, key_of}
use backup_operator.Api.{BackupTask, BackupTaskSpec, pending}
use backup_operator.Client.{Client}
use backup_operator.Controller.EnvVars.{build_env_vars, build_env_from}
use backup_operator.Controller.Volumes.{
  build_volumes, build_volume_mounts, get_target_config_map_name,
}
use backup_operator.Controller.PodSpecs.{
  get_backup_image, get_backup_cmd, build_container_resources, template_pod_spec, build_containers,
  build_backup_pod_spec,
}
use backup_operator.Controller.CronJobs.{backup_labels, build_cron_job_spec}
use backup_operator.Controller.Reconcile.{create_target_config_map}

-- A task with this name and declaration, and nothing more.
bare : NamespacedName → String → BackupTaskSpec → BackupTask
bare k uid spec = record {
  meta = record {
    name = k.name;
    namespace = k.namespace;
    uid = uid;
    labels = [];
    annotations = [];
    finalizers = [];
    owner_references = [];
    generation = pos 0;
    creation_timestamp = pos 0;
    deletion_timestamp = none;
  };
  spec = spec;
  status = record {
    observed_generation = pos 0;
    phase = pending;
    last_scheduled_time = none;
    last_successful_time = none;
    last_completion_time = none;
    active_backup_job = none;
    backup_history_count = pos 0;
    conditions = [];
    next_schedule_time = none;
  };
}

module _ (C : Client) where
  build-bare :
      (t : BackupTask)
      → build_cron_job_spec C.upper t
        ≡ build_cron_job_spec C.upper (bare (key_of t.meta) t.meta.uid t.spec)
  unfolding bare build_cron_job_spec backup_labels build_backup_pod_spec template_pod_spec
      build_containers build_volumes get_backup_image get_backup_cmd build_env_vars build_env_from
      build_volume_mounts build_container_resources get_target_config_map_name
  build-bare t = refl

  config-bare :
      (t : BackupTask)
      → create_target_config_map C t
        ≡ create_target_config_map C (bare (key_of t.meta) t.meta.uid t.spec)
  unfolding bare create_target_config_map
  config-bare t = refl

  module _ (a b : BackupTask) (k : key_of a.meta ≡ key_of b.meta) (u : a.meta.uid ≡ b.meta.uid)
      (s : a.spec ≡ b.spec) where
    pub build_cron_job_spec-same : build_cron_job_spec C.upper a ≡ build_cron_job_spec C.upper b
    build_cron_job_spec-same =
        build-bare a
        ∙ (λ i. build_cron_job_spec C.upper (bare (k i) (u i) (s i)))
        ∙ sym (build-bare b)

    pub create_target_config_map-same : create_target_config_map C a ≡ create_target_config_map C b
    create_target_config_map-same =
        config-bare a
        ∙ (λ i. create_target_config_map C (bare (k i) (u i) (s i)))
        ∙ sym (config-bare b)
