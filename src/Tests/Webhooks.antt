-- ===== src/Tests/Webhooks.antt =====
-- The webhook's theorems at the sample tasks.
use backup_operator.Base.{◌≡◌, refl, ◌↔◌, true, none, codes, All}
use backup_operator.Api.{BackupTask}
use backup_operator.Webhook.Cron.{match, is_valid_cron_schedule}
use backup_operator.Webhook.Cron.Fields.{IsCronSchedule, is_valid_cron_schedule_iff}
use backup_operator.Webhook.Storage.{
  validate_storage_of, validate_nfs_storage, validate_encryption_of, validate_encryption,
  validate_remote_storage,
}
use backup_operator.Webhook.Targets.{
  validate_target, validate_target_of, validate_database_target, validate_database_spec,
  validate_port, default_port, validate_directory_target, validate_directory_spec, validate_paths,
  validate_compression, validate_targets,
}
use backup_operator.Webhook.Targets.Ports.{HasPort}
use backup_operator.Webhook.Validate.{validate_backup_task}
use backup_operator.Webhook.Validate.Accepts.{IsAcceptable, validate_backup_task_iff}
use backup_operator.Webhook.Validate.Effects.{
  fill_task, validate_backup_task_fills, validated-HasPort,
}
use backup_operator.Webhook.Admission.{task_object, default, validate_create, validate_update}
use backup_operator.Webhook.Admission.Laws.{
  IsDefaulted, default_lem, validate_create-default, validate_update_iff,
}
use backup_operator.Tests.Samples.{nightly, unscheduled}

-- The nightly task passes.
pub nightly_passes : (validate_backup_task nightly).0 ≡ none
unfolding validate_backup_task is_valid_cron_schedule match validate_targets validate_target
    validate_target_of validate_database_target validate_database_spec validate_port default_port
    validate_directory_target validate_directory_spec validate_paths validate_compression
    validate_remote_storage validate_storage_of validate_nfs_storage validate_encryption_of
    validate_encryption
nightly_passes = refl

-- The schedule of the other is refused.
unscheduled_fails : ¬ IsAcceptable unscheduled
unfolding is_valid_cron_schedule match
unscheduled_fails h =
    let valid : is_valid_cron_schedule "tonight" ≡ true =
      (is_valid_cron_schedule_iff "tonight").1 h.0 in
    cc

validate_backup_task_iff_example : ((validate_backup_task nightly).0 ≡ none) ↔ IsAcceptable nightly
validate_backup_task_iff_example = validate_backup_task_iff nightly

is_valid_cron_schedule_iff_example :
    (is_valid_cron_schedule "*/5 0 1 12 6" ≡ true) ↔ IsCronSchedule (codes "*/5 0 1 12 6")
is_valid_cron_schedule_iff_example = is_valid_cron_schedule_iff "*/5 0 1 12 6"

validate_backup_task_fills_example : (validate_backup_task nightly).1 ≡ fill_task nightly
validate_backup_task_fills_example = validate_backup_task_fills nightly

validated-HasPort_example : All HasPort (validate_backup_task nightly).1.spec.targets
validated-HasPort_example = validated-HasPort nightly nightly_passes

default_lem_example :
    IsDefaulted nightly (default nightly) × (default (default nightly) ≡ default nightly)
default_lem_example = default_lem nightly

validate_create-default_example :
    ((validate_create (default nightly)).0 ≡ none) ↔ ((validate_create nightly).0 ≡ none)
validate_create-default_example = validate_create-default nightly

validate_update_iff_example : ((validate_update (task_object nightly) unscheduled).0 ≡ none) ↔ (
    (o : BackupTask) × (task_object nightly ≡ task_object o)
    × (unscheduled.spec.schedule ≡ o.spec.schedule)
    × IsAcceptable unscheduled)
validate_update_iff_example = validate_update_iff (task_object nightly) unscheduled
