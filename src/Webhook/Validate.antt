-- ===== src/Webhook/Validate.antt =====
-- validateBackupTask of api/v1alpha1/backuptask_webhook.go.
pub mod Accepts
pub mod Effects
use backup_operator.Base.{
  ℕ, suc, ◌+◌, ℤ, pos, ltb_ℤ, String, Bool, true, false, ◌&&◌, ◌||◌, not, Option, none, some, List,
  [], ◌∷◌, ◌++◌, ◌==◌, if◌then◌else◌, is_empty,
}
use backup_operator.Api.{
  BackupTargetType, database, config, directory, nfs, other_target, DatabaseBackupSpec,
  DirectoryPath, DirectoryBackupSpec, NfsBackupSpec, BackupTarget, RemoteStorageType,
  RemoteStorageSpec, S3StorageSpec, SftpStorageSpec, NfsStorageSpec, SmbStorageSpec, EncryptionSpec,
  BackupTask,
}
use backup_operator.Webhook.Cron.{is_valid_cron_schedule}
use backup_operator.Webhook.Errors.{
  FieldPath, key, child, at_index, text, number, FieldError, required, invalid, AdmissionError,
  invalid_object, report, require_text, is_nil,
}
use backup_operator.Webhook.Targets.{validate_targets}
use backup_operator.Webhook.Storage.{validate_remote_storage, validate_encryption_of}

-- `allErrs` at the end of validateBackupTask, and the task as it is left.
unfoldable pub task_errors : BackupTask → List FieldError × BackupTask
task_errors task =
    let (target_errors, targets) = validate_targets 0 task.spec.targets in
    (
      report (not (is_valid_cron_schedule task.spec.schedule)) (
            invalid (key "spec" ∷ key "schedule" ∷ []) (text task.spec.schedule)
              "invalid cron schedule format")
          ++ (report (is_nil task.spec.targets) (
                required (key "spec" ∷ key "targets" ∷ []) "at least one backup target is required")
              ++ (target_errors
                  ++ (validate_remote_storage (key "spec" ∷ key "remoteStorage" ∷ [])
                        task.spec.remote_storage
                      ++ validate_encryption_of task.spec.encryption))),
      record task { spec = record (task.spec) { targets = targets } },
    )

-- `none` is the nil error.
abbrev pub to_error : String → List FieldError → Option AdmissionError
to_error name [] = none
to_error name (e ∷ es) = some (invalid_object "backup.yourcompany.com" name (e ∷ es))

unfoldable pub validate_backup_task : BackupTask → Option AdmissionError × BackupTask
unfolding task_errors
validate_backup_task task =
    let (errors, task') = task_errors task in (to_error task.meta.name errors, task')
