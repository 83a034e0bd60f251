-- ===== src/Webhook/Admission.antt =====
-- The admission handlers: Default and the Validate methods of BackupTask in
-- api/v1alpha1/backuptask_webhook.go, and the custom defaulter and validator of
-- internal/webhook/v1alpha1/backuptask_webhook.go, which cmd/main.go registers.
pub mod Laws
use mathlib.Core.Option
use backup_operator.Base.{
  [], ◌∷◌, ◌<>◌, String, Bool, true, false, ◌&&◌, not, Option, none, some, Error, message, ◌==◌,
  is_empty, if◌then◌else◌,
}
use backup_operator.Api.{EncryptionSpec, PodTemplateSpec, BackupTask, BackupRecord}
use backup_operator.Webhook.Errors.{key, forbidden, AdmissionError, invalid_object, bad_request}
use backup_operator.Webhook.Validate.{validate_backup_task}

-- A `runtime.Object`; `other_object` has the type that its text names.
pub data Object : Type 0 where
  task_object : BackupTask → Object
  record_object : BackupRecord → Object
  other_object : String → Object

-- What `%T` prints.
abbrev pub type_name : Object → String
type_name (task_object t) = "*v1alpha1.BackupTask"
type_name (record_object r) = "*v1alpha1.BackupRecord"
type_name (other_object name) = name

-- The two `if`s of Default on `r.Spec.Encryption`.
unfoldable pub default_encryption : EncryptionSpec → EncryptionSpec
default_encryption e = record e {
  algorithm = if e.enabled && is_empty e.algorithm then "aes-256-gcm" else e.algorithm;
  encrypt_after_compress = elim e.encrypt_after_compress [ none ↦ some true | some b ↦ some b ];
}

unfoldable pub default : BackupTask → BackupTask
unfolding default_encryption
default t = record t {
  spec = record (t.spec) {
    pod_template = elim t.spec.pod_template [
      | none ↦ some (record { metadata = none; spec = none })
      | some p ↦ some p
    ];
    encryption = Option.map default_encryption t.spec.encryption;
  };
}

-- The admission warnings are nil in every method, and are left out.
unfoldable pub validate_create : BackupTask → Option AdmissionError × BackupTask
validate_create task = validate_backup_task task

unfoldable pub validate_update : Object → BackupTask → Option AdmissionError × BackupTask
validate_update (task_object old) task =
    if not (task.spec.schedule == old.spec.schedule)
    then (
      some (
          invalid_object "backup.mybackup.com" task.meta.name
            (forbidden (key "spec" ∷ key "schedule" ∷ []) "schedule cannot be modified" ∷ [])),
      task,
    )
    else validate_backup_task task
validate_update (record_object old) task = (some (bad_request "expected a BackupTask object"), task)
validate_update (other_object name) task = (some (bad_request "expected a BackupTask object"), task)

unfoldable pub validate_delete : BackupTask → Option AdmissionError × BackupTask
validate_delete task = (none, task)

-- `BackupTaskCustomDefaulter.Default` and `BackupTaskCustomValidator.Validate…`: a type assertion.
abbrev pub assert_task : String → Object → Option Error
assert_task prefix (task_object t) = none
assert_task prefix (record_object r) = some (message (prefix <> type_name (record_object r)))
assert_task prefix (other_object name) = some (message (prefix <> name))

unfoldable pub custom_default : Object → Option Error × Object
custom_default obj = (assert_task "expected an BackupTask object but got " obj, obj)

unfoldable pub custom_validate_create : Object → Option Error
custom_validate_create obj = assert_task "expected a BackupTask object but got " obj

unfoldable pub custom_validate_update : Object → Object → Option Error
custom_validate_update old new =
    assert_task "expected a BackupTask object for the newObj but got " new

unfoldable pub custom_validate_delete : Object → Option Error
custom_validate_delete obj = assert_task "expected a BackupTask object but got " obj
