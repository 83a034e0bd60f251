-- ===== src/Webhook/Validate/Accepts.antt =====
-- The whole validation, against a description that does not mention it.
use backup_operator.Base.{◌≡◌, refl, ◌≢◌, ◌↔◌, not, none, List, [], ◌∷◌, arith, codes, All, String}
use backup_operator.Api.{BackupTask}
use backup_operator.Webhook.Errors.{FieldError, report, accept_both, accept_report}
use backup_operator.Webhook.Cron.{is_valid_cron_schedule}
use backup_operator.Webhook.Cron.Fields.{IsCronSchedule, is_valid_cron_schedule_iff}
use backup_operator.Webhook.Storage.Accepts.{
  IsConfigured, HasKey, validate_remote_storage_iff, validate_encryption_of_iff,
}
use backup_operator.Webhook.Targets.Accepts.{IsTarget, validate_targets_iff, accept_some}
use backup_operator.Webhook.Validate.{task_errors, to_error, validate_backup_task}

-- What a BackupTask needs to be admitted.
abbrev pub IsAcceptable : BackupTask → Type 0
IsAcceptable t =
    IsCronSchedule (codes t.spec.schedule)
    × ((t.spec.targets ≢ [])
        × (All IsTarget t.spec.targets
            × (IsConfigured t.spec.remote_storage × HasKey t.spec.encryption)))

accept_schedule :
    (s : String) (e : FieldError)
    → (report (not (is_valid_cron_schedule s)) e ≡ []) ↔ IsCronSchedule (codes s)
accept_schedule s e = (
  λ h. (is_valid_cron_schedule_iff s).0 (ground (arith, (accept_report _ e).0 h)),
  λ h. (accept_report _ e).1 (ground (arith, (is_valid_cron_schedule_iff s).1 h)),
)

pub task_errors_iff : (t : BackupTask) → ((task_errors t).0 ≡ []) ↔ IsAcceptable t
unfolding task_errors
task_errors_iff t = accept_both (accept_schedule _ _) (
    accept_both (accept_some t.spec.targets _) (
      accept_both (validate_targets_iff 0 t.spec.targets) (
        accept_both (validate_remote_storage_iff _ t.spec.remote_storage)
          (validate_encryption_of_iff t.spec.encryption))))

to_error_iff : (name : String) (es : List FieldError) → (to_error name es ≡ none) ↔ (es ≡ [])
to_error_iff name [] = (λ e. refl, λ e. refl)
to_error_iff name (x ∷ es) = (λ e. cc, λ e. cc)

-- validateBackupTask returns nil exactly when the schedule is five well-formed cron fields, there
-- is a target, every target has a name and a complete section of its type, the remote storage has
-- a complete section of its type, and an enabled encryption names its key.
pub validate_backup_task_iff :
    (t : BackupTask) → ((validate_backup_task t).0 ≡ none) ↔ IsAcceptable t
unfolding validate_backup_task
validate_backup_task_iff t =
    let (sound, complete) = to_error_iff t.meta.name (task_errors t).0 in
    let (to, from) = task_errors_iff t in (λ h. to (sound h), λ h. complete (from h))
