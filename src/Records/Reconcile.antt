-- ===== src/Records/Reconcile.antt =====
-- Reconcile and reconcileBackupRecord of controllers/backuprecord_controller.go, and the Reconcile
-- of internal/controller/backuprecord_controller.go, which cmd/main.go registers in its place.
pub mod Finishes
pub mod Runs
use mathlib.Core.Option
use backup_operator.Base.{
  ℤ, pos, ◌+ℤ◌, String, ◌<>◌, Bool, true, false, ◌&&◌, ◌||◌, Option, none, some, List, Error,
  message, is_not_found, wrapped, Action, pure, raise, attempt, ◌>>=◌, ◌>>◌, if◌then◌else◌, is_none,
}
use backup_operator.Kube.{Time, NamespacedName, ObjectMeta, ObjectReference}
use backup_operator.Api.{
  BackupPhase, expired, VerificationResult, pending_result, success_result, failed_result,
  RetentionPolicy, VerificationStatus, BackupTaskSpec, BackupTask, BackupRecordSpec,
  BackupRecordStatus, BackupRecord,
}
use backup_operator.Client.{Client}
use backup_operator.Controller.Retention.{max_age_of, read_clock}
use backup_operator.Controller.Reconcile.{CtrlResult, no_requeue, half_minute, five_minutes}
use backup_operator.Records.Jobs.{
  is_completed, is_failed, with_phase, with_error, check_backup_job_status,
}

abbrev pub is_pending : VerificationResult → Bool
is_pending pending_result = true
is_pending _ = false

-- `Spec.Retention.MaxAgeDays`, through two pointers.
abbrev pub max_age_days_of : Option RetentionPolicy → Option ℤ
max_age_days_of none = none
max_age_days_of (some policy) = policy.max_age_days

abbrev pub with_expiration : Time → BackupRecord → BackupRecord
with_expiration t r = record r { status = record (r.status) { expiration_time = some t } }

abbrev pub with_verification : VerificationStatus → BackupRecord → BackupRecord
with_verification v r = record r { status = record (r.status) { verification_status = v } }

-- `err.Error()` of the errors of this package.
abbrev pub error_text : Error → String
error_text (Error.api reason text) = text
error_text (wrapped prefix e) = prefix <> (": " <> error_text e)
error_text (message text) = text

-- verifyBackup is a stub that returns nil.
unfoldable pub verify_backup : BackupRecord → Option Error
verify_backup r = none

abbrev pub verdict : Time → Option Error → VerificationStatus
verdict t none = record {
  verified_at = some t;
  result = success_result;
  message = "Backup verification successful";
}
verdict t (some e) = record { verified_at = some t; result = failed_result; message = error_text e }

module _ (C : Client) where
  -- The task is gone: the record expires.
  unfoldable pub expire : BackupRecord → Action C.World CtrlResult
  expire r = do
    C.update_record_status
        (with_error "Associated BackupTask no longer exists" (with_phase expired r))
    pure no_requeue

  abbrev pub expire_after : Option ℤ → BackupRecord → Action C.World BackupRecord
  expire_after none r = pure r
  expire_after (some days) r =
      if is_completed r.status.phase && is_none r.status.expiration_time
      then C.update_record_status (with_expiration (r.spec.start_time +ℤ max_age_of days) r)
      else pure r

  unfoldable pub set_expiration : BackupTask → BackupRecord → Action C.World BackupRecord
  set_expiration task r = expire_after (max_age_days_of task.spec.retention) r

  unfoldable pub verify : BackupRecord → Action C.World BackupRecord
  unfolding verify_backup
  verify r =
      if is_completed r.status.phase && is_pending r.status.verification_status.result
      then (do
        t ← read_clock C
        C.update_record_status (with_verification (verdict t (verify_backup r)) r))
      else pure r

  unfoldable pub finish_record : BackupTask → BackupRecord → Action C.World CtrlResult
  unfolding set_expiration verify
  finish_record task r = do
    r' ← set_expiration task r
    verify r'
    pure (record { requeue_after = five_minutes })

  unfoldable pub reconcile_backup_record : BackupRecord → Action C.World CtrlResult
  unfolding expire
  reconcile_backup_record r =
      attempt
        (C.get_task (record { name = r.spec.backup_task_ref.name; namespace = r.meta.namespace }))
        (λ task.
          attempt (check_backup_job_status C r) (finish_record task)
            (λ _. pure (record { requeue_after = half_minute })))
        (λ e. if is_not_found e then expire r else raise (wrapped "failed to get BackupTask" e))

  unfoldable pub reconcile_record : NamespacedName → Action C.World CtrlResult
  reconcile_record request =
      attempt (C.get_record request)
        (λ r.
          if is_completed r.status.phase || is_failed r.status.phase
          then pure no_requeue
          else reconcile_backup_record r)
        (λ e. if is_not_found e then pure no_requeue else raise e)

  -- The registered reconciler.
  unfoldable pub registered_reconcile : NamespacedName → Action C.World CtrlResult
  registered_reconcile request = pure no_requeue
