-- ===== src/Controller/Reconcile/Quiet.antt =====
-- The calls of a reconciliation that leave the objects of the cluster as they are.
use backup_operator.Base.{
  ◌≡◌, refl, String, Option, none, some, List, [], ◌∷◌, Error, ok, fail, panic, Action, pure, raise,
  attempt, wrapped, still-Keeps, Keeps, attempt-Keeps, bind-Keeps, if-Keeps, if◌then◌else◌,
}
use backup_operator.Kube.{CronJob, key_of}
use backup_operator.Api.{BackupTask, BackupRecord, RetentionPolicy}
use backup_operator.Client.{Client}
use backup_operator.Controller.Constants.{backup_task_label_key}
use backup_operator.Controller.Status.{next_status}
use backup_operator.Controller.Retention.{
  read_clock, wrap_error, delete_records, filter_records_to_delete, apply_policy,
  apply_retention_policy,
}
use backup_operator.Controller.Retention.Spares.{with_history}
use backup_operator.Controller.Server.{Server}
use backup_operator.Controller.Reconcile.{
  has_active, half_minute, five_minutes, calculate_next_schedule, update_backup_task_status,
  retain_and_requeue, report_to, report_failure, CtrlResult,
}

module _ {C : Client} (S : Server C) where
  open S use {objects}

  pub call-Keeps :
      {A : Type 0} {a : Action C.World A}
      → ((w : C.World) → objects (a w).1 ≡ objects w)
      → Keeps objects a
  call-Keeps same = record { keeps = same }

  pub wrap_error-Keeps :
      {A : Type 0} (m : String) {a : Action C.World A}
      → Keeps objects a
      → Keeps objects (wrap_error C m a)
  wrap_error-Keeps m first =
      attempt-Keeps objects first (λ x. still-Keeps objects (ok x))
        (λ e. still-Keeps objects (fail (wrapped m e)))

  clock-Keeps : Keeps objects (read_clock C)
  clock-Keeps = record { keeps = S.now_keeps }

  update_backup_task_status-Keeps :
      (task : BackupTask) (job : CronJob) → Keeps objects (update_backup_task_status C task job)
  unfolding update_backup_task_status
  update_backup_task_status-Keeps task job =
      bind-Keeps objects
        (call-Keeps {a = C.get_task (key_of task.meta)} (S.get_task_keeps (key_of task.meta)))
        (λ latest. bind-Keeps objects clock-Keeps (λ t.
          let written = record latest { status = next_status task job t latest.status } in
          bind-Keeps objects
            (call-Keeps {a = C.update_task_status written} (S.update_task_status_keeps written))
            (λ x. still-Keeps objects (ok tt))))

  pub delete_records-Keeps : (rs : List BackupRecord) → Keeps objects (delete_records C rs)
  unfolding delete_records
  delete_records-Keeps [] = still-Keeps objects (ok tt)
  delete_records-Keeps (r ∷ rs) =
      let rest = delete_records-Keeps rs in
      attempt-Keeps objects (call-Keeps {a = C.delete_record r} (S.delete_record_keeps r))
        (λ x. rest) (λ e. rest)

  apply_policy-Keeps :
      (task : BackupTask) (policy : RetentionPolicy) → Keeps objects (apply_policy C task policy)
  unfolding apply_policy
  apply_policy-Keeps task policy =
      let labels = (backup_task_label_key, task.meta.name) ∷ [] in
      bind-Keeps objects
        (wrap_error-Keeps "failed to list BackupRecords" (
          call-Keeps {a = C.list_records task.meta.namespace labels}
            (S.list_records_keeps task.meta.namespace labels)))
        (λ rs. bind-Keeps objects clock-Keeps (λ t.
          bind-Keeps objects (still-Keeps objects (filter_records_to_delete t rs policy)) (λ doomed.
            bind-Keeps objects (delete_records-Keeps doomed)
              (λ x. still-Keeps objects (ok (with_history task rs doomed))))))

  retention-Keeps : (task : BackupTask) → Keeps objects (apply_retention_policy C task)
  unfolding apply_retention_policy
  retention-Keeps task =
      elim task.spec.retention
        as (λ o.
          Keeps objects (elim o [ none ↦ pure task | some policy ↦ apply_policy C task policy ])) [
            | none ↦ still-Keeps objects (ok task)
            | some policy ↦ apply_policy-Keeps task policy
          ]

  retain_and_requeue-Keeps :
      (task : BackupTask) (job : CronJob) → Keeps objects (retain_and_requeue C task job)
  unfolding retain_and_requeue calculate_next_schedule
  retain_and_requeue-Keeps task job =
      attempt-Keeps objects (retention-Keeps task)
        (λ t. still-Keeps objects (ok (record { requeue_after = five_minutes })))
        (λ e. still-Keeps objects (ok (record { requeue_after = five_minutes })))

  -- What follows the CronJob.
  abbrev pub after_cron_job : BackupTask → CronJob → Action C.World CtrlResult
  after_cron_job task job =
      attempt (wrap_error C "failed to update status" (update_backup_task_status C task job))
        (λ _.
          if has_active job
          then pure (record { requeue_after = half_minute })
          else retain_and_requeue C task job)
        raise

  pub after_cron_job-Keeps :
      (task : BackupTask) (job : CronJob) → Keeps objects (after_cron_job task job)
  after_cron_job-Keeps task job =
      bind-Keeps objects
        (wrap_error-Keeps "failed to update status" (update_backup_task_status-Keeps task job))
        (λ x.
          if-Keeps objects (has_active job)
            (still-Keeps objects (ok (record { requeue_after = half_minute })))
            (retain_and_requeue-Keeps task job))

  report_to-Keeps :
      (r : Option (BackupTask → String → Error → C.World → C.World))
      → C.recorder ≡ r
      → (task : BackupTask) (e : Error) → Keeps objects (report_to C r task e)
  report_to-Keeps none h task e =
      still-Keeps objects (panic "invalid memory address or nil pointer dereference")
  report_to-Keeps (some f) h task e =
      call-Keeps {a = λ w. (fail e, f task "ReconcileFailed" e w)}
        (S.event_keeps f h task "ReconcileFailed" e)

  pub report_failure-Keeps :
      (task : BackupTask) (e : Error) → Keeps objects (report_failure C task e)
  unfolding report_failure
  report_failure-Keeps task e = report_to-Keeps C.recorder refl task e
