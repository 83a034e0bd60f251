-- ===== src/Controller/Reconcile/Cleanup.antt =====
-- The deletion of a task in a cluster in which every deletion succeeds.
use backup_operator.Base.{
  ◌≡◌, true, refl, ap, ◌∙◌, ◌⊎◌, inl, inr, ℕ, none, some, List, get_elem?, Outcome, ok, fail, panic,
  Error, is_not_found, resume,
}
use backup_operator.Kube.{NamespacedName, key_of}
use backup_operator.Api.{BackupTask, BackupRecord}
use backup_operator.Client.{Client}
use backup_operator.Controller.Retention.{delete_records}
use backup_operator.Controller.Retention.Removes.{
  DeletionsSucceed, delete_records-succeeds, delete_records-removes,
}
use backup_operator.Controller.Reconcile.{no_requeue, finalize_backup_task, reconcile}
use backup_operator.Controller.Reconcile.Deletion.{
  IsDeleting, without_finalizer, after_cleanup, cron_job_key, records_of, reconcile_of_deleting,
}
use backup_operator.Records.Store.{RecordStore}

module _ (C : Client) where
  -- The CronJob was deleted, or was not found.
  abbrev pub IsGone : BackupTask → C.World → C.World → Type 0
  IsGone task w v =
      (C.delete_cron_job (cron_job_key C task) w ≡ (ok tt, v))
      ⊎ ((e : Error) × (is_not_found e ≡ true)
          × (C.delete_cron_job (cron_job_key C task) w ≡ (fail e, v)))

  -- An update of the task succeeds and changes no record.
  pub record UpdatesSucceed (S : RecordStore C) : Type 0 where
    pub updates : (t : BackupTask) (w : C.World) → (x : BackupTask) × ((C.update_task t w).0 ≡ ok x)
    pub keeps :
        (t : BackupTask) (k : NamespacedName) (w : C.World)
        → S.stored (C.update_task t w).1 k ≡ S.stored w k

  finalize_backup_task-deletes :
      (task : BackupTask) (w v u : C.World) (rs : List BackupRecord)
      → IsGone task w v
      → records_of C task v ≡ (ok rs, u)
      → finalize_backup_task C task w ≡ delete_records C rs u
  unfolding finalize_backup_task
  finalize_backup_task-deletes task w v u rs (inl deleted) listed = rw (deleted, listed) refl
  finalize_backup_task-deletes task w v u rs (inr (e, missing, answer)) listed =
      rw (answer, missing, listed) refl

  after_cleanup_ok :
      (task : BackupTask) (o : Outcome (Unit {0}) × C.World) (x : BackupTask)
      → o.0 ≡ ok tt
      → (C.update_task (without_finalizer C task) o.1).0 ≡ ok x
      → after_cleanup C task o ≡ (ok no_requeue, (C.update_task (without_finalizer C task) o.1).1)
  after_cleanup_ok task (ok y, w) x done updated =
      resume_value (C.update_task (without_finalizer C task) w) updated
    where
      resume_value :
          (o : Outcome BackupTask × C.World)
          → o.0 ≡ ok x
          → resume o (λ _ w'. (ok no_requeue, w')) (λ e w'. (fail e, w')) ≡ (ok no_requeue, o.1)
      resume_value (ok y, w) e = refl
      resume_value (fail y, w) e = cc
      resume_value (panic y, w) e = cc
  after_cleanup_ok task (fail y, w) x done updated = cc
  after_cleanup_ok task (panic y, w) x done updated = cc

  -- If the CronJob of a task that is being deleted is deleted or not found, its records are listed,
  -- every deletion of a record and every update of a task succeeds, and an update of a task changes
  -- no record, then the reconciliation succeeds without a requeue, and afterwards no listed record is
  -- in the cluster.
  pub reconcile-removes :
      (S : RecordStore C) (D : DeletionsSucceed S) (U : UpdatesSucceed S) (request : NamespacedName)
      (w w' v u : C.World) (task : BackupTask) (rs : List BackupRecord)
      → IsDeleting C request w w' task
      → IsGone task w' v
      → records_of C task v ≡ (ok rs, u)
      → ((reconcile C request w).0 ≡ ok no_requeue)
        × ((i : ℕ) (r : BackupRecord)
            → get_elem? rs i ≡ some r
            → S.stored (reconcile C request w).1 (key_of r.meta) ≡ none)
  reconcile-removes S D U request w w' v u task rs d gone listed =
      let tried = delete_records C rs u in
      let (x, updated) = U.updates (without_finalizer C task) tried.1 in
      let done =
        reconcile_of_deleting C request w w' task d
        ∙ ap (after_cleanup C task) (finalize_backup_task-deletes task w' v u rs gone listed)
        ∙ after_cleanup_ok task tried x (delete_records-succeeds D rs u) updated in
      (
        ap (λ o. o.0) done,
        λ i r here.
            ap (λ o. S.stored o.1 (key_of r.meta)) done
            ∙ U.keeps (without_finalizer C task) (key_of r.meta) tried.1
            ∙ delete_records-removes D rs r u (i, here),
      )
