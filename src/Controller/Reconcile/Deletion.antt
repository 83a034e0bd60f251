-- ===== src/Controller/Reconcile/Deletion.antt =====
-- The deletion protocol: the finalizer goes last.
use backup_operator.Base.{
  ◌≡◌, refl, ◌⊎◌, inl, inr, [], ◌∷◌, bound, caught, subst, ok_world, true, false, List, Outcome, ok,
  fail, panic, Error, is_not_found, wrapped, Action, pure, raise, ◌>>=◌, ◌>>◌, attempt, resume,
  arith, if◌then◌else◌,
}
use backup_operator.Kube.{NamespacedName, is_zero_time}
use backup_operator.Api.{BackupTask, BackupRecord}
use backup_operator.Client.{Client}
use backup_operator.Controller.Constants.{backup_task_finalizer, backup_task_label_key}
use backup_operator.Controller.CronJobs.{cron_job_name}
use backup_operator.Controller.Retention.{wrap_error, wrap_error-ok, delete_records}
use backup_operator.Controller.Reconcile.{
  CtrlResult, no_requeue, with_finalizers, finalize_backup_task, reconcile_deletion, reconcile,
}

module _ (C : Client) where
  -- A task that is being deleted and still has the finalizer, as the server returns it.
  pub record IsDeleting (request : NamespacedName) (w w' : C.World) (task : BackupTask)
      : Type 0 where
    pub fetched : C.get_task request w ≡ (ok task, w')
    pub deleted : is_zero_time task.meta.deletion_timestamp ≡ false
    pub finalizer : C.contains_finalizer task.meta.finalizers backup_task_finalizer ≡ true

  abbrev pub without_finalizer : BackupTask → BackupTask
  without_finalizer task =
      with_finalizers task (C.remove_finalizer task.meta.finalizers backup_task_finalizer)

  -- What follows the cleanup.
  abbrev pub after_cleanup :
      BackupTask → Outcome (Unit {0}) × C.World → Outcome CtrlResult × C.World
  after_cleanup task (ok x, w) =
      resume (C.update_task (without_finalizer task) w) (λ _ w'. (ok no_requeue, w'))
        (λ e w'. (fail e, w'))
  after_cleanup task (fail e, w) = (fail e, w)
  after_cleanup task (panic m, w) = (panic m, w)

  cleanup_first :
      (task : BackupTask) (r : Outcome (Unit {0}) × C.World)
      → resume r (λ _. C.update_task (without_finalizer task) >> pure no_requeue) raise
        ≡ after_cleanup task r
  cleanup_first task (ok x, w) = refl
  cleanup_first task (fail e, w) = refl
  cleanup_first task (panic m, w) = refl

  -- Reconciling a task that is being deleted and has the finalizer is the cleanup, and then, only if
  -- the cleanup succeeded, the update that takes the finalizer away; an error of either ends it
  -- there.
  pub reconcile_of_deleting :
      (request : NamespacedName) (w w' : C.World) (task : BackupTask)
      → IsDeleting request w w' task
      → reconcile C request w ≡ after_cleanup task (finalize_backup_task C task w')
  unfolding reconcile reconcile_deletion
  reconcile_of_deleting request w w' task d =
      rw (d.fetched, d.deleted, d.finalizer) (cleanup_first task (finalize_backup_task C task w'))

  abbrev pub cron_job_key : BackupTask → NamespacedName
  cron_job_key task = record { name = cron_job_name task; namespace = task.meta.namespace }

  abbrev pub records_of : BackupTask → Action C.World (List BackupRecord)
  records_of task =
      C.list_records task.meta.namespace ((backup_task_label_key, task.meta.name) ∷ [])

  -- The deletion of each record of the list was tried, in the order of the list and whether those
  -- before it succeeded or failed.
  pub data Tried : List BackupRecord → C.World → C.World → Type 0 where
    done : {w : C.World} → Tried [] w w
    deleted :
        {r : BackupRecord} {rs : List BackupRecord} {w v w' : C.World} (x : Unit {0})
        → C.delete_record r w ≡ (ok x, v)
        → Tried rs v w'
        → Tried (r ∷ rs) w w'
    refused :
        {r : BackupRecord} {rs : List BackupRecord} {w v w' : C.World} (e : Error)
        → C.delete_record r w ≡ (fail e, v)
        → Tried rs v w'
        → Tried (r ∷ rs) w w'

  delete_records-Tried :
      (rs : List BackupRecord) (x : Unit {0}) (w w' : C.World)
      → delete_records C rs w ≡ (ok x, w')
      → Tried rs w w'
  unfolding delete_records
  delete_records-Tried [] x w w' h = subst (Tried [] w) (ok_world h) done
  delete_records-Tried (r ∷ rs) x w w' h =
      elim (caught (C.delete_record r) (λ _. delete_records C rs) (λ _. delete_records C rs) h) [
        | inl b ↦ deleted b.value b.first (delete_records-Tried rs x b.middle w' b.second)
        | inr c ↦ refused c.error c.first (delete_records-Tried rs x c.middle w' c.second)
      ]

  -- The steps of a finished deletion from the world `w` to `w'`, in their order.
  pub record IsDeleted (task : BackupTask) (w w' : C.World) : Type 0 where
    pub after_job : C.World
    pub after_list : C.World
    pub after_records : C.World
    pub records : List BackupRecord
    pub updated : BackupTask
    pub job_gone :
        ((x : Unit {0}) × (C.delete_cron_job (cron_job_key task) w ≡ (ok x, after_job)))
        ⊎ ((e : Error) × (is_not_found e ≡ true)
            × (C.delete_cron_job (cron_job_key task) w ≡ (fail e, after_job)))
    pub listed : records_of task after_job ≡ (ok records, after_list)
    pub tried : Tried records after_list after_records
    pub released : C.update_task (without_finalizer task) after_records ≡ (ok updated, w')

  abbrev pub tolerate : Error → Action C.World (Unit {0})
  tolerate e = if is_not_found e then pure tt else raise (wrapped "failed to delete CronJob" e)

  tolerate-ok :
      (e : Error) {w w' : C.World} {x : Unit {0}}
      → tolerate e w ≡ (ok x, w')
      → (is_not_found e ≡ true) × (w ≡ w')
  tolerate-ok e h = (ground arith, ground arith)

  job_gone_of :
      (task : BackupTask) {w v : C.World} {x : Unit {0}}
      → attempt (C.delete_cron_job (cron_job_key task)) (λ _. pure tt) tolerate w ≡ (ok x, v)
      → ((x : Unit {0}) × (C.delete_cron_job (cron_job_key task) w ≡ (ok x, v)))
        ⊎ ((e : Error) × (is_not_found e ≡ true)
            × (C.delete_cron_job (cron_job_key task) w ≡ (fail e, v)))
  job_gone_of task h =
      elim (caught (C.delete_cron_job (cron_job_key task)) (λ _. pure tt) tolerate h) [
        | inl b ↦ inl (b.value, cc (b.first, b.second))
        | inr c ↦
            let (missing, same) = tolerate-ok c.error c.second in
            inr (c.error, missing, cc (c.first, same))
      ]

  released_of :
      (task : BackupTask) {w w' : C.World} {r : CtrlResult}
      → (C.update_task (without_finalizer task) >> pure no_requeue) w ≡ (ok r, w')
      → (t : BackupTask) × (C.update_task (without_finalizer task) w ≡ (ok t, w'))
  released_of task h =
      let b = bound (C.update_task (without_finalizer task)) (λ _. pure no_requeue) h in
      (b.value, cc (b.first, b.second))

  -- If the reconciliation of a task that is being deleted and has the finalizer ends without an
  -- error, then its CronJob was deleted or was gone already, after that its records were listed,
  -- after that the deletion of every listed record was tried, whether others failed or not, and only
  -- after that the finalizer was taken away and the task updated.
  pub deletion_order :
      (request : NamespacedName) (w w' w'' : C.World) (task : BackupTask) (r : CtrlResult)
      → IsDeleting request w w' task
      → reconcile C request w ≡ (ok r, w'')
      → IsDeleted task w' w''
  unfolding reconcile reconcile_deletion finalize_backup_task
  deletion_order request w w' w'' task r d h =
      let whole =
        bound (finalize_backup_task C task)
          (λ _. C.update_task (without_finalizer task) >> pure no_requeue)
          (rw (d.fetched, d.deleted, d.finalizer) at h) in
      let job =
        bound (attempt (C.delete_cron_job (cron_job_key task)) (λ _. pure tt) tolerate)
          (λ _. wrap_error C "failed to list BackupRecords" (records_of task) >>= delete_records C)
          whole.first in
      let found =
        bound (wrap_error C "failed to list BackupRecords" (records_of task)) (delete_records C)
          job.second in
      let (updated, released) = released_of task whole.second in
      record {
        after_job = job.middle;
        after_list = found.middle;
        after_records = whole.middle;
        records = found.value;
        updated = updated;
        job_gone = job_gone_of task job.first;
        listed =
            wrap_error-ok C "failed to list BackupRecords" (records_of task) {w = job.middle}
              found.first;
        tried = delete_records-Tried found.value whole.value found.middle whole.middle found.second;
        released = released;
      }
