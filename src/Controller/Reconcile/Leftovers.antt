-- ===== src/Controller/Reconcile/Leftovers.antt =====
-- What the deletion of a task leaves in the cluster.
use backup_operator.Base.{
  ◌≡◌, Bool, Option, ◌<>◌, refl, ap, ◌∙◌, inl, inr, not, true, false, some, none, [], ◌∷◌, ok, fail,
  Action, pure, raise, ◌>>=◌, ◌>>◌, resume_ok, resume_fail, resume-Keeps, is_not_found, Keeps,
  still-Keeps, bind-Keeps, if◌then◌else◌,
}
use backup_operator.Kube.{NamespacedName, Labels, CronJobSpec, key_of, is_zero_time}
use backup_operator.Kube.Keys.{put_key}
use backup_operator.Api.{BackupTask}
use backup_operator.Client.{Client}
use backup_operator.Controller.Constants.{backup_task_finalizer, backup_task_label_key}
use backup_operator.Controller.Retention.{wrap_error, delete_records}
use backup_operator.Controller.Objects.{declared, Objects, cron_key}
use backup_operator.Controller.Server.{Server}
use backup_operator.Controller.Reconcile.{
  no_requeue, finalize_backup_task, reconcile_present, reconcile_deletion, reconcile,
}
use backup_operator.Controller.Reconcile.Deletion.{
  without_finalizer, cron_job_key, records_of, tolerate,
}
use backup_operator.Controller.Reconcile.Quiet.{wrap_error-Keeps, call-Keeps, delete_records-Keeps}

dying_of : (b : Bool) → not b ≡ true → b ≡ false
dying_of false h = refl
dying_of true h = cc

module _ {C : Client} (S : Server C) where
  open S use {objects}

  -- The listing and the deletions of records after the CronJob.
  abbrev sweep : BackupTask → Action C.World (Unit {0})
  sweep task = wrap_error C "failed to list BackupRecords" (records_of C task) >>= delete_records C

  sweep-Keeps : (task : BackupTask) → Keeps objects (sweep task)
  sweep-Keeps task =
      bind-Keeps objects
        (wrap_error-Keeps S "failed to list BackupRecords" (
          call-Keeps S {a = records_of C task} (
            S.list_records_keeps task.meta.namespace
              ((backup_task_label_key, task.meta.name) ∷ []))))
        (delete_records-Keeps S)

  finalize_backup_task-sweeps :
      (task : BackupTask) (w : C.World)
      → finalize_backup_task C task w ≡ sweep task (C.delete_cron_job (cron_job_key C task) w).1
  unfolding finalize_backup_task
  finalize_backup_task-sweeps task w = elim (S.delete_cron_job_drops (cron_job_key C task) w).0 [
    | inl (x, deleted, _) ↦
        rw
          (resume_ok (C.delete_cron_job (cron_job_key C task) w) (λ _. pure tt) (tolerate C)
            deleted)
          refl
    | inr (e, failed, missing) ↦
        rw
          (
            resume_fail (C.delete_cron_job (cron_job_key C task) w) (λ _. pure tt) (tolerate C)
                failed,
            missing,
          )
          refl
  ]

  -- The config maps and the CronJobs.
  abbrev others : C.World → (NamespacedName → Option Labels) × (NamespacedName → Option CronJobSpec)
  others w = ((objects w).contents, (objects w).cron_specs)

  finalize-others :
      (task : BackupTask) (w : C.World)
      → others (finalize_backup_task C task w).1
        ≡ ((objects w).contents, put_key (cron_key task) none (objects w).cron_specs)
  finalize-others task w =
      let v = (C.delete_cron_job (cron_job_key C task) w).1 in
      ap (λ o. others o.1) (finalize_backup_task-sweeps task w)
      ∙ ap (λ (o : Objects). (o.contents, o.cron_specs))
          ((sweep-Keeps task).keeps v ∙ (S.delete_cron_job_drops (cron_job_key C task) w).1)

  update-others : (t : BackupTask) → Keeps others (C.update_task t)
  update-others t = record {
    keeps = λ w. let (c, s) = S.update_task_elsewhere t w in λ i. (c i, s i);
  }

  deletion-others :
      (t : BackupTask) (w : C.World)
      → C.contains_finalizer t.meta.finalizers backup_task_finalizer ≡ true
      → others (reconcile_deletion C t w).1
        ≡ ((objects w).contents, put_key (cron_key t) none (objects w).cron_specs)
  unfolding reconcile_deletion
  deletion-others t w has = rw has (
      resume-Keeps others (finalize_backup_task C t w)
        ((objects w).contents, put_key (cron_key t) none (objects w).cron_specs)
        (λ _. C.update_task (without_finalizer C t) >> pure no_requeue) raise (finalize-others t w)
        (λ x.
          bind-Keeps others (update-others (without_finalizer C t))
            (λ y. still-Keeps others (ok no_requeue)))
        (λ e. still-Keeps others (fail e)))

  -- In a cluster whose calls succeed, the deletion of a task that has the finalizer takes away its
  -- CronJob and no other, and every config map stays, that of the task too.
  pub deletion_leaves :
      (task : BackupTask) (w : C.World)
      → (objects w).tasks (key_of task.meta) ≡ some (declared task)
      → is_zero_time task.meta.deletion_timestamp ≡ false
      → C.contains_finalizer task.meta.finalizers backup_task_finalizer ≡ true
      → ((objects (reconcile C (key_of task.meta) w).1).contents ≡ (objects w).contents)
        × ((objects (reconcile C (key_of task.meta) w).1).cron_specs
            ≡ put_key (cron_key task) none (objects w).cron_specs)
  unfolding reconcile
  deletion_leaves task w held dying has =
      let (t, got, (same, key)) = S.get_task_reads (key_of task.meta) w (declared task) held in
      let v = (C.get_task (key_of task.meta) w).1 in
      let quiet = S.get_task_keeps (key_of task.meta) w in
      let dying' =
        dying_of (is_zero_time t.meta.deletion_timestamp)
          (ap (λ d. d.deleting) same ∙ ap not dying) in
      let whole : reconcile C (key_of task.meta) w ≡ reconcile_deletion C t v =
        resume_ok (C.get_task (key_of task.meta) w)
          (λ task.
            if is_zero_time task.meta.deletion_timestamp
            then reconcile_present C task
            else reconcile_deletion C task)
          (λ e. if is_not_found e then pure no_requeue else raise e) got
        ∙ rw dying' refl in
      let both =
        ap (λ o. others o.1) whole
        ∙ deletion-others t v
            (ap (λ d. C.contains_finalizer d.finalizers backup_task_finalizer) same ∙ has)
        ∙ (λ i. (
          (quiet i).contents,
          put_key (record { name = "backup-" <> (key i).name; namespace = (key i).namespace }) none
              (quiet i).cron_specs,
        )) in
      (ap (λ p. p.0) both, ap (λ p. p.1) both)
