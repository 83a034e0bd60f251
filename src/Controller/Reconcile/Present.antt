-- ===== src/Controller/Reconcile/Present.antt =====
-- The reconciliation of a task that is not being deleted, step by step.
use backup_operator.Base.{
  ◌≡◌, ◌≢◌, refl, Bool, List, [], ◌∷◌, arith, sym, ap, ◌⊎◌, inl, inr, bound, caught, ok_value,
  ok_world, fail_not_ok, panic_not_ok, String, Bool-cases, true, false, Option, none, some, ok,
  fail, Error, is_already_exists, Action, pure, raise, lift, ◌>>=◌, ◌>>◌, attempt, if◌then◌else◌,
}
use backup_operator.Kube.{
  NamespacedName, ObjectReference, Time, key_of, is_zero_time, CronJob, ConfigMap,
}
use backup_operator.Controller.CronJobs.{build_cron_job_spec}
use backup_operator.Controller.Status.{next_status}
use backup_operator.Api.{BackupTask}
use backup_operator.Client.{Client}
use backup_operator.Controller.Constants.{backup_task_finalizer}
use backup_operator.Controller.Retention.{
  read_clock, wrap_error, wrap_error-ok, apply_retention_policy,
}
use backup_operator.Controller.Reconcile.{
  CtrlResult, half_minute, five_minutes, has_active, new_cron_job, mutate_cron_job, with_finalizers,
  ensure_finalizer, apply_config_map, create_target_config_map, create_or_update_cron_job,
  update_backup_task_status, retain_and_requeue, calculate_next_schedule, report_to, report_failure,
  reconcile_backup_task, reconcile_present, reconcile,
}

has_active-some :
    (jobs : List ObjectReference)
    → Path Bool (elim jobs [ [] ↦ false | _ ∷ _ ↦ true ]) true
    → jobs ≢ []
has_active-some jobs h = ground arith

has_active-none :
    (jobs : List ObjectReference)
    → Path Bool (elim jobs [ [] ↦ false | _ ∷ _ ↦ true ]) false
    → jobs ≡ []
has_active-none [] h = refl
has_active-none (a ∷ rest) h = cc

module _ (C : Client) where
  -- A task that is not being deleted, as the server returns it.
  pub record IsPresent (request : NamespacedName) (w w' : C.World) (task : BackupTask)
      : Type 0 where
    pub fetched : C.get_task request w ≡ (ok task, w')
    pub kept : is_zero_time task.meta.deletion_timestamp ≡ true

  -- The task has the finalizer, or it was added.
  abbrev pub Guarded : BackupTask → BackupTask → C.World → C.World → Type 0
  Guarded task guarded w w' =
      ((C.contains_finalizer task.meta.finalizers backup_task_finalizer ≡ true)
        × (guarded ≡ task)
        × (w' ≡ w))
      ⊎ ((C.contains_finalizer task.meta.finalizers backup_task_finalizer ≡ false)
          × (C.update_task
                (with_finalizers task (C.add_finalizer task.meta.finalizers backup_task_finalizer))
                w
              ≡ (ok guarded, w')))

  -- The config map was created, or it was there and was updated.
  abbrev pub Applied : ConfigMap → C.World → C.World → Type 0
  Applied config w w' =
      ((c : ConfigMap) × (C.create_config_map config w ≡ (ok c, w')))
      ⊎ ((c : ConfigMap) × (e : Error) × (v : C.World) × (is_already_exists e ≡ true)
          × (C.create_config_map config w ≡ (fail e, v))
          × (C.update_config_map config v ≡ (ok c, w')))

  -- The task was read again, and sent with the status that follows from the CronJob and the clock.
  pub record StatusWritten (task : BackupTask) (job : CronJob) (w w' : C.World) : Type 0 where
    pub latest : BackupTask
    pub after_read : C.World
    pub written : BackupTask
    pub read : C.get_task (key_of task.meta) w ≡ (ok latest, after_read)
    pub sent :
        C.update_task_status
          (record latest { status = next_status task job (C.now after_read).0 latest.status })
          (C.now after_read).1
        ≡ (ok written, w')

  -- The retention was run, whether it succeeded or failed.
  abbrev pub Retained : BackupTask → C.World → C.World → Type 0
  Retained task w w' =
      ((t : BackupTask) × (apply_retention_policy C task w ≡ (ok t, w')))
      ⊎ ((e : Error) × (apply_retention_policy C task w ≡ (fail e, w')))

  -- Nothing more is done while a job is active; otherwise the retention ends the run.
  abbrev pub Requeued : BackupTask → CronJob → CtrlResult → C.World → C.World → Type 0
  Requeued task job r w w' =
      ((job.status.active ≢ []) × (r.requeue_after ≡ half_minute) × (w' ≡ w))
      ⊎ ((job.status.active ≡ []) × (r.requeue_after ≡ five_minutes) × Retained task w w')

  pub record BackupSteps (task : BackupTask) (r : CtrlResult) (w w' : C.World) : Type 0 where
    pub job : CronJob
    pub after_job : C.World
    pub after_status : C.World
    pub job_applied :
        C.create_or_update_cron_job
          (new_cron_job task)
          (λ found.
            C.set_controller_reference task
              (record found { spec = build_cron_job_spec C.upper task }))
          w
        ≡ (ok job, after_job)
    pub status_written : StatusWritten task job after_job after_status
    pub requeued : Requeued task job r after_status w'

  -- The steps of a finished reconciliation from the world `w` to `w'`, in their order.
  pub record IsReconciled (task : BackupTask) (r : CtrlResult) (w w' : C.World) : Type 0 where
    pub guarded : BackupTask
    pub after_finalizer : C.World
    pub config : ConfigMap
    pub after_config : C.World
    pub finalizer_first : Guarded task guarded w after_finalizer
    pub config_made : create_target_config_map C guarded ≡ ok config
    pub config_applied : Applied config after_finalizer after_config
    pub steps : BackupSteps guarded r after_config w'

  ensure_finalizer-Guarded :
      (task guarded : BackupTask) (w w' : C.World)
      → ensure_finalizer C task w ≡ (ok guarded, w')
      → Guarded task guarded w w'
  unfolding ensure_finalizer
  ensure_finalizer-Guarded task guarded w w' h =
      elim (Bool-cases (C.contains_finalizer task.meta.finalizers backup_task_finalizer)) [
        | inl has ↦ let q : pure task w ≡ (ok guarded, w') = rw has at h in inl (has, cc, cc)
        | inr lacks ↦ inr (lacks, rw lacks at h)
      ]

  abbrev overwrite : ConfigMap → Error → Action C.World (Unit {0})
  overwrite config e =
      if is_already_exists e then (do C.update_config_map config; pure tt) else raise e

  apply_config_map-Applied :
      (config : ConfigMap) {x : Unit {0}} {w w' : C.World}
      → apply_config_map C config w ≡ (ok x, w')
      → Applied config w w'
  unfolding apply_config_map
  apply_config_map-Applied config h =
      elim (caught (C.create_config_map config) (λ _. pure tt) (overwrite config) h) [
        | inl b ↦ inl (b.value, cc (b.first, b.second))
        | inr c ↦ elim (Bool-cases (is_already_exists c.error)) [
          | inl there ↦
              let u = bound (C.update_config_map config) (λ _. pure tt) (rw there at c.second) in
              inr (u.value, c.error, c.middle, there, c.first, cc (u.first, u.second))
          | inr other ↦ absurd (fail_not_ok (rw other at c.second))
        ]
      ]

  requeue_of :
      (task : BackupTask) (job : CronJob) (r : CtrlResult) (w w' : C.World)
      → retain_and_requeue C task job w ≡ (ok r, w')
      → (r.requeue_after ≡ five_minutes) × Retained task w w'
  unfolding retain_and_requeue calculate_next_schedule
  requeue_of task job r w w' h =
      let later : CtrlResult = record { requeue_after = five_minutes } in
      elim (caught (apply_retention_policy C task) (λ _. pure later) (λ _. pure later) h) [
        | inl b ↦ (
          sym (ap (λ q. q.requeue_after) (ok_value b.second)),
          inl (b.value, cc (b.first, ok_world b.second)),
        )
        | inr c ↦ (
          sym (ap (λ q. q.requeue_after) (ok_value c.second)),
          inr (c.error, cc (c.first, ok_world c.second)),
        )
      ]

  not_reported :
      (recorder : Option (BackupTask → String → Error → C.World → C.World)) (task : BackupTask)
      (e : Error) (r : CtrlResult) (w w' : C.World)
      → ¬ (report_to C recorder task e w ≡ (ok r, w'))
  not_reported none task e r w w' h = panic_not_ok h
  not_reported (some f) task e r w w' h = fail_not_ok h

  reconcile_backup_task-Requeued :
      (task : BackupTask) (job : CronJob) (r : CtrlResult) (w w' : C.World)
      → (if has_active job
            then pure (record { requeue_after = half_minute })
            else retain_and_requeue C task job)
          w
        ≡ (ok r, w')
      → Requeued task job r w w'
  reconcile_backup_task-Requeued task job r w w' h = elim (Bool-cases (has_active job)) [
    | inl busy ↦
        let now = rw busy at h in
        inl (
          has_active-some job.status.active busy,
          sym (ap (λ q. q.requeue_after) (ok_value now)),
          sym (ok_world now),
        )
    | inr idle ↦
        let (later, retained) = requeue_of task job r w w' (rw idle at h) in
        inr (has_active-none job.status.active idle, later, retained)
  ]

  update-StatusWritten :
      (task : BackupTask) (job : CronJob) (x : Unit {0}) (w w' : C.World)
      → update_backup_task_status C task job w ≡ (ok x, w')
      → StatusWritten task job w w'
  unfolding update_backup_task_status
  update-StatusWritten task job x w w' h =
      let update = λ (latest : BackupTask) (t : Time).
        C.update_task_status (record latest { status = next_status task job t latest.status }) in
      let b =
        bound (C.get_task (key_of task.meta))
          (λ latest. read_clock C >>= (λ t. update latest t >> pure tt)) h in
      let c = bound (update b.value (C.now b.middle).0) (λ _. pure {A = Unit {0}} tt) b.second in
      record {
        latest = b.value;
        after_read = b.middle;
        written = c.value;
        read = b.first;
        sent = cc (c.first, ok_world c.second);
      }

  backup_steps :
      (task : BackupTask) (r : CtrlResult) (w w' : C.World)
      → reconcile_backup_task C task w ≡ (ok r, w')
      → BackupSteps task r w w'
  unfolding reconcile_backup_task create_or_update_cron_job mutate_cron_job
  backup_steps task r w w' h =
      let rest = λ (job : CronJob).
        if has_active job
        then pure (record { requeue_after = half_minute })
        else retain_and_requeue C task job in
      let b =
        bound (wrap_error C "failed to create/update CronJob" (create_or_update_cron_job C task))
          (λ job.
            wrap_error C "failed to update status" (update_backup_task_status C task job)
            >> rest job)
          h in
      let s =
        bound (wrap_error C "failed to update status" (update_backup_task_status C task b.value))
          (λ _. rest b.value) b.second in
      record {
        job = b.value;
        after_job = b.middle;
        after_status = s.middle;
        job_applied =
            wrap_error-ok C "failed to create/update CronJob" (create_or_update_cron_job C task)
              {w = w} b.first;
        status_written = update-StatusWritten task b.value s.value b.middle s.middle (
            wrap_error-ok C "failed to update status" (update_backup_task_status C task b.value)
              {w = b.middle} s.first);
        requeued = reconcile_backup_task-Requeued task b.value r s.middle w' s.second;
      }

  not_failed :
      (task : BackupTask) (r : CtrlResult) (w w' : C.World)
      → attempt (reconcile_backup_task C task) pure (report_failure C task) w ≡ (ok r, w')
      → reconcile_backup_task C task w ≡ (ok r, w')
  unfolding report_failure
  not_failed task r w w' h =
      elim (caught (reconcile_backup_task C task) pure (report_failure C task) h) [
        | inl b ↦ cc (b.first, b.second)
        | inr c ↦ absurd (not_reported C.recorder task c.error r c.middle w' c.second)
      ]

  -- If the reconciliation of a task that is not being deleted ends without an error, then it took
  -- these steps in this order: the finalizer was there or was added before anything else, the
  -- config map of the targets was created or overwritten, the CronJob was created or updated, and
  -- the task was read again and sent with the status that follows from it, the CronJob and the clock.
  -- The next reconciliation is after half a minute, and nothing more was done, if the CronJob has an
  -- active job; otherwise the retention was run, and the next is after five minutes, whether the
  -- retention succeeded or failed.
  pub reconcile_order :
      (request : NamespacedName) (w w' w'' : C.World) (task : BackupTask) (r : CtrlResult)
      → IsPresent request w w' task
      → reconcile C request w ≡ (ok r, w'')
      → IsReconciled task r w' w''
  unfolding reconcile reconcile_present reconcile_backup_task report_failure
  reconcile_order request w w' w'' task r p h =
      let after_config = λ (t : BackupTask).
        λ (_ : Unit {0}). attempt (reconcile_backup_task C t) pure (report_failure C t) in
      let b =
        bound (ensure_finalizer C task)
          (λ t.
            lift (create_target_config_map C t)
            >>= (λ config. apply_config_map C config >>= after_config t))
          (rw (p.fetched, p.kept) at h) in
      let made =
        bound (lift (create_target_config_map C b.value))
          (λ config. apply_config_map C config >>= after_config b.value) b.second in
      let applied = bound (apply_config_map C made.value) (after_config b.value) made.second in
      let steps =
        backup_steps b.value r applied.middle w''
          (not_failed b.value r applied.middle w'' applied.second) in
      record {
        guarded = b.value;
        after_finalizer = made.middle;
        config = made.value;
        after_config = applied.middle;
        steps = steps;
        finalizer_first =
            ensure_finalizer-Guarded task b.value w' made.middle
              (cc (b.first, ap (λ q. q.1) made.first));
        config_made = ap (λ q. q.0) made.first;
        config_applied = apply_config_map-Applied made.value applied.first;
      }
