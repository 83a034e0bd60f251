-- ===== src/Controller/Reconcile/Writes.antt =====
-- The calls of a reconciliation that change the objects of the cluster.
use backup_operator.Base.{
  ◌≡◌, refl, sym, ap, ◌∙◌, String, Bool-cases, inl, inr, not, true, Option, none, some, ok, Action,
  pure, raise, attempt, resume_ok, resume_fail, resume-Keeps, still-Keeps, wrapped,
}
use backup_operator.Kube.{Labels, ConfigMap, key_of, is_zero_time}
use backup_operator.Kube.Keys.{put_key_same}
use backup_operator.Api.{BackupTask}
use backup_operator.Client.{Client}
use backup_operator.Controller.Constants.{backup_task_finalizer}
use backup_operator.Controller.Retention.{wrap_error}
use backup_operator.Controller.CronJobs.{build_cron_job_spec}
use backup_operator.Controller.Objects.{
  declared, put_task, put_contents, put_cron_spec, cron_key, guarded,
}
use backup_operator.Controller.Server.{Server, Succeeds, Trivial}
use backup_operator.Controller.Reconcile.{
  ensure_finalizer, with_finalizers, apply_config_map, new_cron_job, mutate_cron_job,
  create_or_update_cron_job, reconcile_backup_task, report_failure,
}
use backup_operator.Controller.Reconcile.Quiet.{
  after_cron_job, after_cron_job-Keeps, report_failure-Keeps,
}

module _ {C : Client} (S : Server C) where
  open S use {objects}

  pub ensure_finalizer_stores :
      (t : BackupTask) (w : C.World)
      → (objects w).tasks (key_of t.meta) ≡ some (declared t)
      → is_zero_time t.meta.deletion_timestamp ≡ true
      → Succeeds
          (λ g. (declared g ≡ guarded C (declared t)) × (key_of g.meta ≡ key_of t.meta))
          (ensure_finalizer C t w)
        × (objects (ensure_finalizer C t w).1
            ≡ put_task (key_of t.meta) (guarded C (declared t)) (objects w))
  unfolding ensure_finalizer
  ensure_finalizer_stores t w here kept =
      elim (Bool-cases (C.contains_finalizer t.meta.finalizers backup_task_finalizer)) [
        | inl has ↦ rw has (
          (t, refl, (refl, refl)),
          λ i. record (objects w) {
            tasks =
                (sym (put_key_same (key_of t.meta) (some (declared t)) (objects w).tasks here)) i;
          },
        )
        | inr lacks ↦ rw lacks (
            S.update_task_stores
              (with_finalizers t (C.add_finalizer t.meta.finalizers backup_task_finalizer)) w
              (declared t) here (ap not kept))
      ]

  stores_config :
      (config : ConfigMap) (w : C.World) (old : Option Labels)
      → (objects w).contents (key_of config.meta) ≡ old
      → Succeeds Trivial (apply_config_map C config w)
        × (objects (apply_config_map C config w).1
            ≡ put_contents (key_of config.meta) config.contents (objects w))
  unfolding apply_config_map
  stores_config config w none here =
      let ((c, made, _), after) = S.create_config_map_new config w here in
      rw (resume_ok (C.create_config_map config w) (λ _. pure tt) _ made) ((tt, refl, tt), after)
  stores_config config w (some old) here =
      let ((e, failed, there), same) = S.create_config_map_old config w old here in
      let v = (C.create_config_map config w).1 in
      let ((c, made, _), after) =
        S.update_config_map_stores config v old
          (ap (λ o. o.contents (key_of config.meta)) same ∙ here) in
      rw
        (
          resume_fail (C.create_config_map config w) (λ _. pure tt) _ failed,
          there,
          resume_ok (C.update_config_map config v) (λ _. pure tt) raise made,
        )
        ((tt, refl, tt), after ∙ ap (put_contents (key_of config.meta) config.contents) same)

  pub apply_config_map_stores :
      (config : ConfigMap) (w : C.World)
      → Succeeds Trivial (apply_config_map C config w)
        × (objects (apply_config_map C config w).1
            ≡ put_contents (key_of config.meta) config.contents (objects w))
  apply_config_map_stores config w =
      stores_config config w ((objects w).contents (key_of config.meta)) refl

  pub create_or_update_cron_job_stores :
      (t : BackupTask) (w : C.World)
      → Succeeds Trivial (create_or_update_cron_job C t w)
        × (objects (create_or_update_cron_job C t w).1
            ≡ put_cron_spec (cron_key t) (build_cron_job_spec C.upper t) (objects w))
  unfolding create_or_update_cron_job mutate_cron_job new_cron_job
  create_or_update_cron_job_stores t w =
      S.create_or_update_stores (new_cron_job t) (mutate_cron_job C t)
        (build_cron_job_spec C.upper t) w
        (λ j same. S.sets_reference t (record j { spec = build_cron_job_spec C.upper t }))

  wrapped_ok :
      {A : Type 0} (m : String) (a : Action C.World A) (w : C.World) {x : A}
      → (a w).0 ≡ ok x
      → wrap_error C m a w ≡ (ok x, (a w).1)
  wrapped_ok m a w e = resume_ok (a w) pure (λ e. raise (wrapped m e)) e

  pub reconcile_backup_task_stores :
      (t : BackupTask) (w : C.World)
      → objects (attempt (reconcile_backup_task C t) pure (report_failure C t) w).1
        ≡ put_cron_spec (cron_key t) (build_cron_job_spec C.upper t) (objects w)
  unfolding reconcile_backup_task
  reconcile_backup_task_stores t w =
      let ((job, made, _), after) = create_or_update_cron_job_stores t w in
      let v = (create_or_update_cron_job C t w).1 in
      let steps : reconcile_backup_task C t w ≡ after_cron_job S t job v =
        rw (wrapped_ok "failed to create/update CronJob" (create_or_update_cron_job C t) w made)
          refl in
      resume-Keeps objects (reconcile_backup_task C t w) (objects v) pure (report_failure C t)
        (ap (λ o. objects o.1) steps ∙ (after_cron_job-Keeps S t job).keeps v)
        (λ x. still-Keeps objects (ok x)) (report_failure-Keeps S t)
      ∙ after
