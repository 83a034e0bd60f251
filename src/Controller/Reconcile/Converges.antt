-- ===== src/Controller/Reconcile/Converges.antt =====
-- One reconciliation of a task, as a change to the objects of the cluster.
use backup_operator.Base.{
  ◌≡◌, refl, sym, ap, ◌∙◌, Bool, not, true, false, some, ◌<>◌, ok, pure, raise, lift, attempt,
  ◌>>=◌, resume_ok, is_not_found, if◌then◌else◌, arith,
}
use backup_operator.Kube.{Labels, ConfigMap, key_of, is_zero_time}
use backup_operator.Api.{BackupTask}
use backup_operator.Client.{Client}
use backup_operator.Controller.CronJobs.{build_cron_job_spec}
use backup_operator.Controller.Objects.{
  declared, Objects, put_task, put_contents, put_cron_spec, config_key, cron_key, guarded, converge,
}
use backup_operator.Controller.Objects.Built.{
  build_cron_job_spec-same, create_target_config_map-same,
}
use backup_operator.Controller.Server.{Server}
use backup_operator.Controller.Reconcile.{
  no_requeue, ensure_finalizer, create_target_config_map, apply_config_map, reconcile_backup_task,
  report_failure, reconcile_present, reconcile_deletion, reconcile,
}
use backup_operator.Controller.Reconcile.Writes.{
  ensure_finalizer_stores, apply_config_map_stores, reconcile_backup_task_stores,
}

kept_of : (b : Bool) → not b ≡ false → b ≡ true
kept_of true h = refl
kept_of false h = cc

module _ (C : Client) where
  -- The task is in the cluster as given, and is not being deleted.
  pub record IsHeld (task : BackupTask) (o : Objects) : Type 0 where
    pub held : o.tasks (key_of task.meta) ≡ some (declared task)
    pub kept : is_zero_time task.meta.deletion_timestamp ≡ true

  -- Two versions of a task that differ in what the controller does not read.
  pub record SameTask (a b : BackupTask) : Type 0 where
    pub key : key_of a.meta ≡ key_of b.meta
    pub uid : a.meta.uid ≡ b.meta.uid
    pub spec : a.spec ≡ b.spec
    pub guard : guarded C (declared a) ≡ guarded C (declared b)

  pub converge-same :
      (a b : BackupTask) (contents : Labels) (o : Objects)
      → SameTask a b
      → converge C a contents o ≡ converge C b contents o
  converge-same a b contents o s =
      let built = build_cron_job_spec-same C a b s.key s.uid s.spec in
      λ i.
        put_cron_spec
          (record { name = "backup-" <> (s.key i).name; namespace = (s.key i).namespace }) (built i)
          (put_contents
            (record { name = (s.key i).name <> "-targets"; namespace = (s.key i).namespace })
            contents (put_task (s.key i) (s.guard i) o))

  config_key_of :
      (t : BackupTask) (config : ConfigMap)
      → create_target_config_map C t ≡ ok config
      → key_of config.meta ≡ config_key t
  unfolding create_target_config_map
  config_key_of t config h = ground arith

module _ {C : Client} (S : Server C) where
  open S use {objects}

  present_converges :
      (t : BackupTask) (config : ConfigMap) (w : C.World)
      → IsHeld C t (objects w)
      → create_target_config_map C t ≡ ok config
      → objects (reconcile_present C t w).1 ≡ converge C t config.contents (objects w)
  unfolding reconcile_present
  present_converges t config w h made =
      let ((g, first, (same, key)), stored) = ensure_finalizer_stores S t w h.held h.kept in
      let u = ap (λ d. d.uid) same in
      let s = ap (λ d. d.spec) same in
      let v = (ensure_finalizer C t w).1 in
      let made' = create_target_config_map-same C g t key u s ∙ made in
      let ((x, second, _), applied) = apply_config_map_stores S config v in
      let v' = (apply_config_map C config v).1 in
      let steps : reconcile_present C t w
          ≡ attempt (reconcile_backup_task C g) pure (report_failure C g) v' =
        rw
          (
            resume_ok (ensure_finalizer C t w)
                (λ g. lift (create_target_config_map C g) >>= (λ c.
                  apply_config_map C c
                  >>= (λ _. attempt (reconcile_backup_task C g) pure (report_failure C g))))
                raise first,
            made',
          )
          (resume_ok (apply_config_map C config v)
            (λ _. attempt (reconcile_backup_task C g) pure (report_failure C g)) raise second) in
      let built = build_cron_job_spec-same C g t key u s in
      let config_key = config_key_of C t config made in
      ap (λ o. objects o.1) steps
      ∙ reconcile_backup_task_stores S g v'
      ∙ ap (put_cron_spec (cron_key g) (build_cron_job_spec C.upper g))
          (applied ∙ ap (put_contents (key_of config.meta) config.contents) stored)
      ∙ (λ i.
          put_cron_spec (record { name = "backup-" <> (key i).name; namespace = (key i).namespace })
            (built i)
            (put_contents (config_key i) config.contents
              (put_task (key_of t.meta) (guarded C (declared t)) (objects w))))

  -- In a cluster whose calls succeed, a reconciliation of a task that is not being deleted does to
  -- the objects what `converge` says, whatever becomes of the status, the retention and the records:
  -- the task gets the finalizer, its config map the contents made of it, its CronJob the spec built
  -- of it, and no other object changes.
  pub reconcile_converges :
      (task : BackupTask) (config : ConfigMap) (w : C.World)
      → IsHeld C task (objects w)
      → create_target_config_map C task ≡ ok config
      → objects (reconcile C (key_of task.meta) w).1 ≡ converge C task config.contents (objects w)
  unfolding reconcile
  reconcile_converges task config w h made =
      let (t, got, (same, key)) = S.get_task_reads (key_of task.meta) w (declared task) h.held in
      let v = (C.get_task (key_of task.meta) w).1 in
      let u = ap (λ d. d.uid) same in
      let s = ap (λ d. d.spec) same in
      let kept =
        kept_of (is_zero_time t.meta.deletion_timestamp)
          (ap (λ d. d.deleting) same ∙ ap not h.kept) in
      let quiet = S.get_task_keeps (key_of task.meta) w in
      let there = ap (λ o. o.tasks (key_of task.meta)) quiet ∙ h.held in
      let found : (objects v).tasks (key_of t.meta) ≡ some (declared t) =
        ap (objects v).tasks key ∙ there ∙ ap some (sym same) in
      let whole : reconcile C (key_of task.meta) w ≡ reconcile_present C t v =
        resume_ok (C.get_task (key_of task.meta) w)
          (λ task.
            if is_zero_time task.meta.deletion_timestamp
            then reconcile_present C task
            else reconcile_deletion C task)
          (λ e. if is_not_found e then pure no_requeue else raise e) got
        ∙ rw kept refl in
      ap (λ o. objects o.1) whole
      ∙ present_converges t config v (record { held = found; kept = kept })
          (create_target_config_map-same C t task key u s ∙ made)
      ∙ ap (converge C t config.contents) quiet
      ∙ converge-same C t task config.contents (objects w)
          (record { key = key; uid = u; spec = s; guard = ap (guarded C) same })
