-- ===== src/Controller/Objects/Laws.antt =====
-- `converge` twice, and for two tasks.
use text.Mathlib.TextLemmas.{append_cancel_left, append_cancel_right}
use backup_operator.Base.{◌≡◌, refl, ap, ◌≢◌, Bool-cases, inl, inr, true, some, List, String}
use backup_operator.Kube.{Labels, key_of}
use backup_operator.Kube.Keys.{put_key_twice, put_key_comm}
use backup_operator.Api.{BackupTask}
use backup_operator.Client.{Client}
use backup_operator.Controller.Constants.{backup_task_finalizer}
use backup_operator.Controller.CronJobs.{build_cron_job_spec}
use backup_operator.Controller.Objects.{
  Declared, declared, Objects, config_key, cron_key, guarded, converge,
}

config_key-ne : (a b : BackupTask) → key_of a.meta ≢ key_of b.meta → config_key a ≢ config_key b
config_key-ne a b other h = other (λ i. record {
  name = (append_cancel_right a.meta.name b.meta.name "-targets" (ap (λ k. k.name) h)) i;
  namespace = (h i).namespace;
})

cron_key-ne : (a b : BackupTask) → key_of a.meta ≢ key_of b.meta → cron_key a ≢ cron_key b
cron_key-ne a b other h = other (λ i. record {
  name = (append_cancel_left "backup-" a.meta.name b.meta.name (ap (λ k. k.name) h)) i;
  namespace = (h i).namespace;
})

module _ (C : Client) where
  pub guarded_twice :
      ((fs : List String) (f : String) → C.contains_finalizer (C.add_finalizer fs f) f ≡ true)
      → (d : Declared) → guarded C (guarded C d) ≡ guarded C d
  guarded_twice added d =
      elim (Bool-cases (C.contains_finalizer d.finalizers backup_task_finalizer)) [
        | inl has ↦ rw (has, has) refl
        | inr lacks ↦ rw (lacks, added d.finalizers backup_task_finalizer) refl
      ]

  -- A task and the same with the finalizer.
  pub converge_twice :
      (task : BackupTask) (contents : Labels) (o : Objects)
      → converge C task contents (converge C task contents o) ≡ converge C task contents o
  converge_twice task contents o = λ i. record {
    tasks =
        (put_key_twice (key_of task.meta) (some (guarded C (declared task)))
            (some (guarded C (declared task))) o.tasks)
          i;
    contents = (put_key_twice (config_key task) (some contents) (some contents) o.contents) i;
    cron_specs =
        (put_key_twice (cron_key task) (some (build_cron_job_spec C.upper task))
            (some (build_cron_job_spec C.upper task)) o.cron_specs)
          i;
  }

  pub converge_comm :
      (a b : BackupTask) (x y : Labels) (o : Objects)
      → key_of a.meta ≢ key_of b.meta
      → converge C a x (converge C b y o) ≡ converge C b y (converge C a x o)
  converge_comm a b x y o other = λ i. record {
    tasks =
        (put_key_comm (key_of a.meta) (key_of b.meta) (some (guarded C (declared a)))
            (some (guarded C (declared b))) o.tasks other)
          i;
    contents =
        (put_key_comm (config_key a) (config_key b) (some x) (some y) o.contents
            (config_key-ne a b other))
          i;
    cron_specs =
        (put_key_comm (cron_key a) (cron_key b) (some (build_cron_job_spec C.upper a))
            (some (build_cron_job_spec C.upper b)) o.cron_specs (cron_key-ne a b other))
          i;
  }
