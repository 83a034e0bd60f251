-- ===== src/Manager/Main/Starts.antt =====
-- When the manager is started, and with what.
use backup_operator.Base.{
  ◌≡◌, ◌≢◌, ◌↔◌, eq_iff, refl, sym, ◌∙◌, ◌⊎◌, inl, inr, Bool-cases, ◌==◌, Outcome, ok, fail, panic,
  ◌>>◌, [], ◌∷◌, none, Action, pure, crash, some, caught, panic_not_ok, bound, ok_world,
}
use backup_operator.Kube.Keys.{true-not_false}
use backup_operator.Client.{Client}
use backup_operator.Controller.Reconcile.{reconcile}
use backup_operator.Records.Reconcile.{registered_reconcile}
use backup_operator.Webhook.Admission.{
  custom_default, custom_validate_create, custom_validate_update, custom_validate_delete,
}
use backup_operator.Manager.Options.{Flags, manager_options}
use backup_operator.Manager.Setup.{
  Runtime, backup_task, backup_record, cron_job, job, pod, task_builder, registered_record_builder,
  setup_task_controller, setup_registered_record_controller, setup_backup_task_webhook,
}
use backup_operator.Manager.Main.{
  returned, without_recorder, exit_of, must, init, setup_webhooks, run, main,
}

module _ {C : Client} (R : Runtime C) where
  -- The webhook was registered, unless the environment says no.
  abbrev pub Admits : C.World → C.World → Type 0
  Admits w w' =
      ((R.getenv "ENABLE_WEBHOOKS" w ≡ "false") × (w' ≡ w))
      ⊎ ((R.getenv "ENABLE_WEBHOOKS" w ≢ "false")
          × (R.complete_webhook
                (record {
                  admitted = backup_task;
                  handlers = some (record {
                    default = custom_default;
                    validate_create = custom_validate_create;
                    validate_update = custom_validate_update;
                    validate_delete = custom_validate_delete;
                  });
                })
                w
              ≡ (ok tt, w')))

  -- The steps of a run from `w` to `w'`, in their order.
  pub record IsStarted (flags : Flags) (w w' : C.World) : Type 0 where
    pub after_client_go : C.World
    pub after_scheme : C.World
    pub after_manager : C.World
    pub after_task : C.World
    pub after_record : C.World
    pub after_webhook : C.World
    pub after_healthz : C.World
    pub after_readyz : C.World
    pub client_go_known : R.add_client_go_to_scheme w ≡ (ok tt, after_client_go)
    pub backup_known : R.add_backup_to_scheme after_client_go ≡ (ok tt, after_scheme)
    pub managed : R.new_manager (manager_options flags) after_scheme ≡ (ok tt, after_manager)
    pub task_registered :
        R.complete_controller
          (record { watched = backup_task; owns = cron_job ∷ job ∷ pod ∷ []; named = none })
          (reconcile (record C { recorder = none }))
          after_manager
        ≡ (ok tt, after_task)
    pub record_registered :
        R.complete_controller
          (record { watched = backup_record; owns = []; named = some "backuprecord" })
          (registered_reconcile C)
          after_task
        ≡ (ok tt, after_record)
    pub webhook_registered : Admits after_record after_webhook
    pub healthz : R.add_healthz_check "healthz" after_webhook ≡ (ok tt, after_healthz)
    pub readyz : R.add_readyz_check "readyz" after_healthz ≡ (ok tt, after_readyz)
    pub started : R.start after_readyz ≡ (ok tt, w')

  exit_of-returned :
      (o : Outcome (Unit {0}) × C.World) {w' : C.World}
      → exit_of o ≡ (returned, w')
      → o ≡ (ok tt, w')
  exit_of-returned (ok x, w) h = cc
  exit_of-returned (fail e, w) h = cc
  exit_of-returned (panic m, w) h = cc

  -- A call that `Must` lets pass.
  must-ok :
      (a : Action C.World (Unit {0})) (w w' : C.World) → must a w ≡ (ok tt, w') → a w ≡ (ok tt, w')
  must-ok a w w' h = elim (caught a pure (λ e. crash {A = Unit {0}} "an error of AddToScheme") h) [
    | inl b ↦ cc (b.first, b.second)
    | inr c ↦ absurd (panic_not_ok c.second)
  ]

  setup_webhooks-Admits : (w w' : C.World) → setup_webhooks R w ≡ (ok tt, w') → Admits w w'
  unfolding setup_webhooks setup_backup_task_webhook
  setup_webhooks-Admits w w' h = elim (Bool-cases (R.getenv "ENABLE_WEBHOOKS" w == "false")) [
    | inl off ↦
        let e = (eq_iff (R.getenv "ENABLE_WEBHOOKS" w) "false").0 off in
        let same : Path (Outcome (Unit {0}) × C.World) (ok tt, w) (ok tt, w') = rw off at h in
        inl (e, sym (ok_world same))
    | inr on ↦ inr (
      λ e. true-not_false (sym ((eq_iff (R.getenv "ENABLE_WEBHOOKS" w) "false").1 e) ∙ on),
      rw on at h,
    )
  ]

  Admits-setup_webhooks : (w w' : C.World) → Admits w w' → setup_webhooks R w ≡ (ok tt, w')
  unfolding setup_webhooks setup_backup_task_webhook
  Admits-setup_webhooks w w' (inl (off, same)) = rw (off, same) refl
  Admits-setup_webhooks w w' (inr (on, done)) =
      elim (Bool-cases (R.getenv "ENABLE_WEBHOOKS" w == "false")) [
        | inl off ↦ absurd (on ((eq_iff (R.getenv "ENABLE_WEBHOOKS" w) "false").0 off))
        | inr e ↦ rw e done
      ]

  main-IsStarted :
      (flags : Flags) (w w' : C.World) → main R flags w ≡ (returned, w') → IsStarted flags w w'
  unfolding main init run setup_task_controller setup_registered_record_controller
  main-IsStarted flags w w' h =
      let all =
        bound (init R) (λ _. run R flags) (exit_of-returned ((init R >> run R flags) w) h) in
      let s = bound (must R.add_client_go_to_scheme) (λ _. must R.add_backup_to_scheme) all.first in
      let m = bound (R.new_manager (manager_options flags)) _ all.second in
      let t =
        bound (R.complete_controller task_builder (reconcile (without_recorder C))) _ m.second in
      let r =
        bound (R.complete_controller registered_record_builder (registered_reconcile C)) _
          t.second in
      let a = bound (setup_webhooks R) _ r.second in
      let z = bound (R.add_healthz_check "healthz") _ a.second in
      let y = bound (R.add_readyz_check "readyz") (λ _. R.start) z.second in
      record {
        after_client_go = s.middle;
        after_scheme = all.middle;
        after_manager = m.middle;
        after_task = t.middle;
        after_record = r.middle;
        after_webhook = a.middle;
        after_healthz = z.middle;
        after_readyz = y.middle;
        client_go_known = must-ok R.add_client_go_to_scheme w s.middle s.first;
        backup_known = must-ok R.add_backup_to_scheme s.middle all.middle s.second;
        managed = m.first;
        task_registered = t.first;
        record_registered = r.first;
        webhook_registered = setup_webhooks-Admits r.middle a.middle a.first;
        healthz = z.first;
        readyz = y.first;
        started = y.second;
      }

  IsStarted-main :
      (flags : Flags) (w w' : C.World) → IsStarted flags w w' → main R flags w ≡ (returned, w')
  unfolding main init run setup_task_controller setup_registered_record_controller
  IsStarted-main flags w w' s =
      rw
        (
          s.client_go_known,
          s.backup_known,
          s.managed,
          s.task_registered,
          s.record_registered,
          Admits-setup_webhooks s.after_record s.after_webhook s.webhook_registered,
          s.healthz,
          s.readyz,
          s.started,
        )
        refl

  -- main returns exactly if these calls succeed in this order: the types of client-go and those of the
  -- API package are added to the scheme, the manager is made with the options of the flags, the task
  -- controller is registered for tasks and the CronJobs, Jobs and Pods that they own, with a reconciler
  -- that has no recorder, the record controller with the one that does nothing, the webhook of tasks
  -- with the scaffolded handlers unless ENABLE_WEBHOOKS is "false", the two health checks, and last
  -- the manager is started and ends without an error.
  pub main_iff :
      (flags : Flags) (w w' : C.World) → (main R flags w ≡ (returned, w')) ↔ IsStarted flags w w'
  main_iff flags w w' = (main-IsStarted flags w w', IsStarted-main flags w w')
