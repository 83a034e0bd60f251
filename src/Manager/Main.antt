-- ===== src/Manager/Main.antt =====
-- init and main of cmd/main.go, over a runtime. Log lines are left out. The flags are those that
-- `flag.Parse` leaves; a command line that it refuses ends the process before.
pub mod Starts
use backup_operator.Base.{
  ℕ, String, ◌==◌, none, Outcome, ok, fail, panic, Error, Action, pure, raise, crash, attempt,
  resume, ◌>>=◌, ◌>>◌, if◌then◌else◌,
}
use backup_operator.Client.{Client}
use backup_operator.Controller.Reconcile.{reconcile}
use backup_operator.Manager.Options.{Flags, manager_options}
use backup_operator.Manager.Setup.{
  Runtime, setup_task_controller, setup_registered_record_controller, setup_backup_task_webhook,
}

-- How the process ends.
pub data Exit : Type 0 where
  returned : Exit
  exited : ℕ → Exit
  panicked : String → Exit

-- The reconciler that main builds has no `Recorder`.
abbrev pub without_recorder : Client → Client
without_recorder C = record C { recorder = none }

abbrev pub exit_of {ℓ} : {W : Type ℓ} → Outcome (Unit {ℓ}) × W → Exit × W
exit_of (ok x, w) = (returned, w)
exit_of (fail e, w) = (exited 1, w)
exit_of (panic m, w) = (panicked m, w)

-- `utilruntime.Must`
abbrev pub must {ℓ} : {W : Type ℓ} → Action W (Unit {ℓ}) → Action W (Unit {ℓ})
must a = attempt a pure (λ e. crash "an error of AddToScheme")

module _ {C : Client} (R : Runtime C) where
  unfoldable pub init : Action C.World (Unit {0})
  init = must R.add_client_go_to_scheme >> must R.add_backup_to_scheme

  unfoldable pub setup_webhooks : Action C.World (Unit {0})
  setup_webhooks w =
      if R.getenv "ENABLE_WEBHOOKS" w == "false" then (ok tt, w) else setup_backup_task_webhook R w

  -- main, up to the exit code: every error that it meets is `os.Exit(1)`.
  unfoldable pub run : Flags → Action C.World (Unit {0})
  unfolding setup_webhooks
  run flags = do
    R.new_manager (manager_options flags)
    setup_task_controller R (reconcile (without_recorder C))
    setup_registered_record_controller R
    setup_webhooks
    R.add_healthz_check "healthz"
    R.add_readyz_check "readyz"
    R.start

  unfoldable pub main : Flags → C.World → Exit × C.World
  unfolding init run setup_task_controller setup_registered_record_controller
      setup_backup_task_webhook manager_options
  main flags w = exit_of ((init >> run flags) w)
