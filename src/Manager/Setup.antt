-- ===== src/Manager/Setup.antt =====
-- What cmd/main.go asks of controller-runtime, and the registrations that the repository makes:
-- SetupWithManager of the controllers and the setup functions of the webhooks.
use backup_operator.Base.{String, Option, none, some, List, [], ◌∷◌, Error, Action}
use backup_operator.Kube.{NamespacedName}
use backup_operator.Client.{Client}
use backup_operator.Controller.Reconcile.{CtrlResult}
use backup_operator.Records.Reconcile.{reconcile_record, registered_reconcile}
use backup_operator.Webhook.Admission.{
  Object, custom_default, custom_validate_create, custom_validate_update, custom_validate_delete,
}
use backup_operator.Manager.Options.{ManagerOptions}

pub data Kind : Type 0 where
  backup_task backup_record cron_job job pod : Kind

-- `NewControllerManagedBy(mgr).For(…).Owns(…).Named(…)`; without a name the kind's is taken.
pub record ControllerBuilder : Type 0 where
  pub watched : Kind
  pub owns : List Kind
  pub named : Option String

-- A `webhook.CustomDefaulter` and a `webhook.CustomValidator`.
pub record WebhookHandlers : Type 0 where
  pub default : Object → Option Error × Object
  pub validate_create : Object → Option Error
  pub validate_update : Object → Object → Option Error
  pub validate_delete : Object → Option Error

-- `NewWebhookManagedBy(mgr).For(…)`, with the handlers if there are any of their own.
pub record WebhookBuilder : Type 0 where
  pub admitted : Kind
  pub handlers : Option WebhookHandlers

-- The manager and its process, over the world of an API client.
pub record Runtime (C : Client) : Type 0 where
  -- `clientgoscheme.AddToScheme(scheme)` and the one of the API package.
  pub add_client_go_to_scheme : Action C.World (Unit {0})
  pub add_backup_to_scheme : Action C.World (Unit {0})
  pub new_manager : ManagerOptions → Action C.World (Unit {0})
  pub complete_controller :
      ControllerBuilder → (NamespacedName → Action C.World CtrlResult) → Action C.World (Unit {0})
  pub complete_webhook : WebhookBuilder → Action C.World (Unit {0})
  pub getenv : String → C.World → String
  pub add_healthz_check : String → Action C.World (Unit {0})
  pub add_readyz_check : String → Action C.World (Unit {0})
  pub start : Action C.World (Unit {0})

abbrev pub task_builder : ControllerBuilder
task_builder = record { watched = backup_task; owns = cron_job ∷ job ∷ pod ∷ []; named = none }

abbrev pub registered_record_builder : ControllerBuilder
registered_record_builder = record {
  watched = backup_record;
  owns = [];
  named = some "backuprecord";
}

abbrev pub record_builder : ControllerBuilder
record_builder = record { watched = backup_record; owns = []; named = none }

abbrev pub custom_handlers : WebhookHandlers
custom_handlers = record {
  default = custom_default;
  validate_create = custom_validate_create;
  validate_update = custom_validate_update;
  validate_delete = custom_validate_delete;
}

module _ {C : Client} (R : Runtime C) where
  -- SetupWithManager of a BackupTaskReconciler, given by its Reconcile.
  unfoldable pub setup_task_controller :
      (NamespacedName → Action C.World CtrlResult) → Action C.World (Unit {0})
  setup_task_controller reconciler = R.complete_controller task_builder reconciler

  -- SetupWithManager of internal/controller's BackupRecordReconciler.
  unfoldable pub setup_registered_record_controller : Action C.World (Unit {0})
  setup_registered_record_controller =
      R.complete_controller registered_record_builder (registered_reconcile C)

  -- SetupWithManager of the BackupRecordReconciler of controllers/.
  unfoldable pub setup_record_controller : Action C.World (Unit {0})
  setup_record_controller = R.complete_controller record_builder (reconcile_record C)

  -- `SetupBackupTaskWebhookWithManager`
  unfoldable pub setup_backup_task_webhook : Action C.World (Unit {0})
  setup_backup_task_webhook =
      R.complete_webhook (record { admitted = backup_task; handlers = some custom_handlers })

  -- `SetupWebhookWithManager` of BackupTask and of BackupRecord: the object's own methods.
  unfoldable pub setup_own_webhook : Kind → Action C.World (Unit {0})
  setup_own_webhook kind = R.complete_webhook (record { admitted = kind; handlers = none })
