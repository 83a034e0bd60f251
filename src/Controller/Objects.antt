-- ===== src/Controller/Objects.antt =====
-- What a cluster holds for the tasks, without status, times and versions: the abstract state of the
-- task controller, and what one reconciliation means to do to it.
pub mod Built
pub mod Laws
use backup_operator.Base.{
  ◌≡◌, refl, sym, ap, ◌∙◌, ◌≢◌, String, ◌<>◌, Bool, not, Option, none, some, List, if◌then◌else◌,
}
use backup_operator.Kube.{NamespacedName, Labels, key_of, is_zero_time, CronJobSpec, ObjectMeta}
use backup_operator.Kube.Keys.{put_key}
use backup_operator.Api.{BackupTask, BackupTaskSpec}
use backup_operator.Client.{Client}
use backup_operator.Controller.Constants.{backup_task_finalizer}
use backup_operator.Controller.CronJobs.{cron_job_name, build_cron_job_spec}

-- What the user and the finalizer protocol say of a task.
pub record Declared : Type 0 where
  pub uid : String
  pub spec : BackupTaskSpec
  pub finalizers : List String
  pub deleting : Bool

abbrev pub declared : BackupTask → Declared
declared task = record {
  uid = task.meta.uid;
  spec = task.spec;
  finalizers = task.meta.finalizers;
  deleting = not (is_zero_time task.meta.deletion_timestamp);
}

pub record Objects : Type 0 where
  pub tasks : NamespacedName → Option Declared
  pub contents : NamespacedName → Option Labels
  pub cron_specs : NamespacedName → Option CronJobSpec

abbrev pub put_task : NamespacedName → Declared → Objects → Objects
put_task k d o = record o { tasks = put_key k (some d) o.tasks }

abbrev pub put_contents : NamespacedName → Labels → Objects → Objects
put_contents k c o = record o { contents = put_key k (some c) o.contents }

abbrev pub put_cron_spec : NamespacedName → CronJobSpec → Objects → Objects
put_cron_spec k s o = record o { cron_specs = put_key k (some s) o.cron_specs }

abbrev pub drop_cron_spec : NamespacedName → Objects → Objects
drop_cron_spec k o = record o { cron_specs = put_key k none o.cron_specs }

abbrev pub config_key : BackupTask → NamespacedName
config_key task = record { name = task.meta.name <> "-targets"; namespace = task.meta.namespace }

abbrev pub cron_key : BackupTask → NamespacedName
cron_key task = record { name = cron_job_name task; namespace = task.meta.namespace }

module _ (C : Client) where
  -- The finalizers after the controller has seen the task.
  abbrev pub guarded_finalizers : List String → List String
  guarded_finalizers fs =
      if C.contains_finalizer fs backup_task_finalizer
      then fs
      else C.add_finalizer fs backup_task_finalizer

  abbrev pub guarded : Declared → Declared
  guarded d = record d { finalizers = guarded_finalizers d.finalizers }

  -- A reconciled task has the finalizer, its targets in a config map and its CronJob; nothing else
  -- changes.
  abbrev pub converge : BackupTask → Labels → Objects → Objects
  converge task contents o = put_cron_spec (cron_key task) (build_cron_job_spec C.upper task) (
      put_contents (config_key task) contents
        (put_task (key_of task.meta) (guarded (declared task)) o))
