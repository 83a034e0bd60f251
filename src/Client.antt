-- ===== src/Client.antt =====
-- What the reconcilers call but the repository does not implement, as a record that the definitions
-- take: the API client of controller-runtime with its helpers, the clock, the event recorder, and
-- the JSON of types of Kubernetes and a character table of the Go library. An operation that writes an object returns it
-- as the server answers, which is what the client leaves in the caller's variable.
use Prim.Native.Char.{Char}
use backup_operator.Base.{ℤ, String, Bool, Option, List, Error, Outcome, Action}
use backup_operator.Kube.{Time, Labels, NamespacedName, CronJob, ConfigMap, Job, Pod}
use backup_operator.Api.{BackupTask, BackupRecord}
use backup_operator.Json.Targets.{KubeJson}

pub record Client : Type 1 where
  -- Everything that the code can observe and change: the cluster, the clock, the events.
  pub World : Type 0
  -- `time.Now()`; the clock may run on.
  pub now : World → Time × World
  -- `r.Get`, `r.Update` and `r.Status().Update` of a BackupTask.
  pub get_task : NamespacedName → Action World BackupTask
  pub update_task : BackupTask → Action World BackupTask
  pub update_task_status : BackupTask → Action World BackupTask
  -- `r.Create` and `r.Update` of a ConfigMap.
  pub create_config_map : ConfigMap → Action World ConfigMap
  pub update_config_map : ConfigMap → Action World ConfigMap
  -- `ctrl.CreateOrUpdate` with the object and the function that sets its wanted state.
  pub create_or_update_cron_job : CronJob → (CronJob → Outcome CronJob) → Action World CronJob
  pub delete_cron_job : NamespacedName → Action World (Unit {0})
  -- `r.List` with a namespace and `client.MatchingLabels`.
  pub list_records : String → Labels → Action World (List BackupRecord)
  pub list_jobs : String → Labels → Action World (List Job)
  pub list_pods : String → Labels → Action World (List Pod)
  pub get_record : NamespacedName → Action World BackupRecord
  pub update_record_status : BackupRecord → Action World BackupRecord
  pub delete_record : BackupRecord → Action World (Unit {0})
  -- `r.Recorder.Eventf` with the reason and the error, or `none` where the field is nil.
  pub recorder : Option (BackupTask → String → Error → World → World)
  -- `ctrl.SetControllerReference(owner, cronJob, scheme)`.
  pub set_controller_reference : BackupTask → CronJob → Outcome CronJob
  -- controllerutil, on the list of finalizers.
  pub contains_finalizer : List String → String → Bool
  pub add_finalizer : List String → String → List String
  pub remove_finalizer : List String → String → List String
  -- How the types of Kubernetes in a task are written as JSON.
  pub json : KubeJson
  -- The upper case of a character.
  pub upper : Char → Char
  -- `fmt.Sprintf("%.2f", d.Seconds())`.
  pub format_seconds : ℤ → String
