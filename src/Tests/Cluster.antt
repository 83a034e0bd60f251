-- ===== src/Tests/Cluster.antt =====
-- A cluster of one task with its objects, for the tests.
use backup_operator.Base.{
  ℤ, pos, String, ◌==◌, Bool, false, not, Option, none, some, List, [], ◌∷◌, ◌++◌, filter, Outcome,
  ok, fail, panic, not_found, already_exists, Error, ◌||◌,
}
use backup_operator.Kube.{CronJob, ConfigMap, Job, Pod}
use backup_operator.Api.{BackupTask, BackupRecord}
use backup_operator.Json.{Value, null, text, array, item, nil, struct, omit_text, slice}
use backup_operator.Json.Targets.{KubeJson}
use backup_operator.Client.{Client}

pub record Cluster : Type 0 where
  pub clock : ℤ
  pub task : Option BackupTask
  pub config : Option ConfigMap
  pub cron_job : Option CronJob
  pub records : List BackupRecord
  pub jobs : List Job
  pub pods : List Pod
  pub events : List String

abbrev pub missing : Error
missing = Error.api not_found "not found"

abbrev pub found {ℓ} : {A W : Type ℓ} → Option A → W → Outcome A × W
found none w = (fail missing, w)
found (some a) w = (ok a, w)

abbrev put_config : Option ConfigMap → ConfigMap → Cluster → Outcome ConfigMap × Cluster
put_config none c w = (ok c, record w { config = some c })
put_config (some old) c w = (fail (Error.api already_exists "already exists"), w)

abbrev put_cron_job : Outcome CronJob → Cluster → Outcome CronJob × Cluster
put_cron_job (ok job) w = (ok job, record w { cron_job = some job })
put_cron_job (fail e) w = (fail e, w)
put_cron_job (panic m) w = (panic m, w)

abbrev or_new {ℓ} : {A : Type ℓ} → Option A → A → A
or_new none a = a
or_new (some b) a = b

abbrev drop_cron_job : Option CronJob → Cluster → Outcome (Unit {0}) × Cluster
drop_cron_job none w = (fail missing, w)
drop_cron_job (some job) w = (ok tt, record w { cron_job = none })

abbrev first_record : List BackupRecord → Cluster → Outcome BackupRecord × Cluster
first_record [] w = (fail missing, w)
first_record (r ∷ rs) w = (ok r, w)

abbrev pub has : List String → String → Bool
has [] x = false
has (y ∷ ys) x = (y == x) || has ys x

abbrev eventf : BackupTask → String → Error → Cluster → Cluster
eventf task reason e w = record w { events = reason ∷ w.events }

abbrev pub pair_json : String × String → Value
pair_json (k, v) = array (item (text k) (item (text v) nil))

-- A text behind a pointer without `omitempty`.
abbrev pub nullable : Option String → Value
nullable none = null
nullable (some s) = text s

-- The types of Kubernetes as their tags say, as far as the model has their fields.
abbrev pub kube_json : KubeJson
kube_json = record {
  secret = λ s. struct (("name", omit_text s.name) ∷ ("namespace", omit_text s.namespace) ∷ []);
  local = λ l. struct (
      ("apiGroup", some (nullable l.api_group))
      ∷ ("kind", some (text l.kind))
      ∷ ("name", some (text l.name))
      ∷ []);
  selector = λ l. struct (
      ("matchLabels", some (slice pair_json l.match_labels)) ∷ ("other", some (text l.other)) ∷ []);
}

abbrev pub client_of : Option (BackupTask → String → Error → Cluster → Cluster) → Client
client_of sink = record {
  World = Cluster;
  now = λ w. (w.clock, w);
  get_task = λ key w. found w.task w;
  update_task = λ t w. (ok t, record w { task = some t });
  update_task_status = λ t w. (ok t, record w { task = some t });
  create_config_map = λ c w. put_config w.config c w;
  update_config_map = λ c w. (ok c, record w { config = some c });
  create_or_update_cron_job = λ job mutate w. put_cron_job (mutate (or_new w.cron_job job)) w;
  delete_cron_job = λ key w. drop_cron_job w.cron_job w;
  list_records = λ namespace labels w. (ok w.records, w);
  list_jobs = λ namespace labels w. (ok w.jobs, w);
  list_pods = λ namespace labels w. (ok w.pods, w);
  get_record = λ key w. first_record w.records w;
  update_record_status = λ r w. (ok r, record w { records = r ∷ [] });
  delete_record = λ r w.
      (ok tt, record w { records = filter (λ s. not (s.meta.name == r.meta.name)) w.records });
  recorder = sink;
  set_controller_reference = λ task job. ok job;
  contains_finalizer = has;
  add_finalizer = λ fs f. fs ++ (f ∷ []);
  remove_finalizer = λ fs f. filter (λ g. not (g == f)) fs;
  json = kube_json;
  upper = λ c. c;
  format_seconds = λ d. "0.00";
}

abbrev pub test_client : Client
test_client = client_of (some eventf)

-- The client of a reconciler whose recorder is nil and whose CronJobs are refused.
abbrev pub mute_client : Client
mute_client = record (client_of none) {
  set_controller_reference = λ task job. fail (Error.message "already owned");
}

abbrev pub cluster_of : BackupTask → List BackupRecord → Cluster
cluster_of task records = record {
  clock = pos 1000;
  task = some task;
  config = none;
  cron_job = none;
  records = records;
  jobs = [];
  pods = [];
  events = [];
}
