-- ===== src/Tests/Servers.antt =====
-- A cluster that holds just the objects, and the reconciliations of two tasks in it.
use backup_operator.Base.{
  ◌≡◌, refl, ap, ◌≢◌, ◌==◌, pos, not, Bool, true, false, String, Option, none, some, List, [], ◌∷◌,
  Outcome, ok, fail, panic, already_exists, Error, eq_refl, inl,
}
use backup_operator.Kube.{
  NamespacedName, Labels, is_zero_time, ConfigMap, CronJob, CronJobSpec, key_of, Time,
}
use backup_operator.Kube.Keys.{put_key}
use backup_operator.Api.{BackupTask}
use backup_operator.Client.{Client}
use backup_operator.Controller.Objects.{
  Declared, declared, Objects, put_task, put_contents, put_cron_spec, drop_cron_spec, converge,
  cron_key,
}
use backup_operator.Controller.Server.{Server, Succeeds, Trivial}
use backup_operator.Controller.Reconcile.{create_target_config_map, reconcile}
use backup_operator.Controller.Reconcile.Converges.{IsHeld, reconcile_converges}
use backup_operator.Controller.Reconcile.Repeats.{reconcile_again, reconcile_comm}
use backup_operator.Controller.Reconcile.Leftovers.{deletion_leaves}
use backup_operator.Tests.Store.{none-not_some}
use backup_operator.Tests.Samples.{nightly, deleted}
use backup_operator.Tests.Cluster.{kube_json, test_client, missing, has}

abbrev stamp : Bool → Option Time
stamp true = some (pos 1)
stamp false = none

stamp_lem : (b : Bool) → not (is_zero_time (stamp b)) ≡ b
stamp_lem true = refl
stamp_lem false = refl

abbrev rebuild : NamespacedName → Declared → BackupTask
rebuild k d = record nightly {
  meta = record (nightly.meta) {
    name = k.name;
    namespace = k.namespace;
    uid = d.uid;
    finalizers = d.finalizers;
    deletion_timestamp = stamp d.deleting;
  };
  spec = d.spec;
}

abbrev read_task : NamespacedName → Option Declared → Objects → Outcome BackupTask × Objects
read_task k none o = (fail missing, o)
read_task k (some d) o = (ok (rebuild k d), o)

abbrev create : ConfigMap → Option Labels → Objects → Outcome ConfigMap × Objects
create c none o = (ok c, put_contents (key_of c.meta) c.contents o)
create c (some old) o = (fail (Error.api already_exists "already exists"), o)

abbrev store_job : NamespacedName → Outcome CronJob → Objects → Outcome CronJob × Objects
store_job k (ok job) o = (ok job, put_cron_spec k job.spec o)
store_job k (fail e) o = (fail e, o)
store_job k (panic m) o = (panic m, o)

abbrev server_client : Client
server_client = record {
  World = Objects;
  now = λ o. (pos 1000, o);
  get_task = λ k o. read_task k (o.tasks k) o;
  update_task = λ t o. (ok t, put_task (key_of t.meta) (declared t) o);
  update_task_status = λ t o. (ok t, o);
  create_config_map = λ c o. create c (o.contents (key_of c.meta)) o;
  update_config_map = λ c o. (ok c, put_contents (key_of c.meta) c.contents o);
  create_or_update_cron_job = λ job mutate o. store_job (key_of job.meta) (mutate job) o;
  delete_cron_job = λ k o. (ok tt, drop_cron_spec k o);
  list_records = λ namespace labels o. (ok [], o);
  list_jobs = λ namespace labels o. (ok [], o);
  list_pods = λ namespace labels o. (ok [], o);
  get_record = λ k o. (fail missing, o);
  update_record_status = λ r o. (fail missing, o);
  delete_record = λ r o. (ok tt, o);
  recorder = none;
  set_controller_reference = λ task job. ok job;
  contains_finalizer = λ fs f. has fs f;
  add_finalizer = λ fs f. f ∷ fs;
  remove_finalizer = λ fs f. [];
  json = kube_json;
  upper = test_client.upper;
  format_seconds = test_client.format_seconds;
}

reads_task :
    (k : NamespacedName) (o : Objects) (d : Declared)
    → o.tasks k ≡ some d
    → Succeeds (λ t. (declared t ≡ d) × (key_of t.meta ≡ k)) (read_task k (o.tasks k) o)
reads_task k o d here =
    rw here (rebuild k d, refl, ((λ i. record d { deleting = (stamp_lem d.deleting) i }), refl))

stored_job :
    (k : NamespacedName) (r : Outcome CronJob) (job : CronJob) (spec : CronJobSpec) (o : Objects)
    → r ≡ ok job
    → job.spec ≡ spec
    → Succeeds Trivial (store_job k r o) × ((store_job k r o).1 ≡ put_cron_spec k spec o)
stored_job k r job spec o e same = rw e ((job, refl, tt), ap (λ s. put_cron_spec k s o) same)

has_first : (fs : List String) (f : String) → has (f ∷ fs) f ≡ true
has_first fs f = rw (eq_refl f) refl

reading_keeps : (k : NamespacedName) (d : Option Declared) (o : Objects) → (read_task k d o).1 ≡ o
reading_keeps k none o = refl
reading_keeps k (some d) o = refl

abbrev server : Server server_client
server = record {
  objects = λ o. o;
  now_keeps = λ o. refl;
  get_task_keeps = λ k o. reading_keeps k (o.tasks k) o;
  update_task_status_keeps = λ t o. refl;
  list_records_keeps = λ namespace labels o. refl;
  delete_record_keeps = λ r o. refl;
  event_keeps = λ f e. none-not_some e;
  get_task_reads = reads_task;
  update_task_stores = λ t o d here kept. ((t, refl, (refl, refl)), refl);
  update_task_elsewhere = λ t o. (refl, refl);
  create_config_map_new = λ c o h. rw h ((c, refl, tt), refl);
  create_config_map_old =
      λ c o old h. rw h ((Error.api already_exists "already exists", refl, refl), refl);
  update_config_map_stores = λ c o old h. ((c, refl, tt), refl);
  create_or_update_stores = λ job mutate spec o h.
      let (j, e, same) = h job refl in stored_job (key_of job.meta) (mutate job) j spec o e same;
  delete_cron_job_drops = λ k o. (inl (tt, refl, tt), refl);
  sets_reference = λ task job. (job, refl, refl);
  contains_added = has_first;
}

abbrev weekly : BackupTask
weekly = record nightly { meta = record (nightly.meta) { name = "weekly"; finalizers = [] } }

-- Two tasks, and nothing made of them yet.
abbrev fresh : Objects
fresh = put_task (key_of weekly.meta) (declared weekly) (
    put_task (key_of nightly.meta) (declared nightly)
      (record { tasks = λ k. none; contents = λ k. none; cron_specs = λ k. none }))

abbrev config_of : Outcome ConfigMap → ConfigMap
config_of (ok c) = c
config_of (fail e) = record { meta = nightly.meta; contents = [] }
config_of (panic m) = record { meta = nightly.meta; contents = [] }

abbrev nightly_config : ConfigMap
nightly_config = config_of (create_target_config_map server_client nightly)

nightly_made : create_target_config_map server_client nightly ≡ ok nightly_config
unfolding create_target_config_map
nightly_made = refl

abbrev weekly_config : ConfigMap
weekly_config = config_of (create_target_config_map server_client weekly)

weekly_made : create_target_config_map server_client weekly ≡ ok weekly_config
unfolding create_target_config_map
weekly_made = refl

nightly-IsHeld : IsHeld server_client nightly fresh
nightly-IsHeld = record { held = refl; kept = refl }

weekly-IsHeld : IsHeld server_client weekly fresh
weekly-IsHeld = record { held = refl; kept = refl }

weekly-not_nightly : key_of nightly.meta ≢ key_of weekly.meta
weekly-not_nightly h = absurd_names (ap (λ k. k.name == "nightly") h)
  where
    absurd_names : ¬ (true ≡ false)
    absurd_names e = cc

reconcile_converges_example :
    (reconcile server_client (key_of weekly.meta) fresh).1
    ≡ converge server_client weekly weekly_config.contents fresh
reconcile_converges_example =
    reconcile_converges server weekly weekly_config fresh weekly-IsHeld weekly_made

reconcile_again_example :
    (reconcile server_client
      (key_of weekly.meta)
      (reconcile server_client (key_of weekly.meta) fresh).1).1
    ≡ (reconcile server_client (key_of weekly.meta) fresh).1
reconcile_again_example =
    reconcile_again server weekly weekly_config fresh weekly-IsHeld weekly_made

reconcile_comm_example :
    (reconcile server_client
      (key_of nightly.meta)
      (reconcile server_client (key_of weekly.meta) fresh).1).1
    ≡ (reconcile server_client
        (key_of weekly.meta)
        (reconcile server_client (key_of nightly.meta) fresh).1).1
reconcile_comm_example =
    reconcile_comm server nightly weekly nightly_config weekly_config fresh nightly-IsHeld
      weekly-IsHeld nightly_made weekly_made weekly-not_nightly

-- The deleted task with its finalizer, its config map and its CronJob.
abbrev ending : Objects
ending =
    put_task (key_of deleted.meta) (declared deleted)
      (converge server_client nightly nightly_config.contents fresh)

deletion_leaves_example :
    ((reconcile server_client (key_of deleted.meta) ending).1.contents ≡ ending.contents)
    × ((reconcile server_client (key_of deleted.meta) ending).1.cron_specs
        ≡ put_key (cron_key deleted) none ending.cron_specs)
deletion_leaves_example = deletion_leaves server deleted ending refl refl refl
