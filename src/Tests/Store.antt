-- ===== src/Tests/Store.antt =====
-- A cluster that keeps records by their names, and the life of a record in it.
use backup_operator.Base.{
  List, [], ◌∷◌, ◌≡◌, refl, sym, ap, ◌∙◌, ◌==◌, ◌≢◌, pos, Bool-cases, true, false, inl, inr, Option,
  none, some, ok, fail, ok_value, ok_world, if◌then◌else◌,
}
use backup_operator.Kube.{NamespacedName, key_of}
use backup_operator.Api.{BackupRecord, completed}
use backup_operator.Client.{Client}
use backup_operator.Records.Jobs.{with_phase}
use backup_operator.Records.Reconcile.{reconcile_record}
use backup_operator.Records.Store.{RecordStore}
use backup_operator.Records.Lifecycle.{Runs, stop, run, settled_forever}
use backup_operator.Kube.Keys.{same_key, same_key-eq, same_key_refl}
use backup_operator.Tests.Samples.{record_at}
use backup_operator.Tests.Cluster.{found, missing, kube_json}

abbrev pub Store : Type 0
Store = NamespacedName → Option BackupRecord

-- A record is found under its own name only.
abbrev pub checked : NamespacedName → Option BackupRecord → Option BackupRecord
checked k none = none
checked k (some r) = if same_key (key_of r.meta) k then some r else none

abbrev pub put : BackupRecord → Store → Store
put r w k = if same_key (key_of r.meta) k then some r else w k

abbrev pub drop_record : BackupRecord → Store → Store
drop_record r w k = if same_key (key_of r.meta) k then none else w k

-- The records that the server lists.
abbrev pub listed : List BackupRecord
listed = record_at "a" (pos 10) ∷ record_at "b" (pos 20) ∷ []

-- A server without tasks, jobs or pods.
abbrev pub store_client : Client
store_client = record {
  World = Store;
  now = λ w. (pos 1000, w);
  get_task = λ k w. (fail missing, w);
  update_task = λ t w. (fail missing, w);
  update_task_status = λ t w. (fail missing, w);
  create_config_map = λ c w. (fail missing, w);
  update_config_map = λ c w. (fail missing, w);
  create_or_update_cron_job = λ job mutate w. (fail missing, w);
  delete_cron_job = λ k w. (fail missing, w);
  list_records = λ namespace labels w. (ok listed, w);
  list_jobs = λ namespace labels w. (fail missing, w);
  list_pods = λ namespace labels w. (fail missing, w);
  get_record = λ k w. found (checked k (w k)) w;
  update_record_status = λ r w. (ok r, put r w);
  delete_record = λ r w. (ok tt, drop_record r w);
  recorder = none;
  set_controller_reference = λ task job. ok job;
  contains_finalizer = λ fs f. false;
  add_finalizer = λ fs f. fs;
  remove_finalizer = λ fs f. fs;
  json = kube_json;
  upper = λ c. c;
  format_seconds = λ d. "";
}

pub found_keeps : {A : Type 0} (o : Option A) (w : Store) → (found o w).1 ≡ w
found_keeps none w = refl
found_keeps (some a) w = refl

pub found_reads :
    {A : Type 0} (o : Option A) (w w' : Store) (a : A) → found o w ≡ (ok a, w') → o ≡ some a
found_reads none w w' a h = cc
found_reads (some b) w w' a h = ap some (ok_value h)

pub none-not_some : {A : Type 0} {B : Type 0} {x : A} → Path (Option A) none (some x) → B
none-not_some h = absurd (no h)
  where
    no : {A : Type 0} {x : A} → ¬ (Path (Option A) none (some x))
    no h = cc

pub checked_named :
    (k : NamespacedName) (o : Option BackupRecord) (r : BackupRecord)
    → checked k o ≡ some r
    → key_of r.meta ≡ k
checked_named k none r h = absurd cc
checked_named k (some x) r h = elim (Bool-cases (same_key (key_of x.meta) k)) [
  | inl same ↦
      let shown : some x ≡ some r = rw same at h in
      let value : x ≡ r = cc in
      sym (ap (λ y. key_of y.meta) value) ∙ same_key-eq (key_of x.meta) k same
  | inr differ ↦ none-not_some (rw differ at h)
]

pub put_elsewhere :
    (r : BackupRecord) (k : NamespacedName) (w : Store)
    → key_of r.meta ≢ k
    → checked k (put r w k) ≡ checked k (w k)
put_elsewhere r k w other = elim (Bool-cases (same_key (key_of r.meta) k)) [
  | inl same ↦ absurd (other (same_key-eq (key_of r.meta) k same))
  | inr differ ↦ rw differ refl
]

pub put_here :
    (r : BackupRecord) (w : Store) → checked (key_of r.meta) (put r w (key_of r.meta)) ≡ some r
put_here r w = rw (same_key_refl (key_of r.meta)) (rw (same_key_refl (key_of r.meta)) refl)

abbrev pub store : RecordStore store_client
store = record {
  stored = λ w k. checked k (w k);
  now_keeps = λ k w. refl;
  get_task_keeps = λ n k w. refl;
  list_jobs_keeps = λ namespace labels k w. refl;
  list_pods_keeps = λ namespace labels k w. refl;
  get_record_keeps = λ n k w. ap (λ v. checked k (v k)) (found_keeps (checked n (w n)) w);
  get_record_reads = λ n w w' r h.
      let here = found_reads (checked n (w n)) w w' r h in (here, checked_named n (w n) r here);
  update_elsewhere = put_elsewhere;
  update_stores = λ r r' w w' h. (
    ap (λ v. checked (key_of r.meta) (v (key_of r.meta))) (sym (ok_world h))
        ∙ put_here r w
        ∙ ap some (ok_value h),
    ap (λ x. key_of x.meta) (sym (ok_value h)),
    ap (λ x. x.status.phase) (sym (ok_value h)),
  );
}

abbrev pub key_of_a : NamespacedName
key_of_a = key_of (record_at "a" (pos 10)).meta

abbrev pub key_of_b : NamespacedName
key_of_b = key_of (record_at "b" (pos 20)).meta

abbrev pub finished : BackupRecord
finished = with_phase completed (record_at "a" (pos 10))

-- The finished record `a`, and `b` whose task is gone.
abbrev pub both : Store
both = put finished (put (record_at "b" (pos 20)) (λ k. none))

abbrev pub only_b : Store
only_b = put (record_at "b" (pos 20)) (λ k. none)

false-not_true : ¬ (false ≡ true)
false-not_true e = cc

pub b-not_a : key_of_b ≢ key_of_a
b-not_a h = false-not_true (ap (λ k. k.name == "a") h)

-- A run for `b`, and then one for `a`.
two-Runs :
    Runs store key_of_a both
      (reconcile_record store_client key_of_a (reconcile_record store_client key_of_b both).1).1
two-Runs = run key_of_b (run key_of_a stop)

settled_forever_example :
    store.stored
      (reconcile_record store_client key_of_a (reconcile_record store_client key_of_b both).1).1
      key_of_a
    ≡ some finished
settled_forever_example =
    settled_forever store key_of_a both
      (reconcile_record store_client key_of_a (reconcile_record store_client key_of_b both).1).1
      finished refl refl two-Runs
