-- ===== src/Tests/Removals.antt =====
-- The retention at a cluster that keeps records by their names.
use backup_operator.Base.{
  ℕ, zero, suc, List, get_elem?, arith, subst, ◌+ℤ◌, ◌<ℤ◌, ◌*◌, ◌≡◌, refl, sym, ap, ◌∙◌, ◌≢◌, pos,
  Bool, Bool-cases, true, false, inl, inr, Option, none, some, ok, if◌then◌else◌,
}
use backup_operator.Kube.{NamespacedName, key_of}
use backup_operator.Api.{RetentionPolicy, BackupRecord}
use backup_operator.Controller.Retention.{max_age_of, filter_records_to_delete, apply_policy}
use backup_operator.Controller.Retention.Choice.{IsDoomed}
use backup_operator.Controller.Retention.Ages.{max_age_exact}
use backup_operator.Controller.Retention.Spares.{DeletesRecords, with_history, apply_policy-spares}
use backup_operator.Controller.Retention.Removes.{DeletionsSucceed, apply_policy-removes}
use backup_operator.Client.{Client}
use backup_operator.Controller.Reconcile.{no_requeue, reconcile}
use backup_operator.Controller.Reconcile.Deletion.{IsDeleting}
use backup_operator.Controller.Reconcile.Cleanup.{UpdatesSucceed, reconcile-removes}
use backup_operator.Records.Store.{RecordStore}
use backup_operator.Tests.Cluster.{missing}
use backup_operator.Kube.Keys.{same_key, same_key-eq, same_key_refl}
use backup_operator.Tests.Samples.{nightly, deleted}
use backup_operator.Tests.Store.{
  Store, checked, drop_record, listed, store_client, none-not_some, store, key_of_a, both, b-not_a,
}

drop_elsewhere :
    (r : BackupRecord) (k : NamespacedName) (w : Store)
    → key_of r.meta ≢ k
    → checked k (drop_record r w k) ≡ checked k (w k)
drop_elsewhere r k w other = elim (Bool-cases (same_key (key_of r.meta) k)) [
  | inl same ↦ absurd (other (same_key-eq (key_of r.meta) k same))
  | inr differ ↦ rw differ refl
]

abbrev deletes : DeletesRecords store
deletes = record {
  list_records_keeps = λ namespace labels k w. refl;
  delete_elsewhere = drop_elsewhere;
}

abbrev keep_one : RetentionPolicy
keep_one = record { max_age_days = some (pos 7); max_backup_count = some (pos 1); keep_last = none }

some_value : {A : Type 0} {x y : A} → some x ≡ some y → x ≡ y
some_value h = cc

fresh : ¬ (pos 10 +ℤ max_age_of (pos 7) <ℤ pos 1000)
fresh h = late (rw (max_age_exact 7 (omega arith)) at h)
  where
    late : ¬ (pos 10 +ℤ pos (7 * 86400000000000) <ℤ pos 1000)
    late l = omega arith

-- The record `a` is the first of the list, and less than seven days old.
a-spared :
    (i : ℕ) (r : BackupRecord)
    → get_elem? listed i ≡ some r
    → key_of r.meta ≡ key_of_a
    → ¬ IsDoomed (pos 1000) keep_one i r
a-spared zero r here same (inl beyond) = omega arith
a-spared zero r here same (inr old) = fresh (
    subst (λ (x : BackupRecord). x.meta.creation_timestamp +ℤ max_age_of (pos 7) <ℤ pos 1000)
      (sym (some_value here)) old)
a-spared (suc zero) r here same doomed = b-not_a (ap (λ x. key_of x.meta) (some_value here) ∙ same)
a-spared (suc (suc i)) r here same doomed = none-not_some here

apply_policy-spares_example :
    store.stored (apply_policy store_client nightly keep_one both).1 key_of_a
    ≡ store.stored both key_of_a
apply_policy-spares_example =
    apply_policy-spares deletes nightly keep_one key_of_a both both listed refl tt a-spared

drop_here :
    (r : BackupRecord) (w : Store)
    → checked (key_of r.meta) (drop_record r w (key_of r.meta)) ≡ none
drop_here r w = rw (same_key_refl (key_of r.meta)) refl

still_none :
    (k : NamespacedName) (o : Option BackupRecord)
    → checked k o ≡ none
    → (b : Bool) → checked k (if b then none else o) ≡ none
still_none k o gone true = refl
still_none k o gone false = gone

abbrev deletions : DeletionsSucceed store
deletions = record {
  succeeds = λ r w. refl;
  removes = drop_here;
  restores_nothing = λ r k w gone. still_none k (w k) gone (same_key (key_of r.meta) k);
}

-- The record `b` is past the count and goes.
apply_policy-removes_example :
    ((doomed : List BackupRecord) × (filter_records_to_delete (pos 1000) listed keep_one
        ≡ ok doomed)
      × ((apply_policy store_client nightly keep_one both).0
          ≡ ok (with_history nightly listed doomed)))
    × ((i : ℕ) (r : BackupRecord)
        → get_elem? listed i ≡ some r
        → IsDoomed (pos 1000) keep_one i r
        → store.stored (apply_policy store_client nightly keep_one both).1 (key_of r.meta) ≡ none)
apply_policy-removes_example =
    apply_policy-removes deletions nightly keep_one both both listed refl tt

-- The same server with a task that is being deleted and has no CronJob.
abbrev ending_client : Client
ending_client = record store_client {
  get_task = λ k w. (ok deleted, w);
  update_task = λ t w. (ok t, w);
  contains_finalizer = λ fs f. true;
}

abbrev ending : RecordStore ending_client
ending = record {
  stored = store.stored;
  now_keeps = store.now_keeps;
  get_task_keeps = λ n k w. refl;
  list_jobs_keeps = store.list_jobs_keeps;
  list_pods_keeps = store.list_pods_keeps;
  get_record_keeps = store.get_record_keeps;
  get_record_reads = store.get_record_reads;
  update_elsewhere = store.update_elsewhere;
  update_stores = store.update_stores;
}

abbrev end_deletions : DeletionsSucceed ending
end_deletions = record {
  succeeds = deletions.succeeds;
  removes = deletions.removes;
  restores_nothing = deletions.restores_nothing;
}

abbrev end_updates : UpdatesSucceed ending_client ending
end_updates = record { updates = λ t w. (t, refl); keeps = λ t k w. refl }

deleted-IsDeleting : IsDeleting ending_client key_of_a both both deleted
deleted-IsDeleting = record { fetched = refl; deleted = refl; finalizer = refl }

reconcile-removes_example :
    ((reconcile ending_client key_of_a both).0 ≡ ok no_requeue)
    × ((i : ℕ) (r : BackupRecord)
        → get_elem? listed i ≡ some r
        → ending.stored (reconcile ending_client key_of_a both).1 (key_of r.meta) ≡ none)
reconcile-removes_example =
    reconcile-removes ending_client ending end_deletions end_updates key_of_a both both both both
      deleted listed deleted-IsDeleting (inr (missing, refl, refl)) refl
