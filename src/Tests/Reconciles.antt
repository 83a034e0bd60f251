-- ===== src/Tests/Reconciles.antt =====
-- The reconciliation of tasks in the sample cluster.
use backup_operator.Base.{◌≡◌, refl, wrap64, pos, [], ◌∷◌, ok}
use backup_operator.Kube.{NamespacedName}
use backup_operator.Controller.Reconcile.{
  CtrlResult, no_requeue, five_minutes, reconcile, reconcile_present, reconcile_deletion,
  create_target_config_map, reconcile_backup_task, create_or_update_cron_job,
  update_backup_task_status, finalize_backup_task,
}
use backup_operator.Controller.Retention.{
  apply_retention_policy, filter_records_to_delete, max_age_of, delete_records,
}
use backup_operator.Controller.Reconcile.Present.{IsPresent, IsReconciled, reconcile_order}
use backup_operator.Controller.Reconcile.Deletion.{IsDeleting, IsDeleted, deletion_order}
use backup_operator.Tests.Samples.{nightly, deleted, record_at}
use backup_operator.Tests.Cluster.{Cluster, cluster_of, test_client}

abbrev request : NamespacedName
request = record { name = "nightly"; namespace = "prod" }

abbrev later : CtrlResult
later = record { requeue_after = five_minutes }

abbrev start : Cluster
start =
    cluster_of nightly
      (record_at "a" (pos 10) ∷ record_at "b" (pos 20) ∷ record_at "c" (pos 30) ∷ [])

nightly-IsPresent : IsPresent test_client request start start nightly
nightly-IsPresent = record { fetched = refl; kept = refl }

-- The reconciliation of the nightly task ends, and asks for the next after five minutes.
nightly_ends :
    reconcile test_client request start ≡ (ok later, (reconcile test_client request start).1)
unfolding reconcile reconcile_present create_target_config_map reconcile_backup_task
    create_or_update_cron_job update_backup_task_status apply_retention_policy
    filter_records_to_delete max_age_of wrap64 delete_records
nightly_ends = refl

reconcile_order_example :
    IsReconciled test_client nightly later start (reconcile test_client request start).1
reconcile_order_example =
    reconcile_order test_client request start start (reconcile test_client request start).1 nightly
      later nightly-IsPresent nightly_ends

abbrev dying : Cluster
dying = cluster_of deleted (record_at "a" (pos 10) ∷ [])

deleted-IsDeleting : IsDeleting test_client request dying dying deleted
deleted-IsDeleting = record { fetched = refl; deleted = refl; finalizer = refl }

deleted_ends :
    reconcile test_client request dying ≡ (ok no_requeue, (reconcile test_client request dying).1)
unfolding reconcile reconcile_deletion finalize_backup_task delete_records
deleted_ends = refl

deletion_order_example : IsDeleted test_client deleted dying (reconcile test_client request dying).1
deletion_order_example =
    deletion_order test_client request dying dying (reconcile test_client request dying).1 deleted
      no_requeue deleted-IsDeleting deleted_ends
