-- ===== src/Tests/RecordRuns.antt =====
-- The reconciliation of a record in the sample cluster.
use backup_operator.Base.{◌≡◌, refl, sym, ap, ok_value, pos, none, some, List, [], ◌∷◌, ok}
use backup_operator.Kube.{NamespacedName, Job}
use backup_operator.Api.{completed, BackupRecord}
use backup_operator.Controller.Reconcile.{CtrlResult, five_minutes}
use backup_operator.Records.Jobs.{
  with_completion, with_phase, job_selector, latest_job, check_backup_job_status, follow_job,
}
use backup_operator.Records.Jobs.Phases.{AnswersPhase, job_phase, check_backup_job_status_phase}
use backup_operator.Records.Reconcile.{finish_record, reconcile_backup_record, reconcile_record}
use backup_operator.Records.Reconcile.Runs.{RecordRun, reconcile_record_runs}
use backup_operator.Tests.Samples.{nightly, record_at, job_at}
use backup_operator.Tests.Cluster.{Cluster, cluster_of, test_client}

abbrev request : NamespacedName
request = record { name = "r"; namespace = "prod" }

abbrev later : CtrlResult
later = record { requeue_after = five_minutes }

-- Two jobs, of which the later succeeded.
abbrev start : Cluster
start = record (cluster_of nightly (record_at "r" (pos 5) ∷ [])) {
  jobs = job_at "a" (pos 1) (pos 0) (pos 1) ∷ job_at "b" (pos 3) (pos 1) (pos 0) ∷ [];
}

test_client-AnswersPhase : AnswersPhase test_client
test_client-AnswersPhase r r' w w' h = sym (ap (λ q. q.status.phase) (ok_value h))

abbrev checked : BackupRecord
checked = with_completion (pos 1000) (with_phase completed (record_at "r" (pos 5)))

check_ends :
    check_backup_job_status test_client (record_at "r" (pos 5)) start
    ≡ (ok checked, (check_backup_job_status test_client (record_at "r" (pos 5)) start).1)
unfolding check_backup_job_status latest_job follow_job
check_ends = refl

check_backup_job_status_phase_example :
    (jobs : List Job) × (v : Cluster) × (test_client.list_jobs "prod"
        (job_selector (record_at "r" (pos 5)))
        start
      ≡ (ok jobs, v))
    × (job : Job) × (latest_job none jobs ≡ some job)
    × (checked.status.phase ≡ job_phase job)
check_backup_job_status_phase_example =
    check_backup_job_status_phase test_client (record_at "r" (pos 5)) checked start
      (check_backup_job_status test_client (record_at "r" (pos 5)) start).1 test_client-AnswersPhase
      check_ends

record_ends :
    reconcile_record test_client request start
    ≡ (ok later, (reconcile_record test_client request start).1)
unfolding reconcile_record reconcile_backup_record check_backup_job_status latest_job follow_job
    finish_record
record_ends = refl

reconcile_record_runs_example :
    RecordRun test_client request start later (reconcile_record test_client request start).1
reconcile_record_runs_example =
    reconcile_record_runs test_client request later start
      (reconcile_record test_client request start).1 record_ends
