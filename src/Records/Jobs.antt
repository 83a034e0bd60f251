-- ===== src/Records/Jobs.antt =====
-- checkBackupJobStatus, updateBackupStatistics and getJobFailureReason of
-- controllers/backuprecord_controller.go. A function returns the record as it leaves it in memory.
pub mod Latest
pub mod Phases
use mathlib.Core.Option
use backup_operator.Base.{
  ℤ, pos, ltb_ℤ, ◌-ℤ◌, saturate64, String, ◌<>◌, Bool, true, false, not, Option, none, some, List,
  [], ◌∷◌, ◌==◌, itoa, Error, message, Action, pure, raise, crash, attempt, ◌>>=◌, ◌>>◌,
  if◌then◌else◌,
}
use backup_operator.Kube.{
  Labels, lookup, Time, ObjectMeta, ObjectReference, Job, Pod, ContainerStatus, ContainerTerminated,
}
use backup_operator.Api.{
  BackupPhase, running, completed, failed, BackupStatistics, BackupRecordSpec, BackupRecordStatus,
  BackupRecord,
}
use backup_operator.Client.{Client}
use backup_operator.Controller.Constants.{
  backup_task_label_key, backup_task_uid_label_key, backup_container_name,
}
use backup_operator.Controller.Retention.{read_clock, wrap_error}

abbrev pub is_completed : BackupPhase → Bool
is_completed completed = true
is_completed _ = false

abbrev pub is_failed : BackupPhase → Bool
is_failed failed = true
is_failed _ = false

-- The loop that keeps the job with the latest creation time, the first of several.
unfoldable pub latest_job : Option Job → List Job → Option Job
latest_job best [] = best
latest_job none (job ∷ jobs) = latest_job (some job) jobs
latest_job (some best) (job ∷ jobs) =
    latest_job
      (some (if ltb_ℤ best.meta.creation_timestamp job.meta.creation_timestamp then job else best))
      jobs

abbrev pub with_phase : BackupPhase → BackupRecord → BackupRecord
with_phase phase r = record r { status = record (r.status) { phase = phase } }

abbrev pub with_error : String → BackupRecord → BackupRecord
with_error text r = record r { status = record (r.status) { error = text } }

abbrev pub with_completion : Time → BackupRecord → BackupRecord
with_completion t r = record r { spec = record (r.spec) { completion_time = some t } }

abbrev pub statistics_or_new : Option BackupStatistics → BackupStatistics
statistics_or_new (some s) = s
statistics_or_new none = record {
  total_size = pos 0;
  file_count = pos 0;
  compression_ratio = "";
  duration_seconds = "";
}

abbrev pub with_duration : String → BackupRecord → BackupRecord
with_duration text r = record r {
  spec = record (r.spec) {
    statistics = some (record (statistics_or_new r.spec.statistics) { duration_seconds = text });
  };
}

abbrev pub termination_message : String → ContainerTerminated → String
termination_message name t =
    "Container "
    <> (name <> (" terminated with exit code " <> (itoa t.exit_code <> (": " <> t.message))))

-- `if containerStatus.State.Terminated != nil { … }`
abbrev pub with_failure : String → Option ContainerTerminated → BackupRecord → BackupRecord
with_failure name none r = r
with_failure name (some t) r = with_error (termination_message name t) r

-- The loop over the container statuses, which stops at the backup container.
unfoldable pub failure_reason : List ContainerStatus → BackupRecord → BackupRecord
failure_reason [] r = r
failure_reason (c ∷ cs) r =
    let rest = failure_reason cs r in
    if c.name == backup_container_name then with_failure c.name c.terminated r else rest

-- `labelSelector` of checkBackupJobStatus.
unfoldable pub job_selector : BackupRecord → Labels
job_selector r =
    (backup_task_label_key, r.spec.backup_task_ref.name)
    ∷ (backup_task_uid_label_key, r.spec.backup_task_ref.uid)
    ∷ []

module _ (C : Client) where
  abbrev pub head_pod : List Pod → Action C.World Pod
  head_pod [] = raise (message "no Pod found for Job")
  head_pod (pod ∷ pods) = pure pod

  -- `job.Spec.Selector` is dereferenced without a test.
  abbrev pub select_pod : Job → Option Labels → Action C.World Pod
  select_pod job none = crash "invalid memory address or nil pointer dereference"
  select_pod job (some selector) =
      wrap_error C "failed to list Pods" (C.list_pods job.meta.namespace selector) >>= head_pod

  -- The first pod of the job.
  unfoldable pub first_pod : Job → Action C.World Pod
  first_pod job = select_pod job job.selector

  -- The duration is noted if the pod has the annotation with its statistics.
  abbrev pub stamp_duration : BackupRecord → Option String → Action C.World BackupRecord
  stamp_duration r none = pure r
  stamp_duration r (some text) = do
    t ← read_clock C
    pure (with_duration (C.format_seconds (saturate64 (t -ℤ r.spec.start_time))) r)

  unfoldable pub update_backup_statistics : BackupRecord → Job → Action C.World BackupRecord
  update_backup_statistics r job = do
    pod ← first_pod job
    stamp_duration r (lookup "backup.mybackup.com/statistics" pod.meta.annotations)

  unfoldable pub get_job_failure_reason : BackupRecord → Job → Action C.World BackupRecord
  get_job_failure_reason r job = do
    pod ← first_pod job
    pure (failure_reason pod.container_statuses r)

  unfoldable pub succeed : BackupRecord → Job → Action C.World BackupRecord
  unfolding update_backup_statistics first_pod
  succeed r job = if is_completed r.status.phase then pure r else (do
    t ← read_clock C
    let done = with_completion t (with_phase completed r)
    r' ← attempt (update_backup_statistics done job) pure (λ _. pure done)
    C.update_record_status r')

  unfoldable pub fail_record : BackupRecord → Job → Action C.World BackupRecord
  unfolding get_job_failure_reason first_pod
  fail_record r job = if is_failed r.status.phase then pure r else (do
    let broken = with_error "Backup job failed" (with_phase failed r)
    r' ← attempt (get_job_failure_reason broken job) pure (λ _. pure broken)
    C.update_record_status r')

  -- What the latest job says.
  unfoldable pub follow_job : BackupRecord → Job → Action C.World BackupRecord
  unfolding succeed fail_record
  follow_job r job =
      if ltb_ℤ (pos 0) job.succeeded
      then succeed r job
      else if ltb_ℤ (pos 0) job.failed
      then fail_record r job
      else C.update_record_status (with_phase running r)

  unfoldable pub follow_latest : BackupRecord → Option Job → Action C.World BackupRecord
  follow_latest r none = raise (message "no backup job found for BackupRecord")
  follow_latest r (some job) = follow_job r job

  unfoldable pub check_backup_job_status : BackupRecord → Action C.World BackupRecord
  unfolding follow_latest
  check_backup_job_status r = do
    jobs ← wrap_error C "failed to list Jobs" (C.list_jobs r.meta.namespace (job_selector r))
    follow_latest r (latest_job none jobs)
