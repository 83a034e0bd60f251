-- ===== src/Records/Jobs/Phases.antt =====
-- The phase of a record against the state of its jobs.
use backup_operator.Base.{
  ◌≡◌, refl, ap, sym, ◌∙◌, ◌↔◌, inl, inr, eq_iff, ltb_ℤ, pos, String, ◌==◌, Bool-cases, true,
  Option, none, some, List, [], ◌∷◌, arith, Outcome, ok, Action, pure, attempt, ◌>>=◌, bound,
  caught, ok_value, fail_not_ok, if◌then◌else◌,
}
use Prim.Native.Char.{Char}
use backup_operator.Kube.{Job, ContainerStatus, ContainerTerminated, lookup, matches_labels}
use backup_operator.Api.{BackupTask, BackupPhase, completed, failed, running, BackupRecord}
use backup_operator.Client.{Client}
use backup_operator.Controller.Constants.{backup_container_name}
use backup_operator.Controller.CronJobs.{backup_labels, build_cron_job_spec}
use backup_operator.Controller.Retention.{wrap_error, wrap_error-ok}
use backup_operator.Records.Jobs.{
  latest_job, job_selector, is_completed, is_failed, with_phase, with_error, with_completion,
  succeed, fail_record, follow_job, check_backup_job_status, first_pod, failure_reason, first_pod,
  follow_latest, stamp_duration, with_failure, update_backup_statistics, get_job_failure_reason,
}

-- The jobs that the record controller looks for are those of the CronJob of its task: the selector
-- matches the labels of the jobs that the CronJob of a task makes exactly if the record names that
-- task and has its uid.
pub job_selector_iff :
    (upper : Char → Char) (r : BackupRecord) (task : BackupTask)
    → (matches_labels (job_selector r) (build_cron_job_spec upper task).job_template.labels ≡ true)
      ↔ ((task.meta.name ≡ r.spec.backup_task_ref.name)
          × (task.meta.uid ≡ r.spec.backup_task_ref.uid))
unfolding job_selector build_cron_job_spec backup_labels
job_selector_iff upper r task = ground (
  arith,
  eq_iff task.meta.name r.spec.backup_task_ref.name,
  eq_iff task.meta.uid r.spec.backup_task_ref.uid,
)

-- The phase that the state of a job stands for.
abbrev pub job_phase : Job → BackupPhase
job_phase job =
    if ltb_ℤ (pos 0) job.succeeded
    then completed
    else if ltb_ℤ (pos 0) job.failed
    then failed
    else running

module _ (C : Client) where
  -- The server answers a status update with the phase that was sent.
  abbrev pub AnswersPhase : Type 0
  AnswersPhase =
      (r r' : BackupRecord) (w w' : C.World)
      → C.update_record_status r w ≡ (ok r', w')
      → r'.status.phase ≡ r.status.phase

  is_completed_only : (p : BackupPhase) → is_completed p ≡ true → p ≡ completed
  is_completed_only p h = ground arith

  is_failed_only : (p : BackupPhase) → is_failed p ≡ true → p ≡ failed
  is_failed_only p h = ground arith

  same_phase :
      {r r' : BackupRecord} {w w' : C.World}
      → Path (Outcome BackupRecord × C.World) (ok r, w) (ok r', w')
      → r.status.phase ≡ r'.status.phase
  same_phase h = ap (λ q. q.status.phase) (ok_value h)

  stamp_keeps_phase :
      (r r' : BackupRecord) (text : Option String) (w w' : C.World)
      → stamp_duration C r text w ≡ (ok r', w')
      → r.status.phase ≡ r'.status.phase
  stamp_keeps_phase r r' none w w' h = same_phase h
  stamp_keeps_phase r r' (some x) w w' h = ap (λ q. q.status.phase) (ok_value h)

  statistics_keep_phase :
      (r r' : BackupRecord) (job : Job) (w w' : C.World)
      → update_backup_statistics C r job w ≡ (ok r', w')
      → r.status.phase ≡ r'.status.phase
  unfolding update_backup_statistics
  statistics_keep_phase r r' job w w' h =
      let b =
        bound (first_pod C job)
          (λ pod. stamp_duration C r (lookup "backup.mybackup.com/statistics" pod.meta.annotations))
          h in
      stamp_keeps_phase r r' _ b.middle w' b.second

  failure_keeps_phase :
      (n : String) (t : Option ContainerTerminated) (r : BackupRecord)
      → r.status.phase ≡ (with_failure n t r).status.phase
  failure_keeps_phase n none r = refl
  failure_keeps_phase n (some t) r = refl

  reason_keeps_phase :
      (cs : List ContainerStatus) (r : BackupRecord)
      → r.status.phase ≡ (failure_reason cs r).status.phase
  unfolding failure_reason
  reason_keeps_phase [] r = refl
  reason_keeps_phase (c ∷ cs) r = elim (Bool-cases (c.name == backup_container_name)) [
    | inl here ↦ rw here (failure_keeps_phase c.name c.terminated r)
    | inr there ↦ rw there (reason_keeps_phase cs r)
  ]

  job_reason_keeps_phase :
      (r r' : BackupRecord) (job : Job) (w w' : C.World)
      → get_job_failure_reason C r job w ≡ (ok r', w')
      → r.status.phase ≡ r'.status.phase
  unfolding get_job_failure_reason
  job_reason_keeps_phase r r' job w w' h =
      let b = bound (first_pod C job) (λ pod. pure (failure_reason pod.container_statuses r)) h in
      reason_keeps_phase b.value.container_statuses r ∙ same_phase b.second

  -- The best effort between the new phase and the update.
  abbrev try_to : Action C.World BackupRecord → BackupRecord → Action C.World BackupRecord
  try_to a r = attempt a pure (λ _. pure r)

  try_to_phase :
      (a : Action C.World BackupRecord) (r r' : BackupRecord) (w w' : C.World)
      → ((q : BackupRecord) (v : C.World) → a w ≡ (ok q, v) → r.status.phase ≡ q.status.phase)
      → try_to a r w ≡ (ok r', w')
      → r.status.phase ≡ r'.status.phase
  try_to_phase a r r' w w' keep h = elim (caught a pure (λ _. pure r) h) [
    | inl b ↦ keep b.value b.middle b.first ∙ ap (λ q. q.status.phase) (ok_value b.second)
    | inr c ↦ ap (λ q. q.status.phase) (ok_value c.second)
  ]

  -- A best effort that keeps the phase, and then the update.
  update_phase :
      (a : Action C.World BackupRecord) (r r' : BackupRecord) (w w' : C.World)
      → AnswersPhase
      → ((q : BackupRecord) (v : C.World) → a w ≡ (ok q, v) → r.status.phase ≡ q.status.phase)
      → (try_to a r >>= C.update_record_status) w ≡ (ok r', w')
      → r'.status.phase ≡ r.status.phase
  update_phase a r r' w w' answers keep h =
      let b = bound (try_to a r) C.update_record_status h in
      answers b.value r' b.middle w' b.second
      ∙ sym (try_to_phase a r b.value w b.middle keep b.first)

  succeed_phase :
      (r r' : BackupRecord) (job : Job) (w w' : C.World)
      → AnswersPhase
      → succeed C r job w ≡ (ok r', w')
      → r'.status.phase ≡ completed
  unfolding succeed
  succeed_phase r r' job w w' answers h = elim (Bool-cases (is_completed r.status.phase)) [
    | inl done ↦ sym (same_phase (rw done at h)) ∙ is_completed_only _ done
    | inr todo ↦
        let (t, v) = C.now w in
        let done = with_completion t (with_phase completed r) in
        update_phase (update_backup_statistics C done job) done r' v w' answers
          (λ q u. statistics_keep_phase done q job v u) (rw todo at h)
  ]

  fail_record_phase :
      (r r' : BackupRecord) (job : Job) (w w' : C.World)
      → AnswersPhase
      → fail_record C r job w ≡ (ok r', w')
      → r'.status.phase ≡ failed
  unfolding fail_record
  fail_record_phase r r' job w w' answers h = elim (Bool-cases (is_failed r.status.phase)) [
    | inl done ↦ sym (same_phase (rw done at h)) ∙ is_failed_only _ done
    | inr todo ↦
        let broken = with_error "Backup job failed" (with_phase failed r) in
        update_phase (get_job_failure_reason C broken job) broken r' w w' answers
          (λ q u. job_reason_keeps_phase broken q job w u) (rw todo at h)
  ]

  follow_job_phase :
      (r r' : BackupRecord) (job : Job) (w w' : C.World)
      → AnswersPhase
      → follow_job C r job w ≡ (ok r', w')
      → r'.status.phase ≡ job_phase job
  unfolding follow_job
  follow_job_phase r r' job w w' answers h = elim (Bool-cases (ltb_ℤ (pos 0) job.succeeded)) [
    | inl done ↦ rw done (succeed_phase r r' job w w' answers (rw done at h))
    | inr none_done ↦ elim (Bool-cases (ltb_ℤ (pos 0) job.failed)) [
      | inl broken ↦
          rw (none_done, broken)
            (fail_record_phase r r' job w w' answers (rw (none_done, broken) at h))
      | inr still ↦
          rw (none_done, still)
            (answers (with_phase running r) r' w w' (rw (none_done, still) at h))
    ]
  ]

  latest_phase :
      (r r' : BackupRecord) (found : Option Job) (w w' : C.World)
      → AnswersPhase
      → follow_latest C r found w ≡ (ok r', w')
      → (job : Job) × (found ≡ some job) × (r'.status.phase ≡ job_phase job)
  unfolding follow_latest
  latest_phase r r' none w w' answers h = absurd (fail_not_ok h)
  latest_phase r r' (some job) w w' answers h =
      (job, refl, follow_job_phase r r' job w w' answers h)

  -- If the server answers a status update with the phase that was sent, then a check of a record
  -- that ends without an error leaves it in the phase of the chosen job among those listed:
  -- completed if pods of it succeeded, otherwise failed if pods of it failed, otherwise running.
  pub check_backup_job_status_phase :
      (r r' : BackupRecord) (w w' : C.World)
      → AnswersPhase
      → check_backup_job_status C r w ≡ (ok r', w')
      → (jobs : List Job) × (v : C.World) × (C.list_jobs r.meta.namespace (job_selector r) w
          ≡ (ok jobs, v))
        × (job : Job) × (latest_job none jobs ≡ some job)
        × (r'.status.phase ≡ job_phase job)
  unfolding check_backup_job_status
  check_backup_job_status_phase r r' w w' answers h =
      let jobs_of = C.list_jobs r.meta.namespace (job_selector r) in
      let b =
        bound (wrap_error C "failed to list Jobs" jobs_of)
          (λ jobs. follow_latest C r (latest_job none jobs)) h in
      let (job, chosen, phase) =
        latest_phase r r' (latest_job none b.value) b.middle w' answers b.second in
      (
        b.value,
        b.middle,
        wrap_error-ok C "failed to list Jobs" jobs_of {w = w} b.first,
        job,
        chosen,
        phase,
      )
