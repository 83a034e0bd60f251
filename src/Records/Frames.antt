-- ===== src/Records/Frames.antt =====
-- The record controller changes no record but the one that it reconciles.
use backup_operator.Base.{
  ◌≡◌, refl, sym, ◌∙◌, String, Bool, Bool-cases, true, false, inl, inr, ◌&&◌, pos, ltb_ℤ, ℤ, ◌-ℤ◌,
  saturate64, ◌+ℤ◌, ◌==◌, is_none, Option, none, some, List, [], ◌∷◌, message, is_not_found,
  wrapped, Action, pure, attempt, ◌>>=◌, if◌then◌else◌, ap,
}
use backup_operator.Kube.{
  NamespacedName, Labels, key_of, Job, Pod, ContainerStatus, ContainerTerminated, lookup,
}
use backup_operator.Api.{BackupTask, BackupRecord, completed, failed, running, expired}
use backup_operator.Client.{Client}
use backup_operator.Controller.Constants.{backup_container_name}
use backup_operator.Controller.Retention.{max_age_of}
use backup_operator.Controller.Reconcile.{no_requeue, half_minute, five_minutes}
use backup_operator.Records.Jobs.{
  is_completed, is_failed, latest_job, with_phase, with_error, with_failure, failure_reason,
  with_completion, with_duration, job_selector, head_pod, select_pod, first_pod, stamp_duration,
  update_backup_statistics, get_job_failure_reason, succeed, fail_record, follow_job, follow_latest,
  check_backup_job_status,
}
use backup_operator.Records.Reconcile.{
  max_age_days_of, expire_after, with_expiration, is_pending, with_verification, verdict,
  verify_backup, expire, set_expiration, verify, finish_record, reconcile_backup_record,
}
use backup_operator.Records.Store.{
  RecordStore, Frames, Anything, IsOther, attempt-Frames, bind-Frames, pure-Frames, raise-Frames,
  crash-Frames, call-Frames, read_clock-Frames, wrap_error-Frames, update-Frames,
}

with_failure-meta :
    (n : String) (t : Option ContainerTerminated) (r : BackupRecord)
    → (with_failure n t r).meta ≡ r.meta
with_failure-meta n none r = refl
with_failure-meta n (some t) r = refl

module _ {C : Client} (S : RecordStore C) (k : NamespacedName) where
  -- A call under a test.
  pub if-Frames :
      {A : Type 0} {Q : A → Type 0} {a b : Action C.World A} (test : Bool)
      → Frames S k Q a
      → Frames S k Q b
      → Frames S k Q (if test then a else b)
  if-Frames true x y = x
  if-Frames false x y = y

  head_pod-Frames : (pods : List Pod) → Frames S k Anything (head_pod C pods)
  head_pod-Frames [] = raise-Frames S k (message "no Pod found for Job")
  head_pod-Frames (pod ∷ pods) = pure-Frames S k pod tt

  select_pod-Frames :
      (job : Job) (selector : Option Labels) → Frames S k Anything (select_pod C job selector)
  select_pod-Frames job none = crash-Frames S k "invalid memory address or nil pointer dereference"
  select_pod-Frames job (some selector) =
      bind-Frames S k
        (wrap_error-Frames S k "failed to list Pods"
          (call-Frames S k (S.list_pods_keeps job.meta.namespace selector k)))
        (λ pods p. head_pod-Frames pods)

  stamp-Frames :
      (r : BackupRecord) (text : Option String)
      → IsOther S k r
      → Frames S k (IsOther S k) (stamp_duration C r text)
  stamp-Frames r none other = pure-Frames S k r other
  stamp-Frames r (some text) other = bind-Frames S k (read_clock-Frames S k) (λ t p.
      pure-Frames S k (with_duration (C.format_seconds (saturate64 (t -ℤ r.spec.start_time))) r)
        other)

  statistics-Frames :
      (r : BackupRecord) (job : Job)
      → IsOther S k r
      → Frames S k (IsOther S k) (update_backup_statistics C r job)
  unfolding update_backup_statistics first_pod
  statistics-Frames r job other =
      bind-Frames S k (select_pod-Frames job job.selector) (λ pod p.
        stamp-Frames r (lookup "backup.mybackup.com/statistics" pod.meta.annotations) other)

  -- The failure reason is noted in the same record.
  failure_reason-meta :
      (cs : List ContainerStatus) (r : BackupRecord) → (failure_reason cs r).meta ≡ r.meta
  unfolding failure_reason
  failure_reason-meta [] r = refl
  failure_reason-meta (c ∷ cs) r = elim (Bool-cases (c.name == backup_container_name)) [
    | inl here ↦ rw here (with_failure-meta c.name c.terminated r)
    | inr there ↦ rw there (failure_reason-meta cs r)
  ]

  reason-Frames :
      (r : BackupRecord) (job : Job)
      → IsOther S k r
      → Frames S k (IsOther S k) (get_job_failure_reason C r job)
  unfolding get_job_failure_reason first_pod
  reason-Frames r job other = bind-Frames S k (select_pod-Frames job job.selector) (λ pod p.
      pure-Frames S k (failure_reason pod.container_statuses r)
        (λ same. other (sym (ap key_of (failure_reason-meta pod.container_statuses r)) ∙ same)))

  -- A best effort on a record, and then its update.
  try-Frames :
      (a : Action C.World BackupRecord) (r : BackupRecord)
      → Frames S k (IsOther S k) a
      → IsOther S k r
      → Frames S k (IsOther S k) (attempt a pure (λ _. pure r) >>= C.update_record_status)
  try-Frames a r first other =
      bind-Frames S k
        (attempt-Frames S k first (λ x p. pure-Frames S k x p) (λ e. pure-Frames S k r other))
        (λ x p. update-Frames S k x p)

  succeed-Frames :
      (r : BackupRecord) (job : Job) → IsOther S k r → Frames S k (IsOther S k) (succeed C r job)
  unfolding succeed
  succeed-Frames r job other = if-Frames (is_completed r.status.phase) (pure-Frames S k r other) (
      bind-Frames S k (read_clock-Frames S k) (λ t p.
        let done = with_completion t (with_phase completed r) in
        try-Frames (update_backup_statistics C done job) done (statistics-Frames done job other)
          other))

  fail_record-Frames :
      (r : BackupRecord) (job : Job)
      → IsOther S k r
      → Frames S k (IsOther S k) (fail_record C r job)
  unfolding fail_record
  fail_record-Frames r job other =
      let broken = with_error "Backup job failed" (with_phase failed r) in
      if-Frames (is_failed r.status.phase) (pure-Frames S k r other) (
        try-Frames (get_job_failure_reason C broken job) broken (reason-Frames broken job other)
          other)

  follow_job-Frames :
      (r : BackupRecord) (job : Job) → IsOther S k r → Frames S k (IsOther S k) (follow_job C r job)
  unfolding follow_job
  follow_job-Frames r job other =
      if-Frames (ltb_ℤ (pos 0) job.succeeded) (succeed-Frames r job other) (
        if-Frames (ltb_ℤ (pos 0) job.failed) (fail_record-Frames r job other)
          (update-Frames S k (with_phase running r) other))

  follow_latest-Frames :
      (r : BackupRecord) (job : Option Job)
      → IsOther S k r
      → Frames S k (IsOther S k) (follow_latest C r job)
  unfolding follow_latest
  follow_latest-Frames r none other =
      raise-Frames S k (message "no backup job found for BackupRecord")
  follow_latest-Frames r (some job) other = follow_job-Frames r job other

  check-Frames :
      (r : BackupRecord) → IsOther S k r → Frames S k (IsOther S k) (check_backup_job_status C r)
  unfolding check_backup_job_status
  check-Frames r other =
      bind-Frames S k
        (wrap_error-Frames S k "failed to list Jobs"
          (call-Frames S k (S.list_jobs_keeps r.meta.namespace (job_selector r) k)))
        (λ jobs p. follow_latest-Frames r (latest_job none jobs) other)

  expire_after-Frames :
      (days : Option ℤ) (r : BackupRecord)
      → IsOther S k r
      → Frames S k (IsOther S k) (expire_after C days r)
  expire_after-Frames none r other = pure-Frames S k r other
  expire_after-Frames (some days) r other =
      if-Frames (is_completed r.status.phase && is_none r.status.expiration_time)
        (update-Frames S k (with_expiration (r.spec.start_time +ℤ max_age_of days) r) other)
        (pure-Frames S k r other)

  verify-Frames : (r : BackupRecord) → IsOther S k r → Frames S k (IsOther S k) (verify C r)
  unfolding verify
  verify-Frames r other =
      if-Frames (is_completed r.status.phase && is_pending r.status.verification_status.result)
        (bind-Frames S k (read_clock-Frames S k)
          (λ t p. update-Frames S k (with_verification (verdict t (verify_backup r)) r) other))
        (pure-Frames S k r other)

  finish_record-Frames :
      (task : BackupTask) (r : BackupRecord)
      → IsOther S k r
      → Frames S k Anything (finish_record C task r)
  unfolding finish_record set_expiration
  finish_record-Frames task r other =
      bind-Frames S k (expire_after-Frames (max_age_days_of task.spec.retention) r other) (λ r' p.
        bind-Frames S k (verify-Frames r' p)
          (λ z q. pure-Frames S k (record { requeue_after = five_minutes }) tt))

  expire-Frames : (r : BackupRecord) → IsOther S k r → Frames S k Anything (expire C r)
  unfolding expire
  expire-Frames r other =
      bind-Frames S k
        (update-Frames S k
          (with_error "Associated BackupTask no longer exists" (with_phase expired r)) other)
        (λ x p. pure-Frames S k no_requeue tt)

  pub reconcile_backup_record-Frames :
      (r : BackupRecord) → IsOther S k r → Frames S k Anything (reconcile_backup_record C r)
  unfolding reconcile_backup_record
  reconcile_backup_record-Frames r other =
      attempt-Frames S k
        (call-Frames S k
          {a = C.get_task
            (record { name = r.spec.backup_task_ref.name; namespace = r.meta.namespace })}
          (S.get_task_keeps
            (record { name = r.spec.backup_task_ref.name; namespace = r.meta.namespace }) k))
        (λ task p.
          attempt-Frames S k (check-Frames r other) (λ x q. finish_record-Frames task x q)
            (λ e. pure-Frames S k (record { requeue_after = half_minute }) tt))
        (λ e.
          if-Frames (is_not_found e) (expire-Frames r other)
            (raise-Frames S k (wrapped "failed to get BackupTask" e)))
