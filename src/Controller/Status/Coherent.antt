-- ===== src/Controller/Status/Coherent.antt =====
-- The status that a reconciliation writes, against the CronJob it was read from.
use backup_operator.Base.{
  ◌≡◌, refl, ◌≢◌, ◌↔◌, String, Bool, true, false, not, Option, none, some, List, [], ◌∷◌, arith,
  map, is_none,
}
use backup_operator.Kube.{ObjectReference, Time, CronJob}
use backup_operator.Api.{
  BackupPhase, running, failed, BackupTaskConditionType, scheduled_condition, running_condition,
  BackupTaskStatus, BackupTask, ConditionStatus, condition_true, condition_false,
}
use backup_operator.Controller.Status.{
  is_suspended, is_running, phase_of, scheduled_time, active_job, scheduled_of, running_of,
  update_conditions, next_status,
}

-- The status of a condition that holds or does not.
abbrev pub condition_of : Bool → ConditionStatus
condition_of true = condition_true
condition_of false = condition_false

-- A reference to the first active job: a Job of its name, in the namespace of the CronJob.
pub record RefersTo (within : String) (job : ObjectReference) (ref : ObjectReference) : Type 0 where
  pub name : ref.name ≡ job.name
  pub namespace : ref.namespace ≡ within
  pub kind : ref.kind ≡ "Job"
  pub api_version : ref.api_version ≡ "batch/v1"

-- No reference if there is no active job, and one to the first if there is.
abbrev pub NamesActive : String → List ObjectReference → Option ObjectReference → Type 0
NamesActive namespace [] ref = ref ≡ none
NamesActive namespace (job ∷ jobs) ref =
    (r : ObjectReference) × (ref ≡ some r) × RefersTo namespace job r

-- A status whose parts agree with each other and with the CronJob; `before` is the status that is
-- replaced.
pub record IsCoherent (task : BackupTask) (job : CronJob) (before s : BackupTaskStatus)
    : Type 0 where
  pub observed : s.observed_generation ≡ task.meta.generation
  pub never_failed : s.phase ≢ failed
  pub runs :
      (s.phase ≡ running) ↔ ((is_suspended job.spec.suspend ≡ false) × (job.status.active ≢ []))
  pub conditions :
      map {B = BackupTaskConditionType × ConditionStatus} (λ c. (c.type, c.status)) s.conditions
      ≡ (scheduled_condition, condition_of (not (is_none s.last_scheduled_time)))
        ∷ (running_condition, condition_of (is_running s.phase))
        ∷ []
  pub active : NamesActive job.meta.namespace job.status.active s.active_backup_job
  -- The time of the last schedule is the CronJob's, or stays if the CronJob has none.
  pub scheduled :
      job.status.last_schedule_time ≢ none → s.last_scheduled_time ≡ job.status.last_schedule_time
  pub unscheduled :
      job.status.last_schedule_time ≡ none → s.last_scheduled_time ≡ before.last_scheduled_time

never_fails :
    (suspend : Option Bool) (active : List ObjectReference) (last : Option Time)
    → phase_of suspend active last ≢ failed
unfolding phase_of
never_fails suspend active last h = ground arith

running_iff :
    (suspend : Option Bool) (active : List ObjectReference) (last : Option Time)
    → (phase_of suspend active last ≡ running) ↔ ((is_suspended suspend ≡ false) × (active ≢ []))
unfolding phase_of
running_iff none [] none = ground arith
running_iff none [] (some t) = ground arith
running_iff none (a ∷ rest) last = ground arith
running_iff (some true) active last = ground arith
running_iff (some false) [] none = ground arith
running_iff (some false) [] (some t) = ground arith
running_iff (some false) (a ∷ rest) last = ground arith

active_job-NamesActive :
    (n : String) (active : List ObjectReference) → NamesActive n active (active_job n active)
active_job-NamesActive n [] = refl
active_job-NamesActive n (a ∷ rest) =
    (_, refl, record { name = refl; namespace = refl; kind = refl; api_version = refl })

scheduled_by : (now_at before : Option Time) → now_at ≢ none → scheduled_time now_at before ≡ now_at
scheduled_by none before h = absurd (h refl)
scheduled_by (some t) before h = refl

scheduled_pair :
    (now : Time) (last : Option Time)
    → Path
        (BackupTaskConditionType × ConditionStatus)
        ((scheduled_of now last).type, (scheduled_of now last).status)
        (scheduled_condition, condition_of (not (is_none last)))
unfolding scheduled_of
scheduled_pair now none = refl
scheduled_pair now (some t) = refl

running_pair :
    (now : Time) (p : BackupPhase)
    → Path
        (BackupTaskConditionType × ConditionStatus)
        ((running_of now p).type, (running_of now p).status)
        (running_condition, condition_of (is_running p))
unfolding running_of
running_pair now p = ground arith

-- The status that a reconciliation writes is of the task's generation and never failed. Its phase is
-- running exactly if the CronJob is not suspended and has an active job. It has two conditions: that
-- it was scheduled, true if it has a time of a last schedule, and that it runs, true if its phase is
-- running. It refers to the first active job of the CronJob by its name, in the namespace of the
-- CronJob, or to none if there is none. The time of the last schedule is the one of the CronJob, or
-- stays if the CronJob has none.
pub next_status-IsCoherent :
    (task : BackupTask) (job : CronJob) (now : Time) (latest : BackupTaskStatus)
    → IsCoherent task job latest (next_status task job now latest)
unfolding next_status update_conditions
next_status-IsCoherent task job now latest = record {
  observed = refl;
  never_failed = never_fails job.spec.suspend job.status.active job.status.last_schedule_time;
  runs = running_iff job.spec.suspend job.status.active job.status.last_schedule_time;
  conditions =
      rw
        (
          scheduled_pair now
              (scheduled_time job.status.last_schedule_time latest.last_scheduled_time),
          running_pair now
              (phase_of job.spec.suspend job.status.active job.status.last_schedule_time),
        )
        refl;
  active = active_job-NamesActive job.meta.namespace job.status.active;
  scheduled = scheduled_by job.status.last_schedule_time latest.last_scheduled_time;
  unscheduled = λ none_yet. rw none_yet refl;
}
