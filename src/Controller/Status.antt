-- ===== src/Controller/Status.antt =====
-- updateBackupTaskStatus and updateConditions of internal/controller/backuptask_controller.go, as
-- functions of the objects that are read and of the time.
pub mod Coherent
use backup_operator.Base.{
  ℤ, String, Bool, true, false, Option, none, some, List, [], ◌∷◌, if◌then◌else◌,
}
use backup_operator.Kube.{ObjectMeta, ObjectReference, Time, CronJob, CronJobStatus}
use backup_operator.Api.{
  BackupPhase, pending, running, completed, BackupTaskCondition, BackupTaskConditionType,
  scheduled_condition, running_condition, condition_true, condition_false, BackupTaskStatus,
  BackupTask,
}

abbrev pub is_suspended : Option Bool → Bool
is_suspended none = false
is_suspended (some b) = b

abbrev pub is_running : BackupPhase → Bool
is_running running = true
is_running _ = false

-- The phase, from `Spec.Suspend`, `Status.Active` and `Status.LastScheduleTime`.
unfoldable pub phase_of : Option Bool → List ObjectReference → Option Time → BackupPhase
phase_of suspend active last =
    if is_suspended suspend
    then pending
    else elim active [ _ ∷ _ ↦ running | [] ↦ elim last [ some t ↦ completed | none ↦ pending ] ]

abbrev pub scheduled_time : Option Time → Option Time → Option Time
scheduled_time (some t) old = some t
scheduled_time none old = old

abbrev pub active_job : String → List ObjectReference → Option ObjectReference
active_job namespace [] = none
active_job namespace (job ∷ jobs) = some (record {
  api_version = "batch/v1";
  kind = "Job";
  name = job.name;
  namespace = namespace;
  uid = "";
})

unfoldable pub scheduled_of : Time → Option Time → BackupTaskCondition
scheduled_of now none = record {
  type = scheduled_condition;
  status = condition_false;
  last_transition_time = now;
  reason = "NotScheduled";
  message = "Backup task has not been scheduled yet";
}
scheduled_of now (some t) = record {
  type = scheduled_condition;
  status = condition_true;
  last_transition_time = now;
  reason = "";
  message = "";
}

unfoldable pub running_of : Time → BackupPhase → BackupTaskCondition
running_of now phase =
    if is_running phase
    then record {
      type = running_condition;
      status = condition_true;
      last_transition_time = now;
      reason = "BackupInProgress";
      message = "Backup is currently running";
    }
    else record {
      type = running_condition;
      status = condition_false;
      last_transition_time = now;
      reason = "";
      message = "";
    }

unfoldable pub update_conditions : Time → BackupTaskStatus → BackupTaskStatus
unfolding scheduled_of running_of
update_conditions now status = record status {
  conditions = scheduled_of now status.last_scheduled_time ∷ running_of now status.phase ∷ [];
}

-- The status that updateBackupTaskStatus writes over that of the latest task.
unfoldable pub next_status : BackupTask → CronJob → Time → BackupTaskStatus → BackupTaskStatus
unfolding phase_of update_conditions
next_status task cron_job now latest = update_conditions now (record latest {
  observed_generation = task.meta.generation;
  phase = phase_of cron_job.spec.suspend cron_job.status.active cron_job.status.last_schedule_time;
  last_scheduled_time =
      scheduled_time cron_job.status.last_schedule_time latest.last_scheduled_time;
  active_backup_job = active_job cron_job.meta.namespace cron_job.status.active;
})
