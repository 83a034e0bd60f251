-- ===== src/Webhook/Validate/Effects.antt =====
-- What the validation of a task leaves behind in the task.
use backup_operator.Base.{◌≡◌, none, map, All}
use backup_operator.Api.{BackupTask}
use backup_operator.Webhook.Targets.Ports.{
  fill_target, HasPort, validate_targets_fills, fill_targets-HasPort,
}
use backup_operator.Webhook.Validate.{validate_backup_task}
use backup_operator.Webhook.Validate.Accepts.{validate_backup_task_iff}

abbrev pub fill_task : BackupTask → BackupTask
fill_task t = record t { spec = record (t.spec) { targets = map fill_target t.spec.targets } }

-- Whatever its answer, validateBackupTask changes the task only by giving each database target
-- without a port the usual port of its kind: 3306 for mysql, 5432 for postgresql, 27017 for mongodb
-- and 6379 for redis. A database of another kind keeps having none.
pub validate_backup_task_fills : (t : BackupTask) → (validate_backup_task t).1 ≡ fill_task t
unfolding validate_backup_task
validate_backup_task_fills t = rw (validate_targets_fills 0 t.spec.targets)

-- In a task that passed, every database target has a port between 1 and 65535.
pub validated-HasPort :
    (t : BackupTask)
    → (validate_backup_task t).0 ≡ none
    → All HasPort (validate_backup_task t).1.spec.targets
validated-HasPort t h =
    rw (validate_backup_task_fills t)
      (fill_targets-HasPort t.spec.targets ((validate_backup_task_iff t).0 h).1.1.0)
