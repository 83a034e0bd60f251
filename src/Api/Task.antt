-- ===== src/Api/Task.antt =====
-- backuptask_types.go: the BackupTask itself, its retention policy, hooks and status.
use backup_operator.Base.{ℤ, String, Option, List}
use backup_operator.Kube.{ObjectMeta, ObjectReference, PodSpec, ResourceRequirements, Time}
use backup_operator.Api.Targets.{BackupTarget}
use backup_operator.Api.Storage.{RemoteStorageSpec, EncryptionSpec}

pub data BackupPhase : Type 0 where
  unset pending running completed failed expired : BackupPhase
  other_phase : String → BackupPhase

pub record KeepLastPolicy : Type 0 where
  pub hours : ℤ
  pub days : ℤ
  pub weeks : ℤ
  pub months : ℤ

pub record RetentionPolicy : Type 0 where
  pub max_age_days : Option ℤ
  pub max_backup_count : Option ℤ
  pub keep_last : Option KeepLastPolicy

pub record PodTemplateSpec : Type 0 where
  pub metadata : Option ObjectMeta
  pub spec : Option PodSpec

pub record ExecHook : Type 0 where
  pub command : List String
  pub container : String

pub record HttpHeader : Type 0 where
  pub name : String
  pub value : String

pub record HttpHook : Type 0 where
  pub url : String
  pub method : String
  pub headers : List HttpHeader
  pub body : String

pub record HookSpec : Type 0 where
  pub type : String
  pub exec : Option ExecHook
  pub http : Option HttpHook
  pub timeout_seconds : Option ℤ

pub record BackupTaskSpec : Type 0 where
  pub schedule : String
  pub retention : Option RetentionPolicy
  pub targets : List BackupTarget
  pub remote_storage : RemoteStorageSpec
  pub encryption : Option EncryptionSpec
  pub pod_template : Option PodTemplateSpec
  pub post_backup_hooks : List HookSpec
  pub resources : Option ResourceRequirements
  pub backup_image : String
  pub backup_cmd : String

pub data BackupTaskConditionType : Type 0 where
  scheduled_condition running_condition completed_condition failed_condition
        retention_applied_condition :
      BackupTaskConditionType
  other_condition : String → BackupTaskConditionType

-- `corev1.ConditionStatus`, a text with three constants.
pub data ConditionStatus : Type 0 where
  condition_true condition_false condition_unknown : ConditionStatus
  other_status : String → ConditionStatus

pub record BackupTaskCondition : Type 0 where
  pub type : BackupTaskConditionType
  pub status : ConditionStatus
  pub last_transition_time : Time
  pub reason : String
  pub message : String

pub record BackupTaskStatus : Type 0 where
  pub observed_generation : ℤ
  pub phase : BackupPhase
  pub last_scheduled_time : Option Time
  pub last_successful_time : Option Time
  pub last_completion_time : Option Time
  pub active_backup_job : Option ObjectReference
  pub backup_history_count : ℤ
  pub conditions : List BackupTaskCondition
  pub next_schedule_time : Option Time

pub record BackupTask : Type 0 where
  pub meta : ObjectMeta
  pub spec : BackupTaskSpec
  pub status : BackupTaskStatus
