-- ===== src/Api/Backups.antt =====
-- backuprecord_types.go: the BackupRecord, one run of a task.
use backup_operator.Base.{ℤ, String, Option, List}
use backup_operator.Kube.{ObjectMeta, ObjectReference, Labels, Time}
use backup_operator.Api.Storage.{RemoteStorageType}
use backup_operator.Api.Task.{BackupPhase}

pub record BackupFileInfo : Type 0 where
  pub path : String
  pub size : ℤ
  pub checksum : String
  pub storage_type : RemoteStorageType

pub record BackupStatistics : Type 0 where
  pub total_size : ℤ
  pub file_count : ℤ
  pub compression_ratio : String
  pub duration_seconds : String

pub record BackupRecordSpec : Type 0 where
  pub backup_task_ref : ObjectReference
  pub start_time : Time
  pub completion_time : Option Time
  pub backup_files : List BackupFileInfo
  pub statistics : Option BackupStatistics
  pub labels : Labels

pub data VerificationResult : Type 0 where
  unset_result pending_result success_result failed_result skipped_result : VerificationResult
  other_result : String → VerificationResult

pub record VerificationStatus : Type 0 where
  pub verified_at : Option Time
  pub result : VerificationResult
  pub message : String

pub record BackupRecordStatus : Type 0 where
  pub phase : BackupPhase
  pub error : String
  pub verification_status : VerificationStatus
  pub expiration_time : Option Time

pub record BackupRecord : Type 0 where
  pub meta : ObjectMeta
  pub spec : BackupRecordSpec
  pub status : BackupRecordStatus
