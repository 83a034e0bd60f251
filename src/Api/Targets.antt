-- ===== src/Api/Targets.antt =====
-- backuptask_types.go: what a task backs up. A named string type is a data type with its constants
-- and `other_…` for any other text; a pointer is an `Option`; an `int32` is an integer.
use backup_operator.Base.{ℤ, String, Bool, Option, List}
use backup_operator.Kube.{SecretReference, TypedLocalObjectReference, LabelSelector}

pub data BackupTargetType : Type 0 where
  config database directory nfs : BackupTargetType
  other_target : String → BackupTargetType

pub record DatabaseBackupSpec : Type 0 where
  pub type : String
  pub host : String
  pub port : Option ℤ
  pub database : String
  pub auth_secret_ref : SecretReference
  pub extra_args : List String
  pub enable_pitr : Bool

pub record ConfigBackupSpec : Type 0 where
  pub include_namespaces : List String
  pub exclude_namespaces : List String
  pub resource_types : List String
  pub label_selector : Option LabelSelector

pub record DirectoryPath : Type 0 where
  pub path : String
  pub pvc_ref : Option TypedLocalObjectReference
  pub sub_path : String

pub record DirectoryBackupSpec : Type 0 where
  pub paths : List DirectoryPath
  pub exclude_patterns : List String
  pub compression_level : Option ℤ

pub record NfsBackupSpec : Type 0 where
  pub server : String
  pub path : String
  pub mount_options : List String
  pub sub_path : String

pub record BackupTarget : Type 0 where
  pub name : String
  pub type : BackupTargetType
  pub database : Option DatabaseBackupSpec
  pub config : Option ConfigBackupSpec
  pub directory : Option DirectoryBackupSpec
  pub nfs : Option NfsBackupSpec
