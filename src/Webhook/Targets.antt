-- ===== src/Webhook/Targets.antt =====
-- The validators of backup targets in api/v1alpha1/backuptask_webhook.go. Each returns the errors
-- that it appends; the validation of a database target also fills in its port, so the validators
-- of databases and of targets return the object as they leave it.
pub mod Accepts
pub mod Ports
use backup_operator.Base.{
  ℕ, suc, ◌+◌, ℤ, pos, ltb_ℤ, String, Bool, true, false, ◌&&◌, ◌||◌, not, Option, none, some, List,
  [], ◌∷◌, ◌++◌, ◌==◌, if◌then◌else◌, is_empty,
}
use backup_operator.Api.{
  BackupTargetType, database, config, directory, nfs, other_target, DatabaseBackupSpec,
  DirectoryPath, DirectoryBackupSpec, NfsBackupSpec, BackupTarget, RemoteStorageType,
  RemoteStorageSpec, S3StorageSpec, SftpStorageSpec, NfsStorageSpec, SmbStorageSpec, EncryptionSpec,
  BackupTask,
}
use backup_operator.Webhook.Cron.{is_valid_cron_schedule}
use backup_operator.Webhook.Errors.{
  FieldPath, key, child, at_index, text, number, FieldError, required, invalid, AdmissionError,
  invalid_object, report, require_text, is_nil,
}

-- The `switch spec.Type` that sets the default port.
unfoldable pub default_port : String → Option ℤ
default_port type =
    if type == "mysql"
    then some (pos 3306)
    else if type == "postgresql"
    then some (pos 5432)
    else if type == "mongodb"
    then some (pos 27017)
    else if type == "redis"
    then some (pos 6379)
    else none

unfoldable pub validate_port : FieldPath → DatabaseBackupSpec → List FieldError × DatabaseBackupSpec
validate_port path spec = elim spec.port [
  | none ↦ elim (default_port spec.type) [
    | none ↦ (required (child path "port") "database port is required" ∷ [], spec)
    | some port ↦ ([], record spec { port = some port })
  ]
  | some port ↦ (
    report (ltb_ℤ port (pos 1) || ltb_ℤ (pos 65535) port)
        (invalid (child path "port") (number port) "port must be between 1 and 65535"),
    spec,
  )
]

unfoldable pub validate_database_spec :
    FieldPath → DatabaseBackupSpec → List FieldError × DatabaseBackupSpec
validate_database_spec path spec =
    let (errors, spec') = validate_port path spec in
    (
      require_text spec.host (child path "host") "database host is required"
          ++ (errors
              ++ require_text spec.auth_secret_ref.name (child (child path "authSecretRef") "name")
                  "auth secret name is required"),
      spec',
    )

-- The loop over `spec.Paths`, from index `i`.
unfoldable pub validate_paths : FieldPath → ℕ → List DirectoryPath → List FieldError
validate_paths path i [] = []
validate_paths path i (dir_path ∷ paths) =
    require_text dir_path.path (child (at_index (child path "paths") i) "path")
      "directory path is required"
    ++ validate_paths path (i + 1) paths

unfoldable pub validate_compression : FieldPath → Option ℤ → List FieldError
validate_compression path none = []
validate_compression path (some level) = report (ltb_ℤ level (pos 0) || ltb_ℤ (pos 9) level) (
    invalid (child path "compressionLevel") (number level)
      "compression level must be between 0 and 9")

unfoldable pub validate_directory_spec : FieldPath → DirectoryBackupSpec → List FieldError
validate_directory_spec path spec =
    report (is_nil spec.paths)
      (required (child path "paths") "at least one directory path is required")
    ++ (validate_paths path 0 spec.paths ++ validate_compression path spec.compression_level)

unfoldable pub validate_nfs_spec : FieldPath → NfsBackupSpec → List FieldError
validate_nfs_spec path spec =
    require_text spec.server (child path "server") "nfs server is required"
    ++ require_text spec.path (child path "path") "nfs path is required"

-- The database case of the `switch target.Type`; the pointer is shared with the task.
unfoldable pub validate_database_target :
    FieldPath → BackupTarget → Option DatabaseBackupSpec → List FieldError × BackupTarget
validate_database_target path target none = (
  required (child path "database") "database configuration is required for database backup" ∷ [],
  target,
)
validate_database_target path target (some spec) =
    let (errors, spec') = validate_database_spec (child path "database") spec in
    (errors, record target { database = some spec' })

unfoldable pub validate_config_target : FieldPath → BackupTarget → List FieldError
validate_config_target path target = elim target.config [
  | none ↦ required (child path "config") "config configuration is required for config backup" ∷ []
  | some spec ↦ []
]

unfoldable pub validate_directory_target : FieldPath → BackupTarget → List FieldError
validate_directory_target path target = elim target.directory [
  | none ↦
      required (child path "directory") "directory configuration is required for directory backup"
      ∷ []
  | some spec ↦ validate_directory_spec (child path "directory") spec
]

unfoldable pub validate_nfs_target : FieldPath → BackupTarget → List FieldError
validate_nfs_target path target = elim target.nfs [
  | none ↦ required (child path "nfs") "nfs configuration is required for nfs backup" ∷ []
  | some spec ↦ validate_nfs_spec (child path "nfs") spec
]

-- The `switch target.Type`.
unfoldable pub validate_target_of :
    BackupTargetType → FieldPath → BackupTarget → List FieldError × BackupTarget
validate_target_of database path target = validate_database_target path target target.database
validate_target_of config path target = (validate_config_target path target, target)
validate_target_of directory path target = (validate_directory_target path target, target)
validate_target_of nfs path target = (validate_nfs_target path target, target)
validate_target_of (other_target name) path target = ([], target)

unfoldable pub validate_target : FieldPath → BackupTarget → List FieldError × BackupTarget
validate_target path target =
    let (errors, target') = validate_target_of target.type path target in
    (require_text target.name (child path "name") "target name is required" ++ errors, target')

-- The loop over `r.Spec.Targets`, from index `i`.
unfoldable pub validate_targets : ℕ → List BackupTarget → List FieldError × List BackupTarget
validate_targets i [] = ([], [])
validate_targets i (target ∷ targets) =
    let (errors, target') = validate_target (at_index (key "spec" ∷ key "targets" ∷ []) i) target in
    let (more, targets') = validate_targets (i + 1) targets in (errors ++ more, target' ∷ targets')
