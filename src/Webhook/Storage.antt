-- ===== src/Webhook/Storage.antt =====
-- validateRemoteStorage and validateEncryption of api/v1alpha1/backuptask_webhook.go.
pub mod Accepts
use backup_operator.Base.{
  ℕ, suc, ◌+◌, ℤ, pos, ltb_ℤ, String, Bool, true, false, ◌&&◌, ◌||◌, not, Option, none, some, List,
  [], ◌∷◌, ◌++◌, ◌==◌, if◌then◌else◌, is_empty,
}
use backup_operator.Api.{
  BackupTargetType, database, config, directory, nfs, other_target, DatabaseBackupSpec,
  DirectoryPath, DirectoryBackupSpec, NfsBackupSpec, BackupTarget, RemoteStorageType,
  RemoteStorageSpec, S3StorageSpec, SftpStorageSpec, NfsStorageSpec, SmbStorageSpec, EncryptionSpec,
  BackupTask,
}
use backup_operator.Webhook.Cron.{is_valid_cron_schedule}
use backup_operator.Webhook.Errors.{
  FieldPath, key, child, at_index, text, number, FieldError, required, invalid, AdmissionError,
  invalid_object, report, require_text, is_nil,
}

unfoldable pub validate_s3 : FieldPath → Option S3StorageSpec → List FieldError
validate_s3 path none =
    required (child path "s3") "s3 configuration is required for s3 storage" ∷ []
validate_s3 path (some spec) =
    require_text spec.endpoint (child (child path "s3") "endpoint") "s3 endpoint is required"
    ++ (require_text spec.bucket (child (child path "s3") "bucket") "s3 bucket is required"
        ++ require_text spec.auth_secret_ref.name
            (child (child (child path "s3") "authSecretRef") "name") "auth secret name is required")

unfoldable pub validate_sftp : FieldPath → Option SftpStorageSpec → List FieldError
validate_sftp path none =
    required (child path "sftp") "sftp configuration is required for sftp storage" ∷ []
validate_sftp path (some spec) =
    require_text spec.host (child (child path "sftp") "host") "sftp host is required"
    ++ (require_text spec.path (child (child path "sftp") "path") "sftp path is required"
        ++ require_text spec.auth_secret_ref.name
            (child (child (child path "sftp") "authSecretRef") "name")
            "auth secret name is required")

unfoldable pub validate_nfs_storage : FieldPath → Option NfsStorageSpec → List FieldError
validate_nfs_storage path none =
    required (child path "nfs") "nfs configuration is required for nfs storage" ∷ []
validate_nfs_storage path (some spec) =
    require_text spec.server (child (child path "nfs") "server") "nfs server is required"
    ++ require_text spec.path (child (child path "nfs") "path") "nfs path is required"

unfoldable pub validate_smb : FieldPath → Option SmbStorageSpec → List FieldError
validate_smb path none =
    required (child path "smb") "smb configuration is required for smb storage" ∷ []
validate_smb path (some spec) =
    require_text spec.server (child (child path "smb") "server") "smb server is required"
    ++ (require_text spec.share (child (child path "smb") "share") "smb share is required"
        ++ require_text spec.auth_secret_ref.name
            (child (child (child path "smb") "authSecretRef") "name")
            "auth secret name is required")

-- The `switch spec.Type`.
unfoldable pub validate_storage_of :
    RemoteStorageType → FieldPath → RemoteStorageSpec → List FieldError
validate_storage_of RemoteStorageType.s3 path spec = validate_s3 path spec.s3
validate_storage_of RemoteStorageType.sftp path spec = validate_sftp path spec.sftp
validate_storage_of RemoteStorageType.nfs path spec = validate_nfs_storage path spec.nfs
validate_storage_of RemoteStorageType.smb path spec = validate_smb path spec.smb
validate_storage_of (RemoteStorageType.other_storage name) path spec = []

unfoldable pub validate_remote_storage : FieldPath → RemoteStorageSpec → List FieldError
validate_remote_storage path spec = validate_storage_of spec.type path spec

unfoldable pub validate_encryption : FieldPath → EncryptionSpec → List FieldError
validate_encryption path spec =
    require_text spec.key_secret_ref.name (child (child path "keySecretRef") "name")
      "encryption key secret name is required"

-- `if r.Spec.Encryption != nil && r.Spec.Encryption.Enabled { … }`
unfoldable pub validate_encryption_of : Option EncryptionSpec → List FieldError
validate_encryption_of none = []
validate_encryption_of (some spec) =
    if spec.enabled then validate_encryption (key "spec" ∷ key "encryption" ∷ []) spec else []
