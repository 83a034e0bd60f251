-- ===== src/Legacy/EnvVars.antt =====
-- buildEnvVars of controllers/backuptask_controller.go.
use backup_operator.Base.{Option, none, some, List, [], ◌∷◌, ◌++◌, if◌then◌else◌}
use backup_operator.Kube.{EnvVar}
use backup_operator.Api.{
  RemoteStorageType, S3StorageSpec, SftpStorageSpec, RemoteStorageSpec, EncryptionSpec, BackupTask,
}
use backup_operator.Controller.EnvVars.{env_value, env_field}

abbrev pub s3_env : Option S3StorageSpec → List EnvVar
s3_env none = []
s3_env (some s3) =
    env_value "REMOTE_STORAGE_TYPE" "s3"
    ∷ env_value "S3_ENDPOINT" s3.endpoint
    ∷ env_value "S3_BUCKET" s3.bucket
    ∷ env_value "S3_PREFIX" s3.prefix
    ∷ []

abbrev pub sftp_env : Option SftpStorageSpec → List EnvVar
sftp_env none = []
sftp_env (some sftp) =
    env_value "REMOTE_STORAGE_TYPE" "sftp"
    ∷ env_value "SFTP_HOST" sftp.host
    ∷ env_value "SFTP_PATH" sftp.path
    ∷ []

-- The `switch` on the type of the storage.
abbrev pub storage_env : RemoteStorageType → RemoteStorageSpec → List EnvVar
storage_env RemoteStorageType.s3 storage = s3_env storage.s3
storage_env RemoteStorageType.sftp storage = sftp_env storage.sftp
storage_env _ storage = []

abbrev pub enabled_env : Option EncryptionSpec → List EnvVar
enabled_env none = []
enabled_env (some e) =
    if e.enabled
    then env_value "ENCRYPTION_ENABLED" "true" ∷ env_value "ENCRYPTION_ALGORITHM" e.algorithm ∷ []
    else []

unfoldable pub build_env_vars : BackupTask → List EnvVar
build_env_vars task =
    env_value "BACKUP_TASK_NAME" task.meta.name
    ∷ env_value "BACKUP_TASK_NAMESPACE" task.meta.namespace
    ∷ env_field "BACKUP_ID" "metadata.uid"
    ∷ env_field "POD_NAME" "metadata.name"
    ∷ (storage_env task.spec.remote_storage.type task.spec.remote_storage
        ++ enabled_env task.spec.encryption)
