-- ===== src/Json/Storage.antt =====
-- The remote storage of a task as JSON, by the tags in backuptask_types.go.
pub mod Reads
use backup_operator.Base.{String, Bool, Option, none, some, List, [], ◌∷◌}
use backup_operator.Kube.{SecretReference}
use backup_operator.Api.{
  RemoteStorageType, other_storage, S3StorageSpec, SftpStorageSpec, NfsStorageSpec, SmbStorageSpec,
  RemoteStorageSpec,
}
use backup_operator.Json.{
  Value, bool, number, text, Entries, struct, omit_text, omit_nil, omit_empty,
}
use backup_operator.Json.Targets.{KubeJson}

abbrev pub storage_type_text : RemoteStorageType → String
storage_type_text RemoteStorageType.s3 = "s3"
storage_type_text RemoteStorageType.sftp = "sftp"
storage_type_text RemoteStorageType.nfs = "nfs"
storage_type_text RemoteStorageType.smb = "smb"
storage_type_text (RemoteStorageType.other_storage name) = name

abbrev pub nfs_storage_entries : NfsStorageSpec → Entries
nfs_storage_entries n =
    ("server", some (text n.server))
    ∷ ("path", some (text n.path))
    ∷ ("mountOptions", omit_empty text n.mount_options)
    ∷ []

module _ (K : KubeJson) where
  abbrev pub s3_entries : S3StorageSpec → Entries
  s3_entries s =
      ("endpoint", some (text s.endpoint))
      ∷ ("bucket", some (text s.bucket))
      ∷ ("prefix", omit_text s.prefix)
      ∷ ("region", omit_text s.region)
      ∷ ("authSecretRef", some (K.secret s.auth_secret_ref))
      ∷ ("useTLS", omit_nil bool s.use_tls)
      ∷ ("skipTLSVerify", omit_nil bool s.skip_tls_verify)
      ∷ []

  abbrev pub sftp_entries : SftpStorageSpec → Entries
  sftp_entries s =
      ("host", some (text s.host))
      ∷ ("port", omit_nil number s.port)
      ∷ ("path", some (text s.path))
      ∷ ("authSecretRef", some (K.secret s.auth_secret_ref))
      ∷ ("sshKeyType", omit_text s.ssh_key_type)
      ∷ []

  abbrev pub smb_entries : SmbStorageSpec → Entries
  smb_entries s =
      ("server", some (text s.server))
      ∷ ("share", some (text s.share))
      ∷ ("path", omit_text s.path)
      ∷ ("authSecretRef", some (K.secret s.auth_secret_ref))
      ∷ ("domain", omit_text s.domain)
      ∷ []

  abbrev pub storage_entries : RemoteStorageSpec → Entries
  storage_entries r =
      ("type", some (text (storage_type_text r.type)))
      ∷ ("s3", omit_nil (λ s. struct (s3_entries s)) r.s3)
      ∷ ("sftp", omit_nil (λ s. struct (sftp_entries s)) r.sftp)
      ∷ ("nfs", omit_nil (λ n. struct (nfs_storage_entries n)) r.nfs)
      ∷ ("smb", omit_nil (λ s. struct (smb_entries s)) r.smb)
      ∷ []

  -- The object of remotestorage.json.
  unfoldable pub storage_json : RemoteStorageSpec → Value
  storage_json r = struct (storage_entries r)
