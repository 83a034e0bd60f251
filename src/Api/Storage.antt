-- ===== src/Api/Storage.antt =====
-- backuptask_types.go: where a task stores its backups, and how it encrypts them.
use backup_operator.Base.{ℤ, String, Bool, Option, List}
use backup_operator.Kube.{SecretReference}

pub data RemoteStorageType : Type 0 where
  s3 sftp nfs smb : RemoteStorageType
  other_storage : String → RemoteStorageType

pub record S3StorageSpec : Type 0 where
  pub endpoint : String
  pub bucket : String
  pub prefix : String
  pub region : String
  pub auth_secret_ref : SecretReference
  pub use_tls : Option Bool
  pub skip_tls_verify : Option Bool

pub record SftpStorageSpec : Type 0 where
  pub host : String
  pub port : Option ℤ
  pub path : String
  pub auth_secret_ref : SecretReference
  pub ssh_key_type : String

pub record NfsStorageSpec : Type 0 where
  pub server : String
  pub path : String
  pub mount_options : List String

pub record SmbStorageSpec : Type 0 where
  pub server : String
  pub share : String
  pub path : String
  pub auth_secret_ref : SecretReference
  pub domain : String

pub record RemoteStorageSpec : Type 0 where
  pub type : RemoteStorageType
  pub s3 : Option S3StorageSpec
  pub sftp : Option SftpStorageSpec
  pub nfs : Option NfsStorageSpec
  pub smb : Option SmbStorageSpec

pub record EncryptionSpec : Type 0 where
  pub enabled : Bool
  pub algorithm : String
  pub key_secret_ref : SecretReference
  pub encrypt_after_compress : Option Bool
