-- ===== src/Webhook/Storage/Accepts.antt =====
-- When a remote storage and an encryption are accepted, without reference to the code.
use backup_operator.Base.{◌≡◌, refl, ◌↔◌, true, false, Bool, Option, none, some, []}
use backup_operator.Api.{
  RemoteStorageType, RemoteStorageSpec, S3StorageSpec, SftpStorageSpec, NfsStorageSpec,
  SmbStorageSpec, EncryptionSpec,
}
use backup_operator.Webhook.Errors.{FieldPath, Given, accept_text, accept_both, IsNonempty}
use backup_operator.Webhook.Storage.{
  validate_s3, validate_sftp, validate_nfs_storage, validate_smb, validate_storage_of,
  validate_remote_storage, validate_encryption, validate_encryption_of,
}

abbrev pub IsConfiguredS3 : S3StorageSpec → Type 0
IsConfiguredS3 s = IsNonempty s.endpoint × (IsNonempty s.bucket × IsNonempty s.auth_secret_ref.name)

abbrev pub IsConfiguredSftp : SftpStorageSpec → Type 0
IsConfiguredSftp s = IsNonempty s.host × (IsNonempty s.path × IsNonempty s.auth_secret_ref.name)

abbrev pub IsConfiguredNfs : NfsStorageSpec → Type 0
IsConfiguredNfs s = IsNonempty s.server × IsNonempty s.path

abbrev pub IsConfiguredSmb : SmbStorageSpec → Type 0
IsConfiguredSmb s = IsNonempty s.server × (IsNonempty s.share × IsNonempty s.auth_secret_ref.name)

-- The section of the storage's type is present, with all that it needs.
abbrev pub IsConfiguredAs : RemoteStorageType → RemoteStorageSpec → Type 0
IsConfiguredAs RemoteStorageType.s3 r = Given IsConfiguredS3 r.s3
IsConfiguredAs RemoteStorageType.sftp r = Given IsConfiguredSftp r.sftp
IsConfiguredAs RemoteStorageType.nfs r = Given IsConfiguredNfs r.nfs
IsConfiguredAs RemoteStorageType.smb r = Given IsConfiguredSmb r.smb
IsConfiguredAs (RemoteStorageType.other_storage name) r = Unit

abbrev pub IsConfigured : RemoteStorageSpec → Type 0
IsConfigured r = IsConfiguredAs r.type r

-- An encryption that is enabled names its key.
abbrev pub HasKey : Option EncryptionSpec → Type 0
HasKey none = Unit
HasKey (some e) = e.enabled ≡ true → IsNonempty e.key_secret_ref.name

validate_s3_iff :
    (path : FieldPath) (s : Option S3StorageSpec)
    → (validate_s3 path s ≡ []) ↔ Given IsConfiguredS3 s
unfolding validate_s3
validate_s3_iff path none = (λ e. cc, λ h. absurd h)
validate_s3_iff path (some s) =
    accept_both (accept_text _ _ _) (accept_both (accept_text _ _ _) (accept_text _ _ _))

validate_sftp_iff :
    (path : FieldPath) (s : Option SftpStorageSpec)
    → (validate_sftp path s ≡ []) ↔ Given IsConfiguredSftp s
unfolding validate_sftp
validate_sftp_iff path none = (λ e. cc, λ h. absurd h)
validate_sftp_iff path (some s) =
    accept_both (accept_text _ _ _) (accept_both (accept_text _ _ _) (accept_text _ _ _))

validate_nfs_storage_iff :
    (path : FieldPath) (s : Option NfsStorageSpec)
    → (validate_nfs_storage path s ≡ []) ↔ Given IsConfiguredNfs s
unfolding validate_nfs_storage
validate_nfs_storage_iff path none = (λ e. cc, λ h. absurd h)
validate_nfs_storage_iff path (some s) = accept_both (accept_text _ _ _) (accept_text _ _ _)

validate_smb_iff :
    (path : FieldPath) (s : Option SmbStorageSpec)
    → (validate_smb path s ≡ []) ↔ Given IsConfiguredSmb s
unfolding validate_smb
validate_smb_iff path none = (λ e. cc, λ h. absurd h)
validate_smb_iff path (some s) =
    accept_both (accept_text _ _ _) (accept_both (accept_text _ _ _) (accept_text _ _ _))

validate_storage_of_iff :
    (t : RemoteStorageType) (path : FieldPath) (r : RemoteStorageSpec)
    → (validate_storage_of t path r ≡ []) ↔ IsConfiguredAs t r
unfolding validate_storage_of
validate_storage_of_iff RemoteStorageType.s3 path r = validate_s3_iff path r.s3
validate_storage_of_iff RemoteStorageType.sftp path r = validate_sftp_iff path r.sftp
validate_storage_of_iff RemoteStorageType.nfs path r = validate_nfs_storage_iff path r.nfs
validate_storage_of_iff RemoteStorageType.smb path r = validate_smb_iff path r.smb
validate_storage_of_iff (RemoteStorageType.other_storage name) path r = (λ e. tt, λ h. refl)

-- A remote storage raises no error exactly when it is configured for its type.
pub validate_remote_storage_iff :
    (path : FieldPath) (r : RemoteStorageSpec)
    → (validate_remote_storage path r ≡ []) ↔ IsConfigured r
unfolding validate_remote_storage
validate_remote_storage_iff path r = validate_storage_of_iff r.type path r

pub validate_encryption_of_iff :
    (e : Option EncryptionSpec) → (validate_encryption_of e ≡ []) ↔ HasKey e
unfolding validate_encryption_of validate_encryption
validate_encryption_of_iff none = (λ e. tt, λ h. refl)
validate_encryption_of_iff (some e) = enabled_case e.enabled refl
  where
    enabled_case :
        (b : Bool) → e.enabled ≡ b → (validate_encryption_of (some e) ≡ []) ↔ HasKey (some e)
    enabled_case true on = (
      λ h u. (accept_text _ _ _).0 (rw (on, validate_encryption_of) at h),
      λ h. rw (on, validate_encryption_of) ((accept_text _ _ _).1 (h on)),
    )
    enabled_case false off = (λ h on. cc, λ h. rw (off, validate_encryption_of))
