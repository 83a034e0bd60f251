-- ===== src/Json/Storage/Reads.antt =====
-- The remote storage read back from its JSON.
use backup_operator.Base.{◌≡◌, refl, ◌∙◌, String, Bool, Option, some, ◌==◌, if◌then◌else◌}
use backup_operator.Api.{
  RemoteStorageType, S3StorageSpec, SftpStorageSpec, NfsStorageSpec, SmbStorageSpec,
  RemoteStorageSpec,
}
use backup_operator.Json.{Value, bool, omit_nil}
use backup_operator.Json.Lookup.{
  finder, ◌>>=◌, as_text, as_value, as_pointer, as_list, number_of, text_of, bool_of,
  as_text-omit_text, as_pointer-omit_nil,
}
use backup_operator.Json.Targets.{KubeJson}
use backup_operator.Json.Targets.Reads.{
  KubeReads, fields_of, fields_of-struct, texts-omit_empty, number-omit_nil, section-reads,
}
use backup_operator.Json.Storage.{
  storage_type_text, s3_entries, sftp_entries, nfs_storage_entries, smb_entries, storage_entries,
  storage_json,
}

bool-omit_nil : (b : Option Bool) → as_pointer bool_of (omit_nil bool b) ≡ some b
unfolding bool_of
bool-omit_nil = as_pointer-omit_nil bool_of bool (λ b. refl)

abbrev read_nfs_storage : (String → Option Value) → Option NfsStorageSpec
read_nfs_storage g = do
  server ← as_text (g "server")
  path ← as_text (g "path")
  mount ← as_list text_of (g "mountOptions")
  some (record { server = server; path = path; mount_options = mount })

read_nfs_storage-entries :
    (n : NfsStorageSpec) → read_nfs_storage (finder (nfs_storage_entries n)) ≡ some n
read_nfs_storage-entries n = rw (texts-omit_empty n.mount_options) refl

-- A text of the type as the constant that it spells.
abbrev pub storage_type_of : String → RemoteStorageType
storage_type_of s =
    if s == "s3"
    then RemoteStorageType.s3
    else if s == "sftp"
    then RemoteStorageType.sftp
    else if s == "nfs"
    then RemoteStorageType.nfs
    else if s == "smb"
    then RemoteStorageType.smb
    else RemoteStorageType.other_storage s

abbrev pub IsSpelledStorage : RemoteStorageSpec → Type 0
IsSpelledStorage r = storage_type_of (storage_type_text r.type) ≡ r.type

module _ {K : KubeJson} (R : KubeReads K) where
  abbrev read_s3 : (String → Option Value) → Option S3StorageSpec
  read_s3 g = do
    endpoint ← as_text (g "endpoint")
    bucket ← as_text (g "bucket")
    prefix ← as_text (g "prefix")
    region ← as_text (g "region")
    secret ← as_value R.secret_of (g "authSecretRef")
    tls ← as_pointer bool_of (g "useTLS")
    skip ← as_pointer bool_of (g "skipTLSVerify")
    some (record {
      endpoint = endpoint;
      bucket = bucket;
      prefix = prefix;
      region = region;
      auth_secret_ref = secret;
      use_tls = tls;
      skip_tls_verify = skip;
    })

  read_s3-entries : (s : S3StorageSpec) → read_s3 (finder (s3_entries K s)) ≡ some s
  read_s3-entries s =
      rw
        (
          as_text-omit_text s.prefix,
          as_text-omit_text s.region,
          R.reads_secret s.auth_secret_ref,
          bool-omit_nil s.use_tls,
          bool-omit_nil s.skip_tls_verify,
        )
        refl

  abbrev read_sftp : (String → Option Value) → Option SftpStorageSpec
  read_sftp g = do
    host ← as_text (g "host")
    port ← as_pointer number_of (g "port")
    path ← as_text (g "path")
    secret ← as_value R.secret_of (g "authSecretRef")
    type ← as_text (g "sshKeyType")
    some (record {
      host = host;
      port = port;
      path = path;
      auth_secret_ref = secret;
      ssh_key_type = type;
    })

  read_sftp-entries : (s : SftpStorageSpec) → read_sftp (finder (sftp_entries K s)) ≡ some s
  read_sftp-entries s =
      rw
        (number-omit_nil s.port, R.reads_secret s.auth_secret_ref, as_text-omit_text s.ssh_key_type)
        refl

  abbrev read_smb : (String → Option Value) → Option SmbStorageSpec
  read_smb g = do
    server ← as_text (g "server")
    share ← as_text (g "share")
    path ← as_text (g "path")
    secret ← as_value R.secret_of (g "authSecretRef")
    domain ← as_text (g "domain")
    some (record {
      server = server;
      share = share;
      path = path;
      auth_secret_ref = secret;
      domain = domain;
    })

  read_smb-entries : (s : SmbStorageSpec) → read_smb (finder (smb_entries K s)) ≡ some s
  read_smb-entries s =
      rw (as_text-omit_text s.path, R.reads_secret s.auth_secret_ref, as_text-omit_text s.domain)
        refl

  abbrev read_storage_fields : (String → Option Value) → Option RemoteStorageSpec
  read_storage_fields g = do
    type ← as_text (g "type")
    bucket ← as_pointer (fields_of read_s3) (g "s3")
    host ← as_pointer (fields_of read_sftp) (g "sftp")
    export ← as_pointer (fields_of read_nfs_storage) (g "nfs")
    share ← as_pointer (fields_of read_smb) (g "smb")
    some (record {
      type = storage_type_of type;
      s3 = bucket;
      sftp = host;
      nfs = export;
      smb = share;
    })

  -- The remote storage as the agent reads it.
  abbrev pub read_storage : Value → Option RemoteStorageSpec
  read_storage = fields_of read_storage_fields

  pub read_storage-storage_json :
      (r : RemoteStorageSpec) → IsSpelledStorage r → read_storage (storage_json K r) ≡ some r
  unfolding storage_json
  read_storage-storage_json r spelled =
      fields_of-struct read_storage_fields (storage_entries K r) refl
      ∙ rw
          (
            section-reads read_s3 (s3_entries K) (λ a. refl) read_s3-entries r.s3,
            section-reads read_sftp (sftp_entries K) (λ a. refl) read_sftp-entries r.sftp,
            section-reads read_nfs_storage nfs_storage_entries (λ a. refl) read_nfs_storage-entries
                r.nfs,
            section-reads read_smb (smb_entries K) (λ a. refl) read_smb-entries r.smb,
          )
          (λ i. some (record r { type = spelled i }))
