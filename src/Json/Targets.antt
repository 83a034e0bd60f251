-- ===== src/Json/Targets.antt =====
-- The targets of a task as JSON, by the tags in backuptask_types.go.
pub mod Reads
use backup_operator.Base.{String, Bool, Option, none, some, List, [], ◌∷◌}
use backup_operator.Kube.{SecretReference, TypedLocalObjectReference, LabelSelector}
use backup_operator.Api.{
  BackupTargetType, config, database, directory, nfs, other_target, DatabaseBackupSpec,
  ConfigBackupSpec, DirectoryPath, DirectoryBackupSpec, NfsBackupSpec, BackupTarget,
}
use backup_operator.Json.{
  Value, bool, number, text, Entries, struct, omit_text, omit_false, omit_nil, omit_empty, slice,
}

-- How the types of corev1 and metav1 that occur in a task are written, which their own tags say.
pub record KubeJson : Type 0 where
  pub secret : SecretReference → Value
  pub local : TypedLocalObjectReference → Value
  pub selector : LabelSelector → Value

abbrev pub target_type_text : BackupTargetType → String
target_type_text config = "config"
target_type_text database = "database"
target_type_text directory = "directory"
target_type_text nfs = "nfs"
target_type_text (other_target name) = name

abbrev pub nfs_entries : NfsBackupSpec → Entries
nfs_entries n =
    ("server", some (text n.server))
    ∷ ("path", some (text n.path))
    ∷ ("mountOptions", omit_empty text n.mount_options)
    ∷ ("subPath", omit_text n.sub_path)
    ∷ []

module _ (K : KubeJson) where
  abbrev pub database_entries : DatabaseBackupSpec → Entries
  database_entries d =
      ("type", some (text d.type))
      ∷ ("host", some (text d.host))
      ∷ ("port", omit_nil number d.port)
      ∷ ("database", omit_text d.database)
      ∷ ("authSecretRef", some (K.secret d.auth_secret_ref))
      ∷ ("extraArgs", omit_empty text d.extra_args)
      ∷ ("enablePITR", omit_false d.enable_pitr)
      ∷ []

  abbrev pub config_entries : ConfigBackupSpec → Entries
  config_entries c =
      ("includeNamespaces", omit_empty text c.include_namespaces)
      ∷ ("excludeNamespaces", omit_empty text c.exclude_namespaces)
      ∷ ("resourceTypes", omit_empty text c.resource_types)
      ∷ ("labelSelector", omit_nil K.selector c.label_selector)
      ∷ []

  abbrev pub path_entries : DirectoryPath → Entries
  path_entries p =
      ("path", some (text p.path))
      ∷ ("pvcRef", omit_nil K.local p.pvc_ref)
      ∷ ("subPath", omit_text p.sub_path)
      ∷ []

  unfoldable pub path_json : DirectoryPath → Value
  path_json p = struct (path_entries p)

  abbrev pub directory_entries : DirectoryBackupSpec → Entries
  directory_entries d =
      ("paths", some (slice path_json d.paths))
      ∷ ("excludePatterns", omit_empty text d.exclude_patterns)
      ∷ ("compressionLevel", omit_nil number d.compression_level)
      ∷ []

  abbrev pub target_entries : BackupTarget → Entries
  target_entries t =
      ("name", some (text t.name))
      ∷ ("type", some (text (target_type_text t.type)))
      ∷ ("database", omit_nil (λ d. struct (database_entries d)) t.database)
      ∷ ("config", omit_nil (λ c. struct (config_entries c)) t.config)
      ∷ ("directory", omit_nil (λ d. struct (directory_entries d)) t.directory)
      ∷ ("nfs", omit_nil (λ n. struct (nfs_entries n)) t.nfs)
      ∷ []

  unfoldable pub target_json : BackupTarget → Value
  target_json t = struct (target_entries t)

  -- The array of targets.json.
  unfoldable pub targets_json : List BackupTarget → Value
  targets_json ts = slice target_json ts
