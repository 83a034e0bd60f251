-- ===== src/Json/Targets/Reads.antt =====
-- The targets read back from their JSON, field by field as encoding/json reads them.
use mathlib.Core.Option
use backup_operator.Base.{
  ◌≡◌, refl, ap, ◌∙◌, ℤ, String, true, Option, none, some, List, [], ◌∷◌, ◌==◌, All, if◌then◌else◌,
}
use backup_operator.Kube.{SecretReference, TypedLocalObjectReference, LabelSelector}
use backup_operator.Api.{
  BackupTargetType, config, database, directory, nfs, other_target, DatabaseBackupSpec,
  ConfigBackupSpec, DirectoryPath, DirectoryBackupSpec, NfsBackupSpec, BackupTarget,
}
use backup_operator.Json.{Value, number, text, object, Entries, struct, omit_nil, omit_empty}
use backup_operator.Json.Lookup.{
  reader, finder, reader-present, ◌>>=◌, as_text, as_bool, as_value, as_pointer, as_list, number_of,
  text_of, as_text-omit_text, as_bool-omit_false, as_pointer-omit_nil, as_list-slice,
  as_list-omit_empty, distinct,
}
use backup_operator.Json.Targets.{
  KubeJson, target_type_text, database_entries, config_entries, path_entries, path_json,
  directory_entries, nfs_entries, target_entries, target_json, targets_json,
}

-- What the types of Kubernetes promise: they are read back as they were written.
pub record KubeReads (K : KubeJson) : Type 0 where
  pub secret_of : Value → Option SecretReference
  pub local_of : Value → Option TypedLocalObjectReference
  pub selector_of : Value → Option LabelSelector
  pub reads_secret : (s : SecretReference) → secret_of (K.secret s) ≡ some s
  pub reads_local :
      (l : TypedLocalObjectReference) → as_pointer local_of (some (K.local l)) ≡ some (some l)
  pub reads_selector :
      (l : LabelSelector) → as_pointer selector_of (some (K.selector l)) ≡ some (some l)

-- An object, by a reader of its fields.
abbrev pub fields_of {ℓ} : {A : Type ℓ} → ((String → Option Value) → Option A) → Value → Option A
fields_of read (object fs) = read (reader fs)
fields_of read _ = none

pub fields_of-struct {ℓ} :
    {A : Type ℓ} (read : (String → Option Value) → Option A) (es : Entries)
    → distinct es ≡ true
    → fields_of read (struct es) ≡ read (finder es)
unfolding struct
fields_of-struct read es h = ap read (reader-present es h)

each_of : {A : Type 0} {P : A → Type 0} → ((a : A) → P a) → (xs : List A) → All P xs
each_of h [] = tt
each_of h (x ∷ xs) = (h x, each_of h xs)

reads_text : (s : String) → text_of (text s) ≡ some s
unfolding text_of
reads_text s = refl

pub texts-omit_empty : (ss : List String) → as_list text_of (omit_empty text ss) ≡ some ss
texts-omit_empty ss = as_list-omit_empty text_of text ss (each_of reads_text ss)

pub number-omit_nil : (n : Option ℤ) → as_pointer number_of (omit_nil number n) ≡ some n
unfolding number_of
number-omit_nil = as_pointer-omit_nil number_of number (λ n. refl)

module _ {K : KubeJson} (R : KubeReads K) where
  abbrev read_database : (String → Option Value) → Option DatabaseBackupSpec
  read_database g = do
    type ← as_text (g "type")
    host ← as_text (g "host")
    port ← as_pointer number_of (g "port")
    name ← as_text (g "database")
    secret ← as_value R.secret_of (g "authSecretRef")
    args ← as_list text_of (g "extraArgs")
    pitr ← as_bool (g "enablePITR")
    some (record {
      type = type;
      host = host;
      port = port;
      database = name;
      auth_secret_ref = secret;
      extra_args = args;
      enable_pitr = pitr;
    })

  read_database-entries :
      (d : DatabaseBackupSpec) → read_database (finder (database_entries K d)) ≡ some d
  read_database-entries d =
      rw
        (
          number-omit_nil d.port,
          as_text-omit_text d.database,
          R.reads_secret d.auth_secret_ref,
          texts-omit_empty d.extra_args,
          as_bool-omit_false d.enable_pitr,
        )
        refl

  abbrev read_config : (String → Option Value) → Option ConfigBackupSpec
  read_config g = do
    included ← as_list text_of (g "includeNamespaces")
    excluded ← as_list text_of (g "excludeNamespaces")
    types ← as_list text_of (g "resourceTypes")
    selector ← as_pointer R.selector_of (g "labelSelector")
    some (record {
      include_namespaces = included;
      exclude_namespaces = excluded;
      resource_types = types;
      label_selector = selector;
    })

  read_config-entries : (c : ConfigBackupSpec) → read_config (finder (config_entries K c)) ≡ some c
  read_config-entries c =
      rw
        (
          texts-omit_empty c.include_namespaces,
          texts-omit_empty c.exclude_namespaces,
          texts-omit_empty c.resource_types,
          as_pointer-omit_nil R.selector_of K.selector R.reads_selector c.label_selector,
        )
        refl

  abbrev read_path : (String → Option Value) → Option DirectoryPath
  read_path g = do
    path ← as_text (g "path")
    claim ← as_pointer R.local_of (g "pvcRef")
    sub ← as_text (g "subPath")
    some (record { path = path; pvc_ref = claim; sub_path = sub })

  path_json-reads : (p : DirectoryPath) → fields_of read_path (path_json K p) ≡ some p
  unfolding path_json
  path_json-reads p =
      fields_of-struct read_path (path_entries K p) refl
      ∙ rw
          (
            as_pointer-omit_nil R.local_of K.local R.reads_local p.pvc_ref,
            as_text-omit_text p.sub_path,
          )
          refl

  abbrev read_directory : (String → Option Value) → Option DirectoryBackupSpec
  read_directory g = do
    paths ← as_list (fields_of read_path) (g "paths")
    patterns ← as_list text_of (g "excludePatterns")
    level ← as_pointer number_of (g "compressionLevel")
    some (record { paths = paths; exclude_patterns = patterns; compression_level = level })

  read_directory-entries :
      (d : DirectoryBackupSpec) → read_directory (finder (directory_entries K d)) ≡ some d
  read_directory-entries d =
      rw
        (
          as_list-slice (fields_of read_path) (path_json K) d.paths
              (each_of path_json-reads d.paths),
          texts-omit_empty d.exclude_patterns,
          number-omit_nil d.compression_level,
        )
        refl

abbrev read_nfs : (String → Option Value) → Option NfsBackupSpec
read_nfs g = do
  server ← as_text (g "server")
  path ← as_text (g "path")
  mount ← as_list text_of (g "mountOptions")
  sub ← as_text (g "subPath")
  some (record { server = server; path = path; mount_options = mount; sub_path = sub })

read_nfs-entries : (n : NfsBackupSpec) → read_nfs (finder (nfs_entries n)) ≡ some n
read_nfs-entries n = rw (texts-omit_empty n.mount_options, as_text-omit_text n.sub_path) refl

-- A text of the type as the constant that it spells.
abbrev pub target_type_of : String → BackupTargetType
target_type_of s =
    if s == "config"
    then config
    else if s == "database"
    then database
    else if s == "directory"
    then directory
    else if s == "nfs"
    then nfs
    else other_target s

-- The type is not a constant spelled as another text.
abbrev pub IsSpelled : BackupTarget → Type 0
IsSpelled t = target_type_of (target_type_text t.type) ≡ t.type

-- A section of a target, behind a pointer.
pub section-reads {ℓ} :
    {A : Type ℓ} (read : (String → Option Value) → Option A) (entries : A → Entries)
    → ((a : A) → distinct (entries a) ≡ true)
    → ((a : A) → read (finder (entries a)) ≡ some a)
    → (o : Option A) → as_pointer (fields_of read) (omit_nil (λ a. struct (entries a)) o) ≡ some o
unfolding struct
section-reads read entries names reads =
    as_pointer-omit_nil (fields_of read) (λ a. struct (entries a))
      (λ a. ap (Option.map some) (fields_of-struct read (entries a) (names a) ∙ reads a))

module _ {K : KubeJson} (R : KubeReads K) where
  abbrev read_target : (String → Option Value) → Option BackupTarget
  read_target g = do
    name ← as_text (g "name")
    type ← as_text (g "type")
    base ← as_pointer (fields_of (read_database R)) (g "database")
    conf ← as_pointer (fields_of (read_config R)) (g "config")
    tree ← as_pointer (fields_of (read_directory R)) (g "directory")
    share ← as_pointer (fields_of read_nfs) (g "nfs")
    some (record {
      name = name;
      type = target_type_of type;
      database = base;
      config = conf;
      directory = tree;
      nfs = share;
    })

  target_json-reads :
      (t : BackupTarget) → IsSpelled t → fields_of read_target (target_json K t) ≡ some t
  unfolding target_json
  target_json-reads t spelled =
      fields_of-struct read_target (target_entries K t) refl
      ∙ rw
          (
            section-reads (read_database R) (database_entries K) (λ a. refl)
                (read_database-entries R) t.database,
            section-reads (read_config R) (config_entries K) (λ a. refl) (read_config-entries R)
                t.config,
            section-reads (read_directory R) (directory_entries K) (λ a. refl)
                (read_directory-entries R) t.directory,
            section-reads read_nfs nfs_entries (λ a. refl) read_nfs-entries t.nfs,
          )
          (λ i. some (record t { type = spelled i }))

  targets_json-each :
      (ts : List BackupTarget)
      → All IsSpelled ts
      → All (λ t. fields_of read_target (target_json K t) ≡ some t) ts
  targets_json-each [] all = tt
  targets_json-each (t ∷ ts) (here, rest) = (target_json-reads t here, targets_json-each ts rest)

  -- The targets as the agent reads them.
  abbrev pub read_targets : Value → Option (List BackupTarget)
  read_targets v = as_list (fields_of read_target) (some v)

  pub read_targets-targets_json :
      (ts : List BackupTarget) → All IsSpelled ts → read_targets (targets_json K ts) ≡ some ts
  unfolding targets_json
  read_targets-targets_json ts all =
      as_list-slice (fields_of read_target) (target_json K) ts (targets_json-each ts all)
