-- ===== src/Controller/EnvVars.antt =====
-- retentionPolicyToEnv, buildEnvVars and buildEnvFrom of
-- internal/controller/backuptask_controller.go.
pub mod Prefixes
pub mod Policies
use mathlib.Core.Option
use Prim.Native.Char.{Char, code, char}
use backup_operator.Base.{
  ℕ, ◌-◌, ℤ, is_zero, String, ◌<>◌, Bool, true, false, ◌&&◌, not, Option, none, some, List, [], ◌∷◌,
  ◌++◌, ◌==◌, is_empty, eqb, itoa, if◌then◌else◌,
}
use backup_operator.Kube.{EnvVar, EnvFromSource}
use backup_operator.Api.{
  BackupTargetType, database, RetentionPolicy, KeepLastPolicy, EncryptionSpec, BackupTarget,
  DatabaseBackupSpec, BackupTask,
}

abbrev pub env_value : String → String → EnvVar
env_value name value = record { name = name; value = value; field_path = none }

abbrev pub env_field : String → String → EnvVar
env_field name path = record { name = name; value = ""; field_path = some path }

-- `if p != nil { envs = append(envs, …Itoa(*p)…) }`
abbrev pub env_of_pointer : String → Option ℤ → List EnvVar
env_of_pointer name none = []
env_of_pointer name (some n) = env_value name (itoa n) ∷ []

-- `if n != 0 { envs = append(envs, …Itoa(n)…) }`
abbrev pub env_unless_zero : String → ℤ → List EnvVar
env_unless_zero name n = if is_zero n then [] else env_value name (itoa n) ∷ []

unfoldable pub keep_last_to_env : Option KeepLastPolicy → List EnvVar
keep_last_to_env none = []
keep_last_to_env (some keep) =
    env_unless_zero "RETENTION_KEEP_LAST_HOURS" keep.hours
    ++ (env_unless_zero "RETENTION_KEEP_LAST_DAYS" keep.days
        ++ (env_unless_zero "RETENTION_KEEP_LAST_WEEKS" keep.weeks
            ++ env_unless_zero "RETENTION_KEEP_LAST_MONTHS" keep.months))

unfoldable pub retention_policy_to_env : Option RetentionPolicy → List EnvVar
unfolding keep_last_to_env
retention_policy_to_env none = []
retention_policy_to_env (some policy) =
    env_of_pointer "RETENTION_MAX_AGE_DAYS" policy.max_age_days
    ++ (env_of_pointer "RETENTION_MAX_BACKUP_COUNT" policy.max_backup_count
        ++ keep_last_to_env policy.keep_last)

unfoldable pub build_env_vars : BackupTask → List EnvVar
unfolding retention_policy_to_env
build_env_vars task =
    env_value "BACKUP_TASK_NAME" task.meta.name
    ∷ env_value "BACKUP_TASK_NAMESPACE" task.meta.namespace
    ∷ env_field "BACKUP_ID" "metadata.uid"
    ∷ env_field "POD_NAME" "metadata.name"
    ∷ retention_policy_to_env task.spec.retention

-- `strings.ReplaceAll(s, "-", "_")`
unfoldable pub replace_dashes : String → String
replace_dashes String.[] = String.[]
replace_dashes (String.◌∷◌ c s) =
    String.◌∷◌ (if eqb (code c) b'-' then char b'_' tt else c) (replace_dashes s)

-- `strings.ToUpper`: the case mapping of one character is Go's Unicode table, a parameter.
unfoldable pub to_upper : (Char → Char) → String → String
to_upper upper String.[] = String.[]
to_upper upper (String.◌∷◌ c s) = String.◌∷◌ (upper c) (to_upper upper s)

-- The prefix of the variables of a database target.
unfoldable pub env_prefix : (Char → Char) → String → String
unfolding replace_dashes to_upper
env_prefix upper name = "DB_" <> (to_upper upper (replace_dashes name) <> "_")

abbrev pub secret_env : String → String → EnvFromSource
secret_env prefix name = record { prefix = prefix; secret_name = name; optional = true }

unfoldable pub encryption_env : Option EncryptionSpec → List EnvFromSource
encryption_env none = []
encryption_env (some e) =
    if is_empty e.key_secret_ref.name
    then []
    else secret_env "ENCRYPTION_" e.key_secret_ref.name ∷ []

abbrev pub is_database : BackupTargetType → Bool
is_database database = true
is_database _ = false

abbrev pub auth_secret_name : Option DatabaseBackupSpec → String
auth_secret_name none = ""
auth_secret_name (some d) = d.auth_secret_ref.name

-- The body of the loop over the targets.
unfoldable pub target_env : (Char → Char) → BackupTarget → List EnvFromSource
unfolding env_prefix
target_env upper target =
    if is_database target.type && not (is_empty (auth_secret_name target.database))
    then secret_env (env_prefix upper target.name) (auth_secret_name target.database) ∷ []
    else []

unfoldable pub targets_env : (Char → Char) → List BackupTarget → List EnvFromSource
unfolding target_env
targets_env upper [] = []
targets_env upper (target ∷ targets) = target_env upper target ++ targets_env upper targets

unfoldable pub build_env_from : (Char → Char) → BackupTask → List EnvFromSource
unfolding encryption_env targets_env
build_env_from upper task =
    encryption_env task.spec.encryption ++ targets_env upper task.spec.targets
