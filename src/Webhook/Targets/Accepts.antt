-- ===== src/Webhook/Targets/Accepts.antt =====
-- When a backup target is accepted, without reference to the code.
use backup_operator.Base.{
  ℕ, ◌+◌, ◌≡◌, refl, ◌≢◌, ◌↔◌, ◌⊎◌, inl, inr, ℤ, pos, ◌≤ℤ◌, String, false, Option, Option-cases,
  none, some, List, [], ◌∷◌, arith, eq_iff, All,
}
use backup_operator.Api.{
  BackupTargetType, database, config, directory, nfs, other_target, DatabaseBackupSpec,
  ConfigBackupSpec, DirectoryPath, DirectoryBackupSpec, NfsBackupSpec, BackupTarget,
}
use backup_operator.Webhook.Errors.{
  FieldPath, FieldError, report, is_nil, Given, accept_text, accept_both, accept_report, IsNonempty,
}
use backup_operator.Webhook.Targets.{
  default_port, validate_port, validate_database_spec, validate_paths, validate_compression,
  validate_directory_spec, validate_nfs_spec, validate_database_target, validate_config_target,
  validate_directory_target, validate_nfs_target, validate_target_of, validate_target,
  validate_targets,
}

abbrev pub IsPort : ℤ → Type 0
IsPort p = (pos 1 ≤ℤ p) × (p ≤ℤ pos 65535)

-- The kinds of database that have a default port.
abbrev pub HasDefaultPort : String → Type 0
HasDefaultPort type =
    (type ≡ "mysql") ⊎ ((type ≡ "postgresql") ⊎ ((type ≡ "mongodb") ⊎ (type ≡ "redis")))

abbrev pub PortIsKnown : Option ℤ → String → Type 0
PortIsKnown none type = HasDefaultPort type
PortIsKnown (some p) type = IsPort p

abbrev pub IsDatabase : DatabaseBackupSpec → Type 0
IsDatabase s = IsNonempty s.host × (PortIsKnown s.port s.type × IsNonempty s.auth_secret_ref.name)

abbrev pub IsLevel : Option ℤ → Type 0
IsLevel none = Unit
IsLevel (some level) = (pos 0 ≤ℤ level) × (level ≤ℤ pos 9)

abbrev pub IsDirectory : DirectoryBackupSpec → Type 0
IsDirectory s =
    (s.paths ≢ [])
    × (All (λ (p : DirectoryPath). IsNonempty p.path) s.paths × IsLevel s.compression_level)

abbrev pub IsNfs : NfsBackupSpec → Type 0
IsNfs s = IsNonempty s.server × IsNonempty s.path

abbrev pub IsConfig : ConfigBackupSpec → Type 0
IsConfig s = Unit

-- The section of the target's type is present, with all that it needs.
abbrev pub IsTargetOf : BackupTargetType → BackupTarget → Type 0
IsTargetOf database t = Given IsDatabase t.database
IsTargetOf config t = Given IsConfig t.config
IsTargetOf directory t = Given IsDirectory t.directory
IsTargetOf nfs t = Given IsNfs t.nfs
IsTargetOf (other_target name) t = Unit

abbrev pub IsTarget : BackupTarget → Type 0
IsTarget t = IsNonempty t.name × IsTargetOf t.type t

pub default_port-IsPort : (type : String) {p : ℤ} → default_port type ≡ some p → IsPort p
unfolding default_port
default_port-IsPort type h = ground arith

pub default_port-HasDefaultPort : (type : String) → (default_port type ≢ none) ↔ HasDefaultPort type
unfolding default_port
default_port-HasDefaultPort type = (
  λ h. ground (
    arith,
    eq_iff type "mysql",
    eq_iff type "postgresql",
    eq_iff type "mongodb",
    eq_iff type "redis",
  ),
  λ h e. ground (
    arith,
    eq_iff type "mysql",
    eq_iff type "postgresql",
    eq_iff type "mongodb",
    eq_iff type "redis",
  ),
)

validate_port_iff :
    (path : FieldPath) (s : DatabaseBackupSpec)
    → ((validate_port path s).0 ≡ []) ↔ PortIsKnown s.port s.type
unfolding validate_port
validate_port_iff path s = elim (Option-cases s.port) [
  | inl absent ↦
      rw (absent, validate_port)
        (elim (Option-cases (default_port s.type)) [
          | inl unknown ↦
              rw unknown (λ e. cc, λ h. absurd ((default_port-HasDefaultPort s.type).1 h unknown))
          | inr (p, known) ↦
              rw known (λ e. (default_port-HasDefaultPort s.type).0 (λ n. cc), λ h. refl)
        ])
  | inr (p, given) ↦
      rw (given, validate_port)
        (λ e. ground (arith, (accept_report _ _).0 e), λ h. (accept_report _ _).1 (ground arith))
]

pub validate_database_spec_iff :
    (path : FieldPath) (s : DatabaseBackupSpec)
    → ((validate_database_spec path s).0 ≡ []) ↔ IsDatabase s
unfolding validate_database_spec
validate_database_spec_iff path s =
    accept_both (accept_text _ _ _) (accept_both (validate_port_iff path s) (accept_text _ _ _))

validate_paths_iff :
    (path : FieldPath) (i : ℕ) (ps : List DirectoryPath)
    → (validate_paths path i ps ≡ []) ↔ All (λ (p : DirectoryPath). IsNonempty p.path) ps
unfolding validate_paths
validate_paths_iff path i [] = (λ e. tt, λ h. refl)
validate_paths_iff path i (p ∷ ps) =
    accept_both (accept_text _ _ _) (validate_paths_iff path (i + 1) ps)

validate_compression_iff :
    (path : FieldPath) (l : Option ℤ) → (validate_compression path l ≡ []) ↔ IsLevel l
unfolding validate_compression
validate_compression_iff path none = (λ e. tt, λ h. refl)
validate_compression_iff path (some l) =
    (λ e. ground (arith, (accept_report _ _).0 e), λ h. (accept_report _ _).1 (ground arith))

is_nil_iff {ℓ} : {A : Type ℓ} (xs : List A) → (is_nil xs ≡ false) ↔ (xs ≢ [])
is_nil_iff [] = (λ e. cc, λ h. absurd (h refl))
is_nil_iff (x ∷ xs) = (λ e h. cc, λ h. refl)

pub accept_some {ℓ} :
    {A : Type ℓ} (xs : List A) (e : FieldError) → (report (is_nil xs) e ≡ []) ↔ (xs ≢ [])
accept_some xs e = (
  λ h. (is_nil_iff xs).0 ((accept_report _ _).0 h),
  λ h. (accept_report _ _).1 ((is_nil_iff xs).1 h),
)

validate_directory_spec_iff :
    (path : FieldPath) (s : DirectoryBackupSpec)
    → (validate_directory_spec path s ≡ []) ↔ IsDirectory s
unfolding validate_directory_spec
validate_directory_spec_iff path s = accept_both (accept_some s.paths _) (
    accept_both (validate_paths_iff path 0 s.paths)
      (validate_compression_iff path s.compression_level))

validate_target_of_iff :
    (type : BackupTargetType) (path : FieldPath) (t : BackupTarget)
    → ((validate_target_of type path t).0 ≡ []) ↔ IsTargetOf type t
unfolding validate_target_of validate_database_target validate_config_target
    validate_directory_target validate_nfs_target
validate_target_of_iff database path t = with_database t.database
  where
    with_database :
        (d : Option DatabaseBackupSpec)
        → ((validate_database_target path t d).0 ≡ []) ↔ Given IsDatabase d
    with_database none = (λ e. cc, λ h. absurd h)
    with_database (some d) = validate_database_spec_iff _ d
validate_target_of_iff config path t = elim (Option-cases t.config) [
  | inl absent ↦ rw (absent, validate_config_target) (λ e. cc, λ h. absurd h)
  | inr (c, given) ↦ rw (given, validate_config_target) (λ e. tt, λ h. refl)
]
validate_target_of_iff directory path t = elim (Option-cases t.directory) [
  | inl absent ↦ rw (absent, validate_directory_target) (λ e. cc, λ h. absurd h)
  | inr (d, given) ↦ rw (given, validate_directory_target) (validate_directory_spec_iff _ d)
]
validate_target_of_iff nfs path t = elim (Option-cases t.nfs) [
  | inl absent ↦ rw (absent, validate_nfs_target) (λ e. cc, λ h. absurd h)
  | inr (n, given) ↦
      rw (given, validate_nfs_target)
        (unfold validate_nfs_spec in accept_both (accept_text _ _ _) (accept_text _ _ _))
]
validate_target_of_iff (other_target name) path t = (λ e. tt, λ h. refl)

-- The targets raise no error exactly when each is named and configured for its type.
pub validate_targets_iff :
    (i : ℕ) (ts : List BackupTarget) → ((validate_targets i ts).0 ≡ []) ↔ All IsTarget ts
unfolding validate_targets validate_target
validate_targets_iff i [] = (λ e. tt, λ h. refl)
validate_targets_iff i (t ∷ ts) =
    accept_both (accept_both (accept_text _ _ _) (validate_target_of_iff t.type _ t))
      (validate_targets_iff (i + 1) ts)
