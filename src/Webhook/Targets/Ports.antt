-- ===== src/Webhook/Targets/Ports.antt =====
-- What the validation writes: default ports of database targets, and nothing else.
use mathlib.Core.Option
use backup_operator.Base.{
  ℕ, ◌+◌, ◌≡◌, refl, sym, inl, inr, ℤ, pos, ◌==◌, if◌then◌else◌, String, Option, Option-cases, none,
  some, List, [], ◌∷◌, map, arith, All,
}
use backup_operator.Api.{BackupTargetType, database, DatabaseBackupSpec, BackupTarget}
use backup_operator.Webhook.Errors.{FieldPath, Given, child, key, at_index}
use backup_operator.Webhook.Targets.{
  default_port, validate_port, validate_database_spec, validate_database_target, validate_target_of,
  validate_target, validate_targets,
}
use backup_operator.Webhook.Targets.Accepts.{
  IsPort, PortIsKnown, IsDatabase, IsTargetOf, IsTarget, default_port-IsPort,
  default_port-HasDefaultPort,
}

-- A database target has a section with a port in range.
abbrev pub HasPortOf : BackupTargetType → BackupTarget → Type 0
HasPortOf database t = Given (λ (d : DatabaseBackupSpec). Given IsPort d.port) t.database
HasPortOf _ t = Unit

abbrev pub HasPort : BackupTarget → Type 0
HasPort t = HasPortOf t.type t

-- The ports on which the databases listen by default.
abbrev pub usual_ports : List (String × ℤ)
usual_ports =
    ("mysql", pos 3306)
    ∷ ("postgresql", pos 5432)
    ∷ ("mongodb", pos 27017)
    ∷ ("redis", pos 6379)
    ∷ []

abbrev pub port_in : List (String × ℤ) → String → Option ℤ
port_in [] type = none
port_in ((name, port) ∷ ports) type = if type == name then some port else port_in ports type

default_port-usual : (type : String) → default_port type ≡ port_in usual_ports type
unfolding default_port
default_port-usual type = refl

-- A missing port becomes the usual one of the database's kind, if it has one.
abbrev pub filled_port : Option ℤ → String → Option ℤ
filled_port none type = port_in usual_ports type
filled_port (some p) type = some p

abbrev pub fill_database : DatabaseBackupSpec → DatabaseBackupSpec
fill_database s = record s { port = filled_port s.port s.type }

abbrev pub fill_target_of : BackupTargetType → BackupTarget → BackupTarget
fill_target_of database t = record t { database = Option.map fill_database t.database }
fill_target_of _ t = t

abbrev pub fill_target : BackupTarget → BackupTarget
fill_target t = fill_target_of t.type t

validate_port_fills :
    (path : FieldPath) (s : DatabaseBackupSpec) → (validate_port path s).1 ≡ fill_database s
unfolding validate_port
validate_port_fills path s = elim (Option-cases s.port) [
  | inl absent ↦ elim (Option-cases (default_port s.type)) [
    | inl unknown ↦ let usual = default_port-usual s.type in ground arith
    | inr (p, known) ↦ let usual = default_port-usual s.type in ground arith
  ]
  | inr (p, given) ↦ ground arith
]

validate_target_of_fills :
    (type : BackupTargetType) (path : FieldPath) (t : BackupTarget)
    → (validate_target_of type path t).1 ≡ fill_target_of type t
unfolding validate_target_of validate_database_target validate_database_spec
validate_target_of_fills database path t = elim (Option-cases t.database) [
  | inl absent ↦ ground arith
  | inr (d, given) ↦ ground (arith, validate_port_fills (child path "database") d)
]
validate_target_of_fills _ path t = refl

-- The validation of the targets leaves them with their ports filled in, whatever errors it finds.
pub validate_targets_fills :
    (i : ℕ) (ts : List BackupTarget) → (validate_targets i ts).1 ≡ map fill_target ts
unfolding validate_targets validate_target
validate_targets_fills i [] = refl
validate_targets_fills i (t ∷ ts) = cc (
  validate_target_of_fills t.type (at_index (key "spec" ∷ key "targets" ∷ []) i) t,
  validate_targets_fills (i + 1) ts,
)

fill_target-keeps :
    (type : BackupTargetType) (t : BackupTarget)
    → ((fill_target_of type t).type ≡ t.type) × ((fill_target_of type t).name ≡ t.name)
fill_target-keeps database t = (refl, refl)
fill_target-keeps _ t = (refl, refl)

fill_target-HasPort :
    (type : BackupTargetType) (t : BackupTarget)
    → IsTargetOf type t
    → HasPortOf type (fill_target_of type t)
fill_target-HasPort database t h = with_database t.database h
  where
    with_port :
        (p : Option ℤ) (type : String) → PortIsKnown p type → Given IsPort (filled_port p type)
    with_port none type k = elim (Option-cases (default_port type)) [
      | inl unknown ↦ absurd ((default_port-HasDefaultPort type).1 k unknown)
      | inr (p, known) ↦ rw (sym (default_port-usual type), known) (default_port-IsPort type known)
    ]
    with_port (some p) type k = k

    with_database :
        (d : Option DatabaseBackupSpec)
        → Given IsDatabase d
        → Given (λ (d : DatabaseBackupSpec). Given IsPort d.port) (Option.map fill_database d)
    with_database none g = g
    with_database (some d) g = with_port d.port d.type g.1.0
fill_target-HasPort _ t h = tt

-- Accepted targets, once filled in, have a port in range wherever they are databases.
pub fill_targets-HasPort :
    (ts : List BackupTarget) → All IsTarget ts → All HasPort (map fill_target ts)
fill_targets-HasPort [] h = tt
fill_targets-HasPort (t ∷ ts) h = (
  rw (fill_target-keeps t.type t).0 (fill_target-HasPort t.type t h.0.1),
  fill_targets-HasPort ts h.1,
)
