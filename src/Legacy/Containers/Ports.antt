-- ===== src/Legacy/Containers/Ports.antt =====
-- When the pod of a task can be built, and that the validation of the webhook is enough.
use backup_operator.Base.{
  ◌≡◌, refl, ◌∙◌, ◌≢◌, ◌↔◌, ◌⊎◌, inl, inr, ℤ, String, ◌==◌, eq_iff, Bool-cases, false, Option, none,
  some, List, [], ◌∷◌, Outcome, ok, fail, panic, All, arith,
}
use backup_operator.Kube.{Container}
use backup_operator.Api.{BackupTargetType, database, DatabaseBackupSpec, BackupTarget, BackupTask}
use backup_operator.Webhook.Errors.{Given}
use backup_operator.Webhook.Targets.Accepts.{IsPort}
use backup_operator.Webhook.Targets.Ports.{HasPortOf, HasPort}
use backup_operator.Webhook.Validate.{validate_backup_task}
use backup_operator.Webhook.Validate.Effects.{validated-HasPort}
use backup_operator.Legacy.Containers.{
  with_port, build_database_sidecar, sidecar_of, cons_sidecar, sidecars, with_sidecars,
  around_containers, build_containers, backup_container, build_backup_pod_spec,
}

-- The database has a port, or its kind has no client container.
abbrev pub HasClientPort : Option DatabaseBackupSpec → Type 0
HasClientPort none = Unit
HasClientPort (some d) =
    (d.port ≢ none) ⊎ ((◌≢◌ {A = String} d.type "mysql") × (◌≢◌ {A = String} d.type "postgresql"))

abbrev pub IsBuilt : {A : Type 0} → Outcome A → Type 0
IsBuilt {A} o = (a : A) × (o ≡ ok a)

with_port_iff :
    (o : Option ℤ) (container : ℤ → Container) → IsBuilt (with_port o container) ↔ (o ≢ none)
with_port_iff none container = (λ h. cc (h.1), λ h. absurd (h refl))
with_port_iff (some n) container = (λ h e. cc, λ h. (some (container n), refl))

-- A database whose kind is `kind` has a client container, which needs its port.
needs_port :
    (d : DatabaseBackupSpec) (container : ℤ → Container) (kind : String)
    → (d.type ≡ kind)
    → (kind ≡ "mysql") ⊎ (kind ≡ "postgresql")
    → IsBuilt (with_port d.port container) ↔ HasClientPort (some d)
needs_port d container kind same known =
    let (to, from) = with_port_iff d.port container in
    (
      λ h. inl (to h),
      λ h. elim h [
        | inl port ↦ from port
        | inr (not_mysql, not_postgresql) ↦ elim known [
          | inl m ↦ absurd (not_mysql (same ∙ m))
          | inr p ↦ absurd (not_postgresql (same ∙ p))
        ]
      ],
    )

differs : (s t : String) → (s == t) ≡ false → ◌≢◌ {A = String} s t
differs s t h e = ground (arith, eq_iff s t)

sidecar_iff : (d : Option DatabaseBackupSpec) → IsBuilt (sidecar_of d) ↔ HasClientPort d
unfolding sidecar_of build_database_sidecar
sidecar_iff none = (λ h. tt, λ h. (none, refl))
sidecar_iff (some d) = elim (Bool-cases (d.type == "mysql")) [
  | inl mysql ↦ rw mysql (needs_port d _ "mysql" ((eq_iff d.type "mysql").0 mysql) (inl refl))
  | inr not_mysql ↦ elim (Bool-cases (d.type == "postgresql")) [
    | inl postgresql ↦
        rw (not_mysql, postgresql)
          (needs_port d _ "postgresql" ((eq_iff d.type "postgresql").0 postgresql) (inr refl))
    | inr not_postgresql ↦
        rw (not_mysql, not_postgresql)
          (
            λ h. inr (differs d.type "mysql" not_mysql, differs d.type "postgresql" not_postgresql),
            λ h. (none, refl),
          )
  ]
]

cons_iff :
    (o : Outcome (Option Container)) (rest : Outcome (List Container))
    → IsBuilt (cons_sidecar o rest) ↔ (IsBuilt o × IsBuilt rest)
cons_iff (ok none) rest = (λ h. ((none, refl), h), λ h. h.1)
cons_iff (ok (some c)) (ok cs) = (λ h. ((some c, refl), (cs, refl)), λ h. (c ∷ cs, refl))
cons_iff (ok (some c)) (fail e) = (λ h. cc (h.1), λ h. cc (h.1.1))
cons_iff (ok (some c)) (panic m) = (λ h. cc (h.1), λ h. cc (h.1.1))
cons_iff (fail e) rest = (λ h. cc (h.1), λ h. cc (h.0.1))
cons_iff (panic m) rest = (λ h. cc (h.1), λ h. cc (h.0.1))

sidecars_iff :
    (ts : List BackupTarget) → IsBuilt (sidecars ts) ↔ All (λ t. HasClientPort t.database) ts
unfolding sidecars
sidecars_iff [] = (λ h. tt, λ h. ([], refl))
sidecars_iff (t ∷ ts) =
    let (to, from) = cons_iff (sidecar_of t.database) (sidecars ts) in
    let (one, has) = sidecar_iff t.database in
    let (rest, all) = sidecars_iff ts in
    (λ h. let (a, b) = to h in (one a, rest b), λ h. from (has h.0, all h.1))

-- What follows the sidecars cannot fail.
around_iff :
    (task : BackupTask) (c : Container) (o : Outcome (List Container))
    → IsBuilt (around_containers task (with_sidecars c o)) ↔ IsBuilt o
unfolding around_containers
around_iff task c (ok cs) = (λ h. (cs, refl), λ h. (_, refl))
around_iff task c (fail x) = (λ h. cc (h.1), λ h. cc (h.1))
around_iff task c (panic m) = (λ h. cc (h.1), λ h. cc (h.1))

-- The pod of a task is built without a panic exactly when every target with a MySQL or PostgreSQL
-- section has a port in it.
pub build_backup_pod_spec_iff :
    (task : BackupTask)
    → IsBuilt (build_backup_pod_spec task) ↔ All (λ t. HasClientPort t.database) task.spec.targets
unfolding build_backup_pod_spec build_containers
build_backup_pod_spec_iff task =
    let (to, from) = around_iff task (backup_container task) (sidecars task.spec.targets) in
    let (all, has) = sidecars_iff task.spec.targets in (λ h. all (to h), λ h. from (has h))

-- A database section stands in a database target only.
abbrev pub IsTyped : BackupTarget → Type 0
IsTyped t = (t.type ≡ database) ⊎ (t.database ≡ none)

Given-not_none :
    (d : DatabaseBackupSpec)
    → Given (λ (x : DatabaseBackupSpec). Given IsPort x.port) (some d)
    → d.port ≢ none
Given-not_none d h = some_port d.port h
  where
    some_port : (p : Option ℤ) → Given IsPort p → p ≢ none
    some_port none h e = h
    some_port (some n) h e = cc

port-HasClientPort :
    (type : BackupTargetType) (t : BackupTarget) (d : Option DatabaseBackupSpec)
    → t.database ≡ d
    → (type ≡ database) ⊎ (d ≡ none)
    → HasPortOf type t
    → HasClientPort d
port-HasClientPort type t none e typed h = tt
port-HasClientPort type t (some d) e (inr absent) h = absurd (cc)
port-HasClientPort type t (some d) e (inl same) h = inl (Given-not_none d (rw (same, e) at h))

All-HasClientPort :
    (ts : List BackupTarget)
    → All IsTyped ts
    → All HasPort ts
    → All (λ t. HasClientPort t.database) ts
All-HasClientPort [] typed ports = tt
All-HasClientPort (t ∷ ts) typed ports = (
  port-HasClientPort t.type t t.database refl typed.0 ports.0,
  All-HasClientPort ts typed.1 ports.1,
)

-- The pod of a task that passed the validation is built without a panic, if database sections stand
-- in database targets only.
pub validated-IsBuilt :
    (t : BackupTask)
    → (validate_backup_task t).0 ≡ none
    → All IsTyped (validate_backup_task t).1.spec.targets
    → IsBuilt (build_backup_pod_spec (validate_backup_task t).1)
validated-IsBuilt t passed typed =
    (build_backup_pod_spec_iff (validate_backup_task t).1).1
      (All-HasClientPort (validate_backup_task t).1.spec.targets typed (validated-HasPort t passed))
