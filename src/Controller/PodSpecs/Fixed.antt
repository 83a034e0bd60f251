-- ===== src/Controller/PodSpecs/Fixed.antt =====
-- The defaults of buildBackupPodSpec.
use Prim.Native.Char.{Char}
use backup_operator.Base.{
  ◌≡◌, ◌≢◌, sym, [], ◌∷◌, eq_iff, refl, String, Bool-cases, inl, inr, false, Option, none, some,
  is_empty,
}
use backup_operator.Kube.{
  Affinity, PodSpec, Container, ResourceRequirements, empty_pod_spec, parsed,
}
use backup_operator.Controller.Constants.{default_backup_image}
use backup_operator.Api.{PodTemplateSpec, BackupTask}
use backup_operator.Controller.EnvVars.{build_env_vars, build_env_from}
use backup_operator.Controller.Volumes.{build_volumes, build_volume_mounts}
use backup_operator.Controller.PodSpecs.{
  get_backup_image, get_backup_cmd, build_container_resources, template_pod_spec, default_to,
  affinity_or_default, build_containers, build_backup_pod_spec,
}

-- The task with a pod spec as its template.
abbrev pub with_template : BackupTask → PodSpec → BackupTask
with_template task spec = record task {
  spec = record (task.spec) { pod_template = some (record { metadata = none; spec = some spec }) };
}

default_to_idem :
    (d s : String) → is_empty d ≡ false → default_to d (default_to d s) ≡ default_to d s
default_to_idem d s h = elim (Bool-cases (is_empty s)) [
  | inl empty ↦ rw (empty, h) refl
  | inr full ↦ rw (full, full) refl
]

affinity_idem :
    (a : Option Affinity) → affinity_or_default (affinity_or_default a) ≡ affinity_or_default a
affinity_idem none = refl
affinity_idem (some a) = refl

-- A text of the user stays, and a missing one is the default.
pub record IsChosen (default given built : String) : Type 0 where
  pub kept : given ≢ "" → built ≡ given
  pub filled : given ≡ "" → built ≡ default

default_to-IsChosen : (d s : String) → IsChosen d s (default_to d s)
default_to-IsChosen d s = record { kept = kept; filled = λ h. rw h refl }
  where
    kept : s ≢ "" → default_to d s ≡ s
    kept h = elim (Bool-cases (is_empty s)) [
      | inl missing ↦ absurd (h ((eq_iff s "").0 missing))
      | inr there ↦ rw there refl
    ]

-- The pod spec that the user gave in the template, and an empty one if there is none.
abbrev pub spec_or_empty : Option PodSpec → PodSpec
spec_or_empty none = empty_pod_spec
spec_or_empty (some spec) = spec

abbrev pub given_spec : Option PodTemplateSpec → PodSpec
given_spec none = empty_pod_spec
given_spec (some template) = spec_or_empty template.spec

template_pod_spec-given : (t : Option PodTemplateSpec) → template_pod_spec t ≡ given_spec t
unfolding template_pod_spec
template_pod_spec-given none = refl
template_pod_spec-given (some template) = of_spec template.spec
  where
    of_spec :
        (o : Option PodSpec)
        → Path PodSpec (elim o [ none ↦ empty_pod_spec | some spec ↦ spec ]) (spec_or_empty o)
    of_spec none = refl
    of_spec (some spec) = refl

module _ (upper : Char → Char) (task : BackupTask) where
  -- The backup container: its image and command are those of the task, if the task names an image.
  pub record IsBackupContainer (c : Container) : Type 0 where
    pub named : c.name ≡ "backup"
    pub image : IsChosen "backup-agent:latest" task.spec.backup_image c.image
    pub always_pulled : c.image_pull_policy ≡ "Always"
    pub own_command :
        task.spec.backup_image ≢ "" → c.command ≡ "/bin/bash" ∷ "-c" ∷ task.spec.backup_cmd ∷ []
    pub default_command :
        task.spec.backup_image ≡ ""
        → c.command ≡ "/bin/bash" ∷ "-c" ∷ "/backup/scripts/backup.sh" ∷ []
    pub resources : (r : ResourceRequirements) → task.spec.resources ≡ some r → c.resources ≡ r
    pub default_resources :
        task.spec.resources ≡ none
        → c.resources ≡ record {
          requests = ("cpu", parsed "100m") ∷ ("memory", parsed "256Mi") ∷ [];
          limits = ("cpu", parsed "500m") ∷ ("memory", parsed "1Gi") ∷ [];
        }
    pub variables : c.env ≡ build_env_vars task
    pub sources : c.env_from ≡ build_env_from upper task
    pub mounts : c.volume_mounts ≡ build_volume_mounts task

  -- The pod of a task, against the pod spec of its template.
  pub record IsPodOf (spec pod : PodSpec) : Type 0 where
    pub restart_policy : IsChosen "OnFailure" spec.restart_policy pod.restart_policy
    pub service_account : IsChosen "backup-agent" spec.service_account_name pod.service_account_name
    pub affinity_kept : (a : Affinity) → spec.affinity ≡ some a → pod.affinity ≡ some a
    pub affinity_filled :
        spec.affinity ≡ none
        → pod.affinity
          ≡ some (record {
            preferred_node_terms =
                record {
                  weight = 100;
                  match_expressions =
                      record {
                        key = "node-role.kubernetes.io/backup";
                        operator = "In";
                        values = "true" ∷ [];
                      }
                      ∷ [];
                }
                ∷ [];
            other = "";
          })
    pub volumes : pod.volumes ≡ build_volumes task
    pub container : (c : Container) × (pod.containers ≡ c ∷ []) × IsBackupContainer c
    pub others : pod.other ≡ spec.other

  affinity_lem :
      (given : Option Affinity) (a : Affinity) → given ≡ some a → affinity_or_default given ≡ some a
  affinity_lem given a h = rw h refl

  own_command :
      task.spec.backup_image ≢ ""
      → "/bin/bash" ∷ "-c" ∷ get_backup_cmd task ∷ []
        ≡ "/bin/bash" ∷ "-c" ∷ task.spec.backup_cmd ∷ []
  unfolding get_backup_cmd
  own_command h = elim (Bool-cases (is_empty task.spec.backup_image)) [
    | inl missing ↦ absurd (h ((eq_iff task.spec.backup_image "").0 missing))
    | inr there ↦ rw there refl
  ]

  backup_container : (c : Container) × (build_containers upper task ≡ c ∷ []) × IsBackupContainer c
  unfolding build_containers get_backup_image get_backup_cmd build_container_resources
  backup_container = (
    _,
    refl,
    record {
      named = refl;
      image = default_to-IsChosen default_backup_image task.spec.backup_image;
      always_pulled = refl;
      own_command = own_command;
      default_command = λ h. rw h refl;
      resources = λ r h. rw h refl;
      default_resources = λ h. rw h refl;
      variables = refl;
      sources = refl;
      mounts = refl;
    },
  )

  build_backup_pod_spec-IsPodOf :
      IsPodOf (template_pod_spec task.spec.pod_template) (build_backup_pod_spec upper task)
  unfolding build_backup_pod_spec
  build_backup_pod_spec-IsPodOf =
      let spec = template_pod_spec task.spec.pod_template in
      record {
        restart_policy = default_to-IsChosen "OnFailure" spec.restart_policy;
        service_account = default_to-IsChosen "backup-agent" spec.service_account_name;
        affinity_kept = affinity_lem spec.affinity;
        affinity_filled = λ h. rw h refl;
        volumes = refl;
        container = backup_container;
        others = refl;
      }

-- A task whose template is the pod spec built for it gets that pod spec again.
build_backup_pod_spec_idem :
    (upper : Char → Char) (task : BackupTask)
    → build_backup_pod_spec upper (with_template task (build_backup_pod_spec upper task))
      ≡ build_backup_pod_spec upper task
unfolding build_backup_pod_spec template_pod_spec build_containers build_volumes get_backup_image
    get_backup_cmd build_env_vars build_env_from build_volume_mounts build_container_resources
build_backup_pod_spec_idem upper task =
    let spec = template_pod_spec task.spec.pod_template in
    rw
      (
        default_to_idem "OnFailure" spec.restart_policy refl,
        default_to_idem "backup-agent" spec.service_account_name refl,
        affinity_idem spec.affinity,
      )
      refl

-- The pod of a task keeps the restart policy, the service account and the affinity of its template, and
-- has the defaults where they are missing; it has the volumes of the task and one container, which runs
-- the image and the command of the task if the task names an image, and the defaults otherwise. A task
-- whose template is that pod spec gets it again.
pub build_backup_pod_spec_lem :
    (upper : Char → Char) (task : BackupTask)
    → IsPodOf upper task (given_spec task.spec.pod_template) (build_backup_pod_spec upper task)
      × (build_backup_pod_spec upper (with_template task (build_backup_pod_spec upper task))
          ≡ build_backup_pod_spec upper task)
build_backup_pod_spec_lem upper task = (
  rw (sym (template_pod_spec-given task.spec.pod_template))
      (build_backup_pod_spec-IsPodOf upper task),
  build_backup_pod_spec_idem upper task,
)
