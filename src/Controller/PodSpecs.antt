-- ===== src/Controller/PodSpecs.antt =====
-- buildContainers, buildContainerResources and buildBackupPodSpec of
-- internal/controller/backuptask_controller.go.
pub mod Fixed
use Prim.Native.Char.{Char}
use backup_operator.Base.{String, Option, none, some, List, [], ◌∷◌, map, is_empty, if◌then◌else◌}
use backup_operator.Kube.{
  parsed, ResourceRequirements, Container, PreferredSchedulingTerm, Affinity, PodSpec,
  empty_pod_spec,
}
use backup_operator.Api.{PodTemplateSpec, BackupTask}
use backup_operator.Controller.Constants.{
  backup_container_name, default_backup_image, default_backup_cmd,
}
use backup_operator.Controller.EnvVars.{build_env_vars, build_env_from}
use backup_operator.Controller.Volumes.{build_volumes, build_volume_mounts}

unfoldable pub get_backup_image : BackupTask → String
get_backup_image task =
    if is_empty task.spec.backup_image then default_backup_image else task.spec.backup_image

-- The test is on the image, as in the source.
unfoldable pub get_backup_cmd : BackupTask → String
get_backup_cmd task =
    if is_empty task.spec.backup_image then default_backup_cmd else task.spec.backup_cmd

unfoldable pub build_container_resources : BackupTask → ResourceRequirements
build_container_resources task = elim task.spec.resources [
  | some resources ↦ resources
  | none ↦ record {
    requests = ("cpu", parsed "100m") ∷ ("memory", parsed "256Mi") ∷ [];
    limits = ("cpu", parsed "500m") ∷ ("memory", parsed "1Gi") ∷ [];
  }
]

-- `if x.Field == "" { x.Field = … }`
abbrev pub default_to : String → String → String
default_to default text = if is_empty text then default else text

-- The loop that sets the default `ImagePullPolicy`.
abbrev pub default_pull_policy : Container → Container
default_pull_policy c = record c { image_pull_policy = default_to "Always" c.image_pull_policy }

-- The pod spec of the template, or the zero value.
unfoldable pub template_pod_spec : Option PodTemplateSpec → PodSpec
template_pod_spec none = empty_pod_spec
template_pod_spec (some template) = elim template.spec [ none ↦ empty_pod_spec | some spec ↦ spec ]

abbrev pub default_affinity : Affinity
default_affinity = record {
  preferred_node_terms =
      record {
        weight = 100;
        match_expressions =
            record { key = "node-role.kubernetes.io/backup"; operator = "In"; values = "true" ∷ [] }
            ∷ [];
      }
      ∷ [];
  other = "";
}

-- `if podTemplate.Spec.Affinity == nil { … }`
abbrev pub affinity_or_default : Option Affinity → Option Affinity
affinity_or_default none = some default_affinity
affinity_or_default (some a) = some a

module _ (upper : Char → Char) where
  unfoldable pub build_containers : BackupTask → List Container
  build_containers task = map default_pull_policy (
      record {
        name = backup_container_name;
        image = get_backup_image task;
        image_pull_policy = "";
        command = "/bin/bash" ∷ "-c" ∷ get_backup_cmd task ∷ [];
        env = build_env_vars task;
        env_from = build_env_from upper task;
        volume_mounts = build_volume_mounts task;
        resources = build_container_resources task;
        security_context = none;
      }
      ∷ [])

  unfoldable pub build_backup_pod_spec : BackupTask → PodSpec
  unfolding template_pod_spec build_containers
  build_backup_pod_spec task =
      let spec = template_pod_spec task.spec.pod_template in
      record spec {
        restart_policy = default_to "OnFailure" spec.restart_policy;
        volumes = build_volumes task;
        containers = build_containers task;
        service_account_name = default_to "backup-agent" spec.service_account_name;
        affinity = affinity_or_default spec.affinity;
      }
