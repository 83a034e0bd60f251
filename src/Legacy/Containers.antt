-- ===== src/Legacy/Containers.antt =====
-- buildDatabaseSidecar, buildContainers and buildBackupPodSpec of
-- controllers/backuptask_controller.go. A sidecar dereferences the port of its database without a
-- test, so that building the pod can panic.
pub mod Ports
use backup_operator.Base.{
  ℤ, itoa, String, ◌==◌, true, false, Option, none, some, List, [], ◌∷◌, Outcome, ok, fail, panic,
  if◌then◌else◌,
}
use backup_operator.Kube.{parsed, ResourceRequirements, Container, SecurityContext, PodSpec}
use backup_operator.Api.{DatabaseBackupSpec, BackupTarget, BackupTaskSpec, BackupTask}
use backup_operator.Controller.Constants.{backup_container_name}
use backup_operator.Controller.EnvVars.{env_value}
use backup_operator.Controller.PodSpecs.{
  default_to, affinity_or_default, template_pod_spec, build_container_resources,
}
use backup_operator.Legacy.Volumes.{build_volumes, build_volume_mounts}
use backup_operator.Legacy.EnvVars.{build_env_vars}

abbrev pub backup_image : String
backup_image = "easzlab.io.local/backup-agent:latest"

abbrev pub client_container :
    String → String → String → String → String → DatabaseBackupSpec → ℤ → Container
client_container name image host port database spec n = record {
  name = name;
  image = image;
  image_pull_policy = "IfNotPresent";
  command = "sleep" ∷ "infinity" ∷ [];
  env = env_value host spec.host ∷ env_value port (itoa n) ∷ env_value database spec.database ∷ [];
  env_from = [];
  volume_mounts = [];
  resources = record {
    requests = ("cpu", parsed "50m") ∷ ("memory", parsed "128Mi") ∷ [];
    limits = [];
  };
  security_context = none;
}

-- `fmt.Sprintf("%d", *dbSpec.Port)` in the container.
abbrev pub with_port : Option ℤ → (ℤ → Container) → Outcome (Option Container)
with_port none container = panic "invalid memory address or nil pointer dereference"
with_port (some n) container = ok (some (container n))

unfoldable pub build_database_sidecar : DatabaseBackupSpec → Outcome (Option Container)
build_database_sidecar spec =
    if spec.type == "mysql"
    then with_port spec.port (
        client_container "mysql-client" "mysql:8.0" "MYSQL_HOST" "MYSQL_PORT" "MYSQL_DATABASE" spec)
    else if spec.type == "postgresql"
    then with_port spec.port
        (client_container "postgres-client" "postgres:14" "PGHOST" "PGPORT" "PGDATABASE" spec)
    else ok none

abbrev pub sidecar_of : Option DatabaseBackupSpec → Outcome (Option Container)
unfolding build_database_sidecar
sidecar_of none = ok none
sidecar_of (some spec) = build_database_sidecar spec

abbrev pub cons_sidecar :
    Outcome (Option Container) → Outcome (List Container) → Outcome (List Container)
cons_sidecar (ok none) rest = rest
cons_sidecar (ok (some c)) (ok cs) = ok (c ∷ cs)
cons_sidecar (ok (some c)) (fail e) = fail e
cons_sidecar (ok (some c)) (panic m) = panic m
cons_sidecar (fail e) rest = fail e
cons_sidecar (panic m) rest = panic m

-- The loop over the targets, whatever their types are.
unfoldable pub sidecars : List BackupTarget → Outcome (List Container)
sidecars [] = ok []
sidecars (t ∷ targets) = cons_sidecar (sidecar_of t.database) (sidecars targets)

unfoldable pub backup_container : BackupTask → Container
backup_container task = record {
  name = backup_container_name;
  image = backup_image;
  image_pull_policy = "IfNotPresent";
  command = "/bin/bash" ∷ "-c" ∷ "/scripts/backup.sh" ∷ [];
  env = build_env_vars task;
  env_from = [];
  volume_mounts = build_volume_mounts task;
  resources = build_container_resources task;
  security_context = some (record {
    allow_privilege_escalation = false;
    run_as_non_root = true;
    run_as_user = 1000;
    drop_capabilities = "ALL" ∷ [];
    seccomp_profile_type = "RuntimeDefault";
  });
}

abbrev pub with_sidecars : Container → Outcome (List Container) → Outcome (List Container)
with_sidecars c (ok cs) = ok (c ∷ cs)
with_sidecars c (fail e) = fail e
with_sidecars c (panic m) = panic m

unfoldable pub build_containers : BackupTask → Outcome (List Container)
unfolding sidecars
build_containers task = with_sidecars (backup_container task) (sidecars task.spec.targets)

-- The pod template, with the defaults, around the containers.
unfoldable pub around_containers : BackupTask → Outcome (List Container) → Outcome PodSpec
around_containers task (ok containers) =
    let spec = template_pod_spec task.spec.pod_template in
    ok (record spec {
      restart_policy = default_to "OnFailure" spec.restart_policy;
      volumes = build_volumes task;
      containers = containers;
      service_account_name = default_to "backup-agent" spec.service_account_name;
      affinity = affinity_or_default spec.affinity;
    })
around_containers task (fail e) = fail e
around_containers task (panic m) = panic m

unfoldable pub build_backup_pod_spec : BackupTask → Outcome PodSpec
unfolding build_containers around_containers
build_backup_pod_spec task = around_containers task (build_containers task)
