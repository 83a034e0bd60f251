-- ===== src/Kube/Pods.antt =====
-- corev1: the parts of a Pod.
use backup_operator.Base.{ℕ, ℤ, String, Bool, Option, none, List, []}
use backup_operator.Kube.Meta.{ObjectMeta}

-- `resource.MustParse(text)`, or `resource.NewQuantity(n, BinarySI)`.
pub data Quantity : Type 0 where
  parsed : String → Quantity
  binary_si : ℕ → Quantity

pub record ResourceRequirements : Type 0 where
  pub requests : List (String × Quantity)
  pub limits : List (String × Quantity)

-- `field_path` is the path of a `FieldRef` under `ValueFrom`.
pub record EnvVar : Type 0 where
  pub name : String
  pub value : String
  pub field_path : Option String

pub record EnvFromSource : Type 0 where
  pub prefix : String
  pub secret_name : String
  pub optional : Bool

pub record KeyToPath : Type 0 where
  pub key : String
  pub path : String

pub data VolumeSource : Type 0 where
  empty_dir : Quantity → VolumeSource
  config_map : (name : String) → List KeyToPath → (default_mode : ℕ) → VolumeSource
  persistent_volume_claim : (claim_name : String) → (read_only : Bool) → VolumeSource
  nfs_volume : (server : String) → (path : String) → VolumeSource
  secret_volume : (secret_name : String) → List KeyToPath → VolumeSource

pub record Volume : Type 0 where
  pub name : String
  pub source : VolumeSource

pub record VolumeMount : Type 0 where
  pub name : String
  pub mount_path : String
  pub sub_path : String
  pub read_only : Bool

pub record SecurityContext : Type 0 where
  pub allow_privilege_escalation : Bool
  pub run_as_non_root : Bool
  pub run_as_user : ℕ
  pub drop_capabilities : List String
  pub seccomp_profile_type : String

pub record Container : Type 0 where
  pub name : String
  pub image : String
  pub image_pull_policy : String
  pub command : List String
  pub env : List EnvVar
  pub env_from : List EnvFromSource
  pub volume_mounts : List VolumeMount
  pub resources : ResourceRequirements
  pub security_context : Option SecurityContext

pub record NodeSelectorRequirement : Type 0 where
  pub key : String
  pub operator : String
  pub values : List String

pub record PreferredSchedulingTerm : Type 0 where
  pub weight : ℕ
  pub match_expressions : List NodeSelectorRequirement

pub record Affinity : Type 0 where
  pub preferred_node_terms : List PreferredSchedulingTerm
  pub other : String

pub record PodSpec : Type 0 where
  pub restart_policy : String
  pub volumes : List Volume
  pub containers : List Container
  pub service_account_name : String
  pub affinity : Option Affinity
  pub other : String

-- The zero value of Go.
abbrev pub empty_pod_spec : PodSpec
empty_pod_spec = record {
  restart_policy = "";
  volumes = [];
  containers = [];
  service_account_name = "";
  affinity = none;
  other = "";
}

pub record ContainerTerminated : Type 0 where
  pub exit_code : ℤ
  pub message : String

pub record ContainerStatus : Type 0 where
  pub name : String
  pub terminated : Option ContainerTerminated

pub record Pod : Type 0 where
  pub meta : ObjectMeta
  pub container_statuses : List ContainerStatus
