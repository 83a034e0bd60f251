-- ===== src/Controller/Reconcile/ConfigMaps.antt =====
-- What the agent finds in the config map of its task.
use backup_operator.Base.{◌≡◌, refl, ap, ◌∙◌, String, itoa, pos, length, Option, some, All, ok}
use backup_operator.Kube.{ConfigMap, key_of, lookup}
use backup_operator.Api.{BackupTask}
use backup_operator.Client.{Client}
use backup_operator.Json.{Value}
use backup_operator.Json.Text.{marshal_indent}
use backup_operator.Json.Text.Reader.RoundTrip.{marshal_indent-injective}
use backup_operator.Json.Targets.{KubeJson, targets_json}
use backup_operator.Json.Targets.Reads.{
  KubeReads, IsSpelled, read_targets, read_targets-targets_json,
}
use backup_operator.Json.Storage.{storage_json}
use backup_operator.Json.Storage.Reads.{IsSpelledStorage, read_storage, read_storage-storage_json}
use backup_operator.Controller.Objects.{config_key}
use backup_operator.Controller.Reconcile.{marshal, create_target_config_map}

-- The text at a name is that of a JSON value, and every value with that text is read as `x`.
abbrev pub Holds {ℓ} : {A : Type ℓ} → (Value → Option A) → A → Option String → Type ℓ
Holds read x entry =
    (v : Value) × (entry ≡ some (marshal_indent v))
    × ((w : Value) → marshal_indent w ≡ marshal_indent v → read w ≡ some x)

holds {ℓ} :
    {A : Type ℓ} (read : Value → Option A) (x : A) (v : Value)
    → read v ≡ some x
    → Holds read x (some (marshal_indent v))
holds read x v h = (v, refl, λ w same. ap read (marshal_indent-injective w v same) ∙ h)

module _ {K : KubeJson} (R : KubeReads K) where
  pub record Carries (task : BackupTask) (config : ConfigMap) : Type 0 where
    pub named : key_of config.meta ≡ config_key task
    pub targets : Holds (read_targets R) task.spec.targets (lookup "targets.json" config.contents)
    pub storage :
        Holds
          (read_storage R)
          task.spec.remote_storage
          (lookup "remotestorage.json" config.contents)
    pub count : lookup "target-count" config.contents ≡ some (itoa (pos (length task.spec.targets)))

module _ (C : Client) (R : KubeReads C.json) where
  -- The config map of a task is always made, has the name of the task, and carries the whole targets
  -- and the whole remote storage: its two JSON texts are those of values, and every value with such a
  -- text is read back, field by field, as the targets and the storage of the task, if no type in the
  -- task is a constant spelled as another text. It also has the number of the targets.
  pub create_target_config_map-Carries :
      (task : BackupTask)
      → All IsSpelled task.spec.targets
      → IsSpelledStorage task.spec.remote_storage
      → (config : ConfigMap) × (create_target_config_map C task ≡ ok config) × Carries R task config
  unfolding create_target_config_map marshal
  create_target_config_map-Carries task targets storage = (
    _,
    refl,
    record {
      named = refl;
      targets =
          holds (read_targets R) task.spec.targets (targets_json C.json task.spec.targets)
            (read_targets-targets_json R task.spec.targets targets);
      storage =
          holds (read_storage R) task.spec.remote_storage
            (storage_json C.json task.spec.remote_storage)
            (read_storage-storage_json R task.spec.remote_storage storage);
      count = refl;
    },
  )
