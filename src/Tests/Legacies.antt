-- ===== src/Tests/Legacies.antt =====
-- The older controller's theorems at the sample task.
use backup_operator.Base.{refl, ◌↔◌, inl, inr, All}
use backup_operator.Webhook.Validate.{validate_backup_task}
use backup_operator.Webhook.Validate.Effects.{validate_backup_task_fills}
use backup_operator.Legacy.Containers.{build_backup_pod_spec}
use backup_operator.Legacy.Containers.Ports.{
  IsBuilt, HasClientPort, IsTyped, build_backup_pod_spec_iff, validated-IsBuilt,
}
use backup_operator.Tests.Samples.{nightly}
use backup_operator.Tests.Webhooks.{nightly_passes}

build_backup_pod_spec_iff_example :
    IsBuilt (build_backup_pod_spec nightly)
    ↔ All (λ t. HasClientPort t.database) nightly.spec.targets
build_backup_pod_spec_iff_example = build_backup_pod_spec_iff nightly

nightly-IsTyped : All IsTyped (validate_backup_task nightly).1.spec.targets
nightly-IsTyped = rw (validate_backup_task_fills nightly) (inl refl, (inr refl, tt))

validated-IsBuilt_example : IsBuilt (build_backup_pod_spec (validate_backup_task nightly).1)
validated-IsBuilt_example = validated-IsBuilt nightly nightly_passes nightly-IsTyped
