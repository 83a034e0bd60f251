-- ===== src/Tests.antt =====
-- Sample objects, a small cluster to run the reconcilers on, and the theorems at these inputs.
mod Samples
mod Cluster
mod Webhooks
mod Builders
mod Retentions
mod Reconciles
mod RecordRuns
mod Store
mod Finishes
mod Removals
mod Servers
mod Managers
mod Jsons
mod Legacies
