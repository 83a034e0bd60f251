-- ===== src/Controller.antt =====
-- internal/controller: the reconciler of BackupTask.
pub mod Constants
pub mod EnvVars
pub mod Volumes
pub mod PodSpecs
pub mod CronJobs
pub mod Status
pub mod Retention
pub mod Objects
pub mod Server
pub mod Reconcile
