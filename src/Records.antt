-- ===== src/Records.antt =====
-- controllers/backuprecord_controller.go: the reconciler of BackupRecord.
pub mod Jobs
pub mod Reconcile
pub mod Store
pub mod Frames
pub mod Lifecycle
