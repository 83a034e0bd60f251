-- ===== src/Api.antt =====
-- api/v1alpha1: the custom resources BackupTask and BackupRecord.
mod Targets
mod Storage
mod Task
mod Backups
pub use Targets.*
pub use Storage.*
pub use Task.*
pub use Backups.*
