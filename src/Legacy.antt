-- ===== src/Legacy.antt =====
-- controllers/backuptask_controller.go: the older task controller, which cmd/main.go does not
-- register. What it shares with internal/controller word for word is not repeated here.
pub mod Volumes
pub mod EnvVars
pub mod Containers
pub mod Reconcile
