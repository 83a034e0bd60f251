-- ===== src/Manager.antt =====
-- cmd/main.go: the process that runs the controllers and the webhook.
pub mod Options
pub mod Setup
pub mod Main
