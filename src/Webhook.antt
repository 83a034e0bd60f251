-- ===== src/Webhook.antt =====
-- api/v1alpha1/backuptask_webhook.go and internal/webhook/v1alpha1/backuptask_webhook.go
pub mod Cron
pub mod Errors
pub mod Storage
pub mod Targets
pub mod Validate
pub mod Admission
