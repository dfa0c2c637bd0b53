-- ===== src/Admission.antt =====
-- internal/kubecompat/apps.go and internal/webhook/v1alpha1: what the webhooks default, warn of and
-- refuse. Kubernetes's own conversion, defaulting and validation is a parameter.
pub mod Kubernetes
pub mod Validate
pub mod Webhook
pub mod Admits
pub mod History
