-- ===== src/Prow.antt =====
-- internal/prow: the test jobs of Kubernetes, sorted into categories and providers.
pub mod Job
pub mod Names
pub mod Munge
pub mod Load
pub mod Status
