-- ===== src/EksConfig.antt =====
-- eksconfig/config.go: how a configuration is made, checked and completed.
pub mod Checks
pub mod Setter
pub mod Fields
pub mod Empty
pub mod Load
pub mod Envs
pub mod Untouched
pub mod Names
pub mod Credential
pub mod Validate
pub mod Valid
pub mod Guards
pub mod Pods
pub mod Steps
pub mod Sound
pub mod Creates
pub mod Mounts
