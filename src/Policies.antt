-- ===== src/Policies.antt =====
-- The admission policies for pods and services (pepr/policies).
pub mod Pod
pub mod Image
pub mod Common
pub mod Handlers
pub mod Numbers
pub mod Privileged
pub mod NonRoot
pub mod Profiles
pub mod Capabilities
pub mod Forged
pub mod Networking
pub mod Storage
pub mod Istio
pub mod Tests
