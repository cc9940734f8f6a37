-- ===== src/Crd.antt =====
-- The custom resources, as the operator's types declare them.
pub mod Exemption
pub mod Package
pub mod Migrate
pub mod Tests
