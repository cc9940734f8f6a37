-- ===== src/Exemptions.antt =====
-- The exemption store that the policies consult, the test of a resource against it, and the
-- admission of exemptions.
pub mod Store
pub mod Check
pub mod Validator
pub mod Admission
pub mod Tests
