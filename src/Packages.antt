-- ===== src/Packages.antt =====
-- The packages that the operator knows (pepr/operator/controllers/packages).
pub mod Index
pub mod Store
pub mod Tests
pub mod Watch
