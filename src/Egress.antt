-- ===== src/Egress.antt =====
-- pepr/operator/controllers/istio: the shared resources for traffic that leaves the cluster.
pub mod Types
pub mod Ports
pub mod Resources
pub mod Conflicts
pub mod Maps
pub mod Mutex
pub mod Passes
pub mod Tests
