-- ===== src/Instance.antt =====
-- The controller of instances (internal/controller/multisitepostgres_controller.go).
pub mod Topology
pub mod Addresses
pub mod Status
pub mod Credentials
