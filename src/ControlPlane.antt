-- ===== src/ControlPlane.antt =====
-- The control plane, controlplane/, and the data model of tenant/.
pub mod Tenant
pub mod Store
pub mod Api
