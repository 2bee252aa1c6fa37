-- ===== src/Admin.antt =====
-- The administration service, admin/.
mod Tests
pub mod Logs
pub mod Http
pub mod Keycloak
pub mod OpenBao
pub mod Tier1
pub mod Tier3
pub mod AgentStatus
pub mod Schema
pub mod Disk
pub mod Catalog
pub mod CatalogPages
pub mod Manifest
pub mod ClientPages
pub mod GatewayPages
pub mod Approvals
pub mod Login
