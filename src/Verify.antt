-- ===== src/Verify.antt =====
-- The gateway service, verify/.
pub mod Store
pub mod Action
pub mod Capped
pub mod Audit
pub mod Approvals
pub mod Network
pub mod Requests
pub mod Orders
pub mod Keycloak
pub mod Concurrent
pub mod Decisions
pub mod Domain
pub mod Fetch
pub mod Sessions
pub mod Tests
