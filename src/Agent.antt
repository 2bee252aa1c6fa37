-- ===== src/Agent.antt =====
-- The privileged internal agent, agent/.
pub mod Rules
pub mod World
pub mod Llm
pub mod Channels
pub mod Execution
pub mod Locks
pub mod Endpoints
pub mod Bodies
pub mod Tests
