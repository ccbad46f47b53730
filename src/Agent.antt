-- ===== src/Agent.antt =====
-- decision_agent: the final decision on each observation whose three channels have arrived.
pub mod Judge
pub mod Roles
pub mod Records
pub mod Poller
mod Tests
