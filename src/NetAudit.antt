-- ===== src/NetAudit.antt =====
-- agent/agent/collectors/net_audit.py: the connection audit of one host.
pub mod Types
pub mod Proc
pub mod Source
pub mod Attribution
mod SourceTests
pub mod Rollup
pub mod Collector
pub mod Branches
pub mod Trail
pub mod Cap
pub mod Outage
pub mod Traffic
pub mod Talkers
mod Tests
