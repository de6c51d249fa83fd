-- ===== src/Core.antt =====
-- core/src: the decisions that the services share.
pub mod Capability
pub mod Authorization
pub mod Identity
pub mod Audit
pub mod Paths
pub mod Workspace
pub mod WorkspaceDiff
pub mod ResumeLedger
pub mod Session
pub mod SessionService
mod Tests
